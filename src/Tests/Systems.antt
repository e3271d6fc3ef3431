-- ===== src/Tests/Systems.antt =====
-- A run of the whole system: a collector starts, brings in the first line, the second is refused, the
-- position is stored, and the collector is killed; another one starts.
use k8spodlogreceiver.Prelude.{Any, ◌≡◌, refl, inl, true, false, [], ◌∷◌, ◌++◌, arith, bytes_eq}
use k8spodlogreceiver.Connection.{line, closed}
use k8spodlogreceiver.Tests.Streams.{sleeps, line_b, line_a, resuming, takes_all, takes_all-Willing}
use k8spodlogreceiver.System.Bringing.{Brought}
use k8spodlogreceiver.System.Catching.{Runs-AllCame}
use k8spodlogreceiver.Collector.{with_storage}
use k8spodlogreceiver.Tests.Receivers.{app}
use k8spodlogreceiver.Prelude.Int.{ltb_ℤ, pos}
use k8spodlogreceiver.Tests.Streams.{line_c, whole_log, refusing}
use k8spodlogreceiver.Tests.Lifecycles.{
  decode_one_maps, storage_id, stored_config, decode_one, bare_host, encode_one,
}
use k8spodlogreceiver.Cursor.Store.{value, Read}
use k8spodlogreceiver.Cursor.Store
use k8spodlogreceiver.Container.{stream_container_logs}
use k8spodlogreceiver.Lifecycle.{open_storage, new_process, start}
use k8spodlogreceiver.Receiver.{ensure_stream, cursor_for, advance_cursor}
use k8spodlogreceiver.Pod.{container_has_started}
use k8spodlogreceiver.Stream.{drain_failed, Stream, follow, begin_round, round, run}
use k8spodlogreceiver.Connection.{consume_batch, step, stream_connection}
use k8spodlogreceiver.Cursor.{after, record_line}
use k8spodlogreceiver.Cursor.Filter.{new_filter, keep}
use k8spodlogreceiver.Discovery.{watched_namespaces}
use k8spodlogreceiver.Discovery.Informers
use k8spodlogreceiver.Config.{batch_size}
use k8spodlogreceiver.Logline.Batch.{new_batch, append}
use k8spodlogreceiver.Prelude.Maps.{put}
use k8spodlogreceiver.Tests.Containers.{small_batches}
use k8spodlogreceiver.Tests.Receivers.{streaming}
use k8spodlogreceiver.Tests.Receivers.{pod, key}
use k8spodlogreceiver.Tests.Collectors.{name}
use k8spodlogreceiver.Stream.Growing.{more_rounds}
use k8spodlogreceiver.Receiver.Generations.{ensures}
use k8spodlogreceiver.System.{
  System, Live, Runs, steps, opens, gets_on, tells, flushes, restarts, still, then_moves, this_one,
  new_life,
}
use k8spodlogreceiver.System.NoGap.{idle, CameIn, held_position, Runs-CameIn}
use k8spodlogreceiver.Container.{new_container_stream}
use k8spodlogreceiver.Cursor.{Cursor}
use k8spodlogreceiver.Cursor.Store.Persistence.{answer}

abbrev started : System
started = record {
  receiver = new_life encode_one decode_one stored_config storage_id key whole_log idle bare_host;
  streams = [];
  earlier = [];
  disk = value [];
}

abbrev ensured : System
ensured = record started { receiver = ensure_stream started.receiver pod app }

abbrev first_stream : Live
first_stream = record {
  gen = 1;
  first = new_container_stream stored_config ensured.receiver pod name key;
  met = [];
}

abbrev opened : System
opened = record ensured { streams = first_stream ∷ [] }

abbrev going : System
going = record opened { streams = record first_stream { met = refusing ∷ [] } ∷ [] }

abbrev five_once : Cursor
five_once = record { ts = 5; delivered = pos 1 }

abbrev told : System
told = record going { receiver = advance_cursor going.receiver key 1 five_once }

abbrev written : System
written = record told { disk = answer (Store.flush encode_one told.receiver.cursors) }

abbrev again : System
again = record {
  receiver =
      new_life encode_one decode_one stored_config storage_id key whole_log written bare_host;
  streams = [];
  earlier = written.streams ++ written.earlier;
  disk = written.disk;
}

a_run : Runs encode_one decode_one stored_config storage_id key whole_log idle again
unfolding with_storage stream_container_logs open_storage new_process start ensure_stream cursor_for
    advance_cursor container_has_started follow begin_round round run consume_batch step
    stream_connection after record_line new_filter keep Store.new_store Store.advance Store.load
    watched_namespaces Informers.new_informer Informers.start batch_size new_batch append put
    small_batches streaming
a_run =
    then_moves
      (then_moves
        (then_moves
          (then_moves
            (then_moves
              (then_moves (then_moves still (restarts bare_host refl))
                (steps (ensures pod app (omega arith)) tt))
              (opens pod name 1 refl))
            (gets_on (
              this_one first_stream [] (refusing ∷ []) (more_rounds [] (refusing ∷ []))
                ((record { old = []; rest = line_c ∷ []; cut = refl; behind = tt }, tt), tt))))
          (tells 1 five_once (inl (refl, inl refl))))
        (flushes refl (record {
          raw_head = 5;
          raw_tail = 1 ∷ key;
          encoded = refl;
          read_back = (key, five_once) ∷ [];
          decoded = refl;
          same_entries = λ j. refl;
        })))
      (restarts bare_host refl)

Runs-CameIn_example :
    CameIn encode_one decode_one stored_config storage_id key whole_log
      (again.streams ++ again.earlier)
      (cursor_for again.receiver key)
    × CameIn encode_one decode_one stored_config storage_id key whole_log
        (again.streams ++ again.earlier)
        (held_position encode_one decode_one stored_config storage_id key whole_log again.disk)
Runs-CameIn_example =
    Runs-CameIn encode_one decode_one stored_config storage_id key whole_log refl decode_one_maps
      (omega arith, (omega arith, (omega arith, tt)))
      ((omega arith, (omega arith, tt)), ((omega arith, tt), (tt, tt))) (omega arith) again a_run

-- The second collector's stream, from the position that was stored.
abbrev second_stream : Stream
second_stream = new_container_stream stored_config again.receiver pod name key

resumes_there : second_stream.resume ≡ five_once
unfolding with_storage stream_container_logs open_storage new_process start ensure_stream cursor_for
    advance_cursor container_has_started follow begin_round round run consume_batch step
    stream_connection after record_line new_filter keep Store.new_store Store.advance Store.load
    watched_namespaces Informers.new_informer Informers.start batch_size new_batch append put
    small_batches streaming Store.flush
resumes_there = refl

unlimited : ltb_ℤ (pos 0) stored_config.reconnect_backoff.max_elapsed_time ≡ false
unfolding small_batches
unlimited = refl

Runs-AllCame_example : Any (Brought whole_log 2) (
    record { gen = 1; first = second_stream; met = resuming ∷ [] }
    ∷ (again.streams ++ again.earlier))
Runs-AllCame_example =
    Runs-AllCame encode_one decode_one stored_config storage_id key whole_log refl decode_one_maps
      (omega arith, (omega arith, (omega arith, tt)))
      ((omega arith, (omega arith, tt)), ((omega arith, tt), (tt, tt))) (omega arith) again pod name
      1 [] resuming a_run ((record { old = []; rest = []; cut = refl; behind = tt }, tt), tt)
      unlimited tt
      (record {
        pipeline = takes_all;
        es = line line_a 30 ∷ line line_b 31 ∷ line line_c 32 ∷ closed false ∷ [];
        cancelled = false;
        deadline = false;
        terminal = true;
        drain = drain_failed;
        sleep = sleeps;
        connects = refl;
        goes_on = refl;
        willing = takes_all-Willing;
        closes = tt;
        to_the_end = ([], refl, tt);
      })
      2 (omega arith)
