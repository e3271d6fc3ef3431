-- ===== src/Tests/Collectors.antt =====
-- Two lives of a collector on a concrete log.
use k8spodlogreceiver.Prelude.{◌≡◌, refl, sym, true, false, List, [], ◌∷◌, arith, Bytes, bytes_eq}
use k8spodlogreceiver.Collector.Crashes.{crashes-Covered, Covered, Killed}
use k8spodlogreceiver.Cursor.Counting.{Stands-zero}
use k8spodlogreceiver.Prelude.Int.{pos, dec, inc}
use k8spodlogreceiver.Tests.Streams.{
  sleeps, line_b, line_a, takes_all, failing, line_c, whole_log, resuming, refusing,
}
use k8spodlogreceiver.Tests.Lifecycles.{
  decode_one_maps, storage_id, stored_config, decode_one, bare_host, encode_one,
}
use k8spodlogreceiver.Collector.{crashes, flushed_by, Life}
use k8spodlogreceiver.Cursor.Store.{value, Read}
use k8spodlogreceiver.Stream.{drain_failed, connected, Round}
use k8spodlogreceiver.Collector.Restarts.{Undisturbed}
use k8spodlogreceiver.Cursor.Store
use mathlib.Core.Path.{subst}
use k8spodlogreceiver.Stream.Growing.{more_events, Later, more_rounds}
use k8spodlogreceiver.Collector.Restarts.{lives-Delivered, Delivered}
use k8spodlogreceiver.Collector.{stored_by, lives}
use k8spodlogreceiver.Container.{stream_container_logs}
use k8spodlogreceiver.Lifecycle.{open_storage, new_process, start, shutdown}
use k8spodlogreceiver.Receiver.{
  release_stream, ensure_stream, record_pod_uid_seen, mark_container_states, on_pod_added,
  cursor_for, advance_cursor,
}
use k8spodlogreceiver.Pod.{pod_containers, container_has_started}
use k8spodlogreceiver.Stream.{follow, begin_round, round, run}
use k8spodlogreceiver.Connection.{closed, line, consume_batch, step, stream_connection}
use k8spodlogreceiver.Cursor.{after, record_line}
use k8spodlogreceiver.Cursor.Filter.{new_filter, keep}
use k8spodlogreceiver.Discovery.{watched_namespaces}
use k8spodlogreceiver.Discovery.Informers
use k8spodlogreceiver.Config.{batch_size}
use k8spodlogreceiver.Logline.Batch.{new_batch, append}
use k8spodlogreceiver.Prelude.Maps.{put}
use k8spodlogreceiver.Prelude.Int.{inc, dec}
use k8spodlogreceiver.Tests.Containers.{small_batches}
use k8spodlogreceiver.Tests.Receivers.{streaming}
use k8spodlogreceiver.Tests.Receivers.{pod, key}

abbrev stopped_round : Round
stopped_round = record failing { stopped = true }

-- The pipeline refuses the second line, and the collector shuts down.
abbrev first_life : Life
first_life = record { host = bare_host; pod = pod; now = 9; rounds = refusing ∷ stopped_round ∷ [] }

abbrev second_life : Life
second_life = record { host = bare_host; pod = pod; now = 40; rounds = resuming ∷ [] }

abbrev pub name : Bytes
name = b'a' ∷ []

abbrev between : Read
between = value (5 ∷ 1 ∷ key)

first_stored :
    stored_by encode_one decode_one stored_config storage_id name (value []) first_life ≡ between
unfolding lives stream_container_logs open_storage new_process start shutdown release_stream
    ensure_stream record_pod_uid_seen mark_container_states on_pod_added cursor_for advance_cursor
    pod_containers container_has_started follow begin_round round run consume_batch step
    stream_connection after record_line new_filter keep Store.new_store Store.advance
    Store.mark_pod_seen Store.load Store.flush watched_namespaces Informers.new_informer
    Informers.start batch_size new_batch append put small_batches streaming
first_stored = refl

first-Undisturbed :
    Undisturbed encode_one decode_one stored_config storage_id name key whole_log
      (value [])
      first_life
unfolding lives stream_container_logs open_storage new_process start shutdown release_stream
    ensure_stream record_pod_uid_seen mark_container_states on_pod_added cursor_for advance_cursor
    pod_containers container_has_started follow begin_round round run consume_batch step
    stream_connection after record_line new_filter keep Store.new_store Store.advance
    Store.mark_pod_seen Store.load Store.flush watched_namespaces Informers.new_informer
    Informers.start batch_size new_batch append put small_batches streaming
first-Undisturbed = record {
  same_container = refl;
  starts = refl;
  streams = refl;
  served = ((record { old = []; rest = line_c ∷ []; cut = refl; behind = tt }, tt), (tt, tt));
  written = record {
    raw_head = 5;
    raw_tail = 1 ∷ key;
    encoded = refl;
    read_back = (key, record { ts = 5; delivered = pos 1 }) ∷ [];
    decoded = refl;
    same_entries = λ j. refl;
  };
}

second-Undisturbed :
    Undisturbed encode_one decode_one stored_config storage_id name key whole_log between
      second_life
unfolding lives stream_container_logs open_storage new_process start shutdown release_stream
    ensure_stream record_pod_uid_seen mark_container_states on_pod_added cursor_for advance_cursor
    pod_containers container_has_started follow begin_round round run consume_batch step
    stream_connection after record_line new_filter keep Store.new_store Store.advance
    Store.mark_pod_seen Store.load Store.flush watched_namespaces Informers.new_informer
    Informers.start batch_size new_batch append put small_batches streaming dec inc
second-Undisturbed = record {
  same_container = refl;
  starts = refl;
  streams = refl;
  served = ((record { old = []; rest = []; cut = refl; behind = tt }, tt), tt);
  written = record {
    raw_head = 7;
    raw_tail = 1 ∷ key;
    encoded = refl;
    read_back = (key, record { ts = 7; delivered = pos 1 }) ∷ [];
    decoded = refl;
    same_entries = λ j. refl;
  };
}

lives-Delivered_example :
    let (bodies, end) =
      lives encode_one decode_one stored_config storage_id name
        (value [])
        (first_life ∷ second_life ∷ []) in
    Delivered encode_one decode_one stored_config storage_id name key whole_log [] bodies end
lives-Delivered_example =
    lives-Delivered encode_one decode_one stored_config storage_id name key whole_log
      (first_life ∷ second_life ∷ []) (value []) [] refl decode_one_maps
      (omega arith, (omega arith, (omega arith, tt)))
      ((omega arith, (omega arith, tt)), ((omega arith, tt), (tt, tt))) (omega arith)
      (
        first-Undisturbed,
        (
          subst
              (λ x.
                Undisturbed encode_one decode_one stored_config storage_id name key whole_log x
                  second_life)
              (sym first_stored) second-Undisturbed,
          tt,
        ),
      )
      (record { tail = whole_log; cut = refl; stands = Stands-zero })

-- The cursors are flushed behind the refused batch; the rest comes in, and the collector is killed.
abbrev flushed_life : Life
flushed_life = record first_life { rounds = refusing ∷ [] }

abbrev whole_life : List Round
whole_life = refusing ∷ resuming ∷ []

first_flush :
    flushed_by encode_one decode_one stored_config storage_id name (value []) flushed_life ≡ between
unfolding lives stream_container_logs open_storage new_process start shutdown release_stream
    ensure_stream record_pod_uid_seen mark_container_states on_pod_added cursor_for advance_cursor
    pod_containers container_has_started follow begin_round round run consume_batch step
    stream_connection after record_line new_filter keep Store.new_store Store.advance
    Store.mark_pod_seen Store.load Store.flush watched_namespaces Informers.new_informer
    Informers.start batch_size new_batch append put small_batches streaming dec inc flushed_by
first_flush = refl

flushed-Killed :
    Killed encode_one decode_one stored_config storage_id name key whole_log
      (value [])
      flushed_life
      whole_life
unfolding lives stream_container_logs open_storage new_process start shutdown release_stream
    ensure_stream record_pod_uid_seen mark_container_states on_pod_added cursor_for advance_cursor
    pod_containers container_has_started follow begin_round round run consume_batch step
    stream_connection after record_line new_filter keep Store.new_store Store.advance
    Store.mark_pod_seen Store.load Store.flush watched_namespaces Informers.new_informer
    Informers.start batch_size new_batch append put small_batches streaming dec inc
flushed-Killed = record {
  goes_on_to = more_rounds (refusing ∷ []) (resuming ∷ []);
  until_flush = record {
    same_container = refl;
    starts = refl;
    streams = refl;
    served = ((record { old = []; rest = line_c ∷ []; cut = refl; behind = tt }, tt), tt);
    written = record {
      raw_head = 5;
      raw_tail = 1 ∷ key;
      encoded = refl;
      read_back = (key, record { ts = 5; delivered = pos 1 }) ∷ [];
      decoded = refl;
      same_entries = λ j. refl;
    };
  };
  served = (
    (record { old = []; rest = line_c ∷ []; cut = refl; behind = tt }, tt),
    ((record { old = []; rest = []; cut = refl; behind = tt }, tt), tt),
  );
}

second-Killed :
    Killed encode_one decode_one stored_config storage_id name key whole_log between second_life
      (resuming ∷ [])
second-Killed = record {
  goes_on_to = more_rounds (resuming ∷ []) [];
  until_flush = second-Undisturbed;
  served = second-Undisturbed.served;
}

crashes-Covered_example :
    let (bodies, end) =
      crashes encode_one decode_one stored_config storage_id name
        (value [])
        ((flushed_life, whole_life) ∷ (second_life, resuming ∷ []) ∷ []) in
    Covered encode_one decode_one stored_config storage_id name key whole_log [] bodies end
crashes-Covered_example =
    crashes-Covered encode_one decode_one stored_config storage_id name key whole_log
      ((flushed_life, whole_life) ∷ (second_life, resuming ∷ []) ∷ []) (value []) [] refl
      decode_one_maps (omega arith, (omega arith, (omega arith, tt)))
      ((omega arith, (omega arith, tt)), ((omega arith, tt), (tt, tt))) (omega arith)
      (
        flushed-Killed,
        (
          subst
              (λ x.
                Killed encode_one decode_one stored_config storage_id name key whole_log x
                  second_life (resuming ∷ []))
              (sym first_flush) second-Killed,
          tt,
        ),
      )
      (record { tail = whole_log; cut = refl; stands = Stands-zero })

-- A flush in the midst of a connection: two of its events have arrived.
in_the_midst :
    Later
      (record resuming {
        attempt =
            connected takes_all
              (line line_a 30 ∷ line line_b 31 ∷ [])
              false
              false
              false
              drain_failed
              sleeps;
      }
        ∷ [])
      (resuming ∷ [])
in_the_midst =
    more_events [] [] resuming takes_all (line line_a 30 ∷ line line_b 31 ∷ [])
      (line line_c 32 ∷ closed false ∷ []) false false true drain_failed sleeps
