-- ===== src/Tests/Containers.antt =====
-- A container's stream that the receiver starts, on concrete rounds.
use k8spodlogreceiver.Prelude.{ℕ, ◌≡◌, refl, sym, inr, true, List, [], ◌∷◌, arith, bytes_eq}
use k8spodlogreceiver.Cursor.{zero_cursor}
use k8spodlogreceiver.Stream.Delivery.{ServedRounds}
use k8spodlogreceiver.Cursor.Counting.{Stands, Stands-zero}
use k8spodlogreceiver.Receiver.Release.{owns}
use k8spodlogreceiver.Prelude.Maps.{put}
use k8spodlogreceiver.StreamKey.{stream_key}
use k8spodlogreceiver.Container.Handover.{Continued}
use k8spodlogreceiver.Tests.Streams.{line_c, whole_log, three_rounds}
use k8spodlogreceiver.Prelude.Int.{pos}
use k8spodlogreceiver.Pod.{pod_containers, container_has_started}
use k8spodlogreceiver.Receiver.{ensure_stream, cursor_for}
use k8spodlogreceiver.Tests.Receivers.{key, pod, streaming}
use k8spodlogreceiver.Container.{new_container_stream}
use k8spodlogreceiver.Config.{Config, create_default_config}
use k8spodlogreceiver.Cursor.Store
use mathlib.Core.Path.{subst}
use k8spodlogreceiver.Stream.{round, retry_after_connect_error, begin_round, follow}
use k8spodlogreceiver.Connection.{stream_connection, step, consume_batch}
use k8spodlogreceiver.Cursor.Filter.{keep, new_filter}
use k8spodlogreceiver.Logline.Batch.{new_batch, append}
use k8spodlogreceiver.Cursor.{after, record_line}
use k8spodlogreceiver.Config.{batch_size}
use k8spodlogreceiver.Prelude.Int.{dec, inc}
use k8spodlogreceiver.Stream.{run}
use k8spodlogreceiver.Receiver.{record_pod_uid_seen}
use k8spodlogreceiver.Receiver.Apart
use k8spodlogreceiver.Receiver.Apart.{sees}
use k8spodlogreceiver.Container.Interleaving.{
  Interleaved, others, tells, here, Continued-Interleaved,
}
use k8spodlogreceiver.Receiver.{advance_cursor, Receiver}
use k8spodlogreceiver.Cursor.{Cursor}

-- One line for each batch.
unfoldable pub small_batches : Config
unfolding create_default_config
small_batches = record create_default_config { max_batch_size = pos 1 }

container_rounds :
    ServedRounds whole_log
      (record (new_container_stream small_batches streaming pod (b'a' ∷ []) key) {
        backoff = small_batches.reconnect_backoff.initial_interval;
      })
      three_rounds
unfolding new_container_stream create_default_config streaming cursor_for Store.get
container_rounds = (
  tt,
  (
    (record { old = []; rest = line_c ∷ []; cut = refl; behind = tt }, tt),
    ((record { old = []; rest = []; cut = refl; behind = tt }, tt), tt),
  ),
)

nothing_read : cursor_for streaming key ≡ zero_cursor
unfolding pod_containers ensure_stream container_has_started Store.new_store cursor_for Store.get
    streaming
nothing_read = refl

owned : owns streaming key 1 ≡ true
unfolding streaming ensure_stream container_has_started pod_containers stream_key put
owned = refl

abbrev position : ℕ → ℕ → Cursor
position t n = record { ts = t; delivered = pos n }

-- The stream's reports, each connection's last one twice.
abbrev told_positions : List Cursor
told_positions = position 5 1 ∷ position 5 1 ∷ position 5 2 ∷ position 7 1 ∷ position 7 1 ∷ []

reports_are :
    (run (new_container_stream small_batches streaming pod (b'a' ∷ []) key) three_rounds).0.reports
    ≡ told_positions
unfolding run round retry_after_connect_error begin_round new_container_stream small_batches follow
    stream_connection step keep new_filter cursor_for Store.get streaming pod_containers
    ensure_stream container_has_started Store.new_store batch_size create_default_config
    consume_batch after new_batch append record_line dec inc
reports_are = refl

-- The pod is seen again, and a stream of an earlier generation reports late.
abbrev meanwhile : Receiver
meanwhile = advance_cursor (record_pod_uid_seen streaming pod.uid 9) key 0 (position 6 1)

abbrev at_last : Receiver
at_last =
    advance_cursor
      (advance_cursor
        (advance_cursor
          (advance_cursor (advance_cursor meanwhile key 1 (position 5 1)) key 1 (position 5 1)) key
          1 (position 5 2))
        key 1 (position 7 1))
      key 1 (position 7 1)

among_others : Interleaved key 1 streaming told_positions at_last
among_others = others (sees pod.uid 9) (
    others (Apart.reports key 0 (position 6 1) (inr (λ e. absurd (omega (arith, e)))))
      (tells _ (tells _ (tells _ (tells _ (tells _ here))))))

Continued-Interleaved_example :
    Continued whole_log [] key
      (run (new_container_stream small_batches streaming pod (b'a' ∷ []) key) three_rounds).0
      at_last
Continued-Interleaved_example =
    Continued-Interleaved whole_log [] small_batches streaming at_last pod (b'a' ∷ []) key 1
      three_rounds (omega arith, (omega arith, (omega arith, tt)))
      ((omega arith, (omega arith, tt)), ((omega arith, tt), (tt, tt))) (omega arith)
      container_rounds owned
      (record {
        tail = whole_log;
        cut = refl;
        stands = subst (λ c. Stands c []) (sym nothing_read) Stands-zero;
      })
      (subst (λ cs. Interleaved key 1 streaming cs at_last) (sym reports_are) among_others)
