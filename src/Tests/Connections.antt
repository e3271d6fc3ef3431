-- ===== src/Tests/Connections.antt =====
-- One connection on concrete events.
use k8spodlogreceiver.Prelude.{
  ℕ, ◌≡◌, refl, false, List, [], ◌∷◌, arith, ◌==◌, if◌then◌else◌, All, bytes_eq,
}
use k8spodlogreceiver.Prelude.Int.{pos, inc}
use k8spodlogreceiver.Logline.Batch.{Meta, Batch, new_batch, append}
use k8spodlogreceiver.Cursor.{zero_cursor, record_line}
use k8spodlogreceiver.Cursor.Filter.{new_filter, keep}
use k8spodlogreceiver.Connection.{
  Consumed, accepted, other_error, consume_batch, Event, line, closed, tick, pipeline_refused,
  stream_connection, flush, append_line, step,
}
use k8spodlogreceiver.Connection.Tracks.{next_resume}
use k8spodlogreceiver.Connection.Batches.{Fits, last_report, stream_connection_batches}

abbrev pub meta : Meta
meta = record {
  namespace = b'n' ∷ [];
  pod_name = b'p' ∷ [];
  pod_uid = b'u' ∷ [];
  container_name = b'c' ∷ [];
  node_name = b'm' ∷ [];
  restart_count = pos 0;
}

-- Takes the first batch and refuses the others.
abbrev first_only : ℕ → Batch → Consumed
first_only n b = if n == 0 then accepted else other_error

abbrev line_at : ℕ → ℕ → Event
line_at b t = line (record { body = b ∷ []; timestamp = t }) 99

abbrev three_lines : List Event
three_lines = line_at b'a' 5 ∷ line_at b'b' 5 ∷ tick ∷ line_at b'c' 7 ∷ closed false ∷ []

refused_at_the_end :
    (stream_connection first_only 2 meta zero_cursor three_lines).1 ≡ pipeline_refused
unfolding stream_connection step flush append_line append new_batch consume_batch keep new_filter
    record_line inc
refused_at_the_end = refl

position_left :
    next_resume zero_cursor (stream_connection first_only 2 meta zero_cursor three_lines).0
    ≡ record { ts = 5; delivered = pos 2 }
unfolding stream_connection step flush append_line append new_batch consume_batch keep new_filter
    record_line inc
position_left = refl

stream_connection_batches_example :
    All (Fits 2) (stream_connection first_only 2 meta zero_cursor three_lines).0.sent
    × (last_report (stream_connection first_only 2 meta zero_cursor three_lines).0.progress
        ≡ (stream_connection first_only 2 meta zero_cursor three_lines).0.delivered)
stream_connection_batches_example =
    stream_connection_batches first_only 2 meta zero_cursor three_lines (omega arith)
