-- ===== src/Tests/Readers.antt =====
-- The two goroutines of a connection on a concrete response body: the reader sends both lines, the
-- loop takes one of them in between, and then sees the end.
use k8spodlogreceiver.Prelude.{
  ◌≤◌, ◌≡◌, refl, sym, ◌⊎◌, inr, true, false, List, [], ◌∷◌, map, arith, Bytes, bytes_eq,
}
use k8spodlogreceiver.Prelude.Int.{inc}
use k8spodlogreceiver.Logline.Split.{split_lines}
use k8spodlogreceiver.Logline.Batch.{new_batch, append}
use k8spodlogreceiver.Tests.Loglines.{plain, parse_t, entry}
use k8spodlogreceiver.Cursor.Filter.{keep, new_filter, keep_all}
use k8spodlogreceiver.Connection.{
  at_eof, consume_batch, append_line, closed, line, flush, step, stream_connection,
}
use k8spodlogreceiver.Cursor.{record_line, zero_cursor}
use k8spodlogreceiver.Logline.Line.{parse_leading_timestamp, Line}
use k8spodlogreceiver.Logline.ReadBack.{printed_log_read_back, line_of, printed_log}
use k8spodlogreceiver.Connection.Arriving.{Acts-text, Acts-Arrived, Arrived}
use k8spodlogreceiver.Connection.Reader.{
  sees_end, reader_ends, receives, reader_sends, no_act, then_acts, Acts, with_round, open_pipe,
  Pipe,
}
use k8spodlogreceiver.Connection.Ending.{goroutines_end, done_in, CanGoOn, BothEnded}
use k8spodlogreceiver.Connection.Tracks.{body_of, accepted_bodies}
use k8spodlogreceiver.Logline.Records.{records}
use k8spodlogreceiver.Connection.Reader.{then_acts}
use k8spodlogreceiver.Connection.{at_eof}
use k8spodlogreceiver.Tests.Loglines.{plain}
use mathlib.Core.Path.{subst}
use k8spodlogreceiver.Tests.Connections.{meta}
use k8spodlogreceiver.Tests.Streams.{takes_all}

abbrev the_line : Line
the_line = line_of entry

abbrev both : List Line
both = the_line ∷ the_line ∷ []

abbrev opened : Pipe
opened = open_pipe takes_all 1 meta false zero_cursor both

abbrev one_sent : Pipe
one_sent = record opened { unread = the_line ∷ []; line_ch = the_line ∷ [] }

abbrev one_taken : Pipe
one_taken =
    with_round takes_all 1 meta false (record one_sent { line_ch = [] })
      (step takes_all 1 meta one_sent.conn (line the_line 3))

abbrev two_sent : Pipe
two_sent = record one_taken { unread = []; line_ch = the_line ∷ [] }

abbrev reader_done : Pipe
reader_done = record two_sent { line_ch_closed = true }

abbrev two_taken : Pipe
two_taken =
    with_round takes_all 1 meta false (record reader_done { line_ch = [] })
      (step takes_all 1 meta reader_done.conn (line the_line 4))

abbrev loop_done : Pipe
loop_done =
    with_round takes_all 1 meta false two_taken
      (step takes_all 1 meta two_taken.conn (closed false))

their_acts : Acts takes_all 1 meta false opened loop_done
unfolding open_pipe stream_connection step flush append_line append new_batch consume_batch keep
    new_filter record_line inc
their_acts =
    then_acts
      (then_acts
        (then_acts
          (then_acts
            (then_acts
              (then_acts no_act (reader_sends the_line (the_line ∷ []) refl refl (omega arith)))
              (receives the_line [] 3 refl refl))
            (reader_sends the_line [] refl refl (omega arith)))
          (reader_ends refl refl))
        (receives the_line [] 4 refl refl))
      (sees_end refl refl refl)

at_the_end : loop_done.status ≡ at_eof
unfolding open_pipe stream_connection step flush append_line append new_batch consume_batch keep
    new_filter record_line inc
at_the_end = refl

Acts-Arrived_example :
    Arrived zero_cursor (keep_all (new_filter zero_cursor) both) loop_done.conn loop_done.status
Acts-Arrived_example = Acts-Arrived takes_all 1 meta false zero_cursor both loop_done their_acts

goroutines_end_example :
    (BothEnded takes_all 1 meta false loop_done ⊎ CanGoOn takes_all 1 meta false loop_done)
    × (done_in takes_all 1 meta false their_acts ≤ 6)
goroutines_end_example =
    goroutines_end takes_all 1 meta false zero_cursor both loop_done their_acts (omega arith)

abbrev body : Bytes
body = printed_log (entry ∷ entry ∷ [])

Acts-text_example :
    accepted_bodies loop_done.conn.sent
    ≡ map body_of (
        keep_all
          (new_filter zero_cursor)
          (map (parse_leading_timestamp parse_t) (records 9 split_lines false [] body)))
Acts-text_example =
    Acts-text takes_all 1 meta false zero_cursor parse_t 9 split_lines body (4 ∷ 1 ∷ []) loop_done
      (omega arith) (omega arith)
      (subst
        (λ ls.
          Acts takes_all 1 meta false (open_pipe takes_all 1 meta false zero_cursor ls) loop_done)
        (sym (
          printed_log_read_back parse_t 9 split_lines (entry ∷ entry ∷ []) (4 ∷ 1 ∷ [])
            (omega arith) (omega arith) (plain, (plain, tt))))
        their_acts)
      (inr at_the_end)
