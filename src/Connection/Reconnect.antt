-- ===== src/Connection/Reconnect.antt =====
-- Several connections in a row: the position that one leaves is exact for the next.
use k8spodlogreceiver.Prelude.{
  ℕ, ◌+◌, ◌<◌, ◌≡◌, ap, List, [], ◌++◌, map, arith, length, length-append, bytes_eq,
}
use mathlib.Core.List.{append-nil}
use k8spodlogreceiver.Prelude.Int.{max_int}
use k8spodlogreceiver.Logline.Line.{Line}
use k8spodlogreceiver.Logline.Batch.{Meta, Batch}
use k8spodlogreceiver.Cursor.{Cursor, record_all}
use k8spodlogreceiver.Cursor.Filter.{new_filter, keep_all}
use k8spodlogreceiver.Cursor.Counting.{Stands, Stands-record_all}
use k8spodlogreceiver.Connection.{
  Conn, Consumed, Event, Status, running, pipeline_refused, read_failed, at_eof, stream_connection,
}
use k8spodlogreceiver.Connection.Tracks.{next_resume, accepted_bodies, body_of}
use k8spodlogreceiver.Connection.Rounds.{lines_of, Ends}
use k8spodlogreceiver.Connection.Delivery.{stream_connection-Ends}

-- What a connection has brought into the pipeline: a first part of the kept lines, and the cursor
-- stands after the lines that were read before and these.
pub record Advanced (resume : Cursor) (read kept : List Line) (s : Conn) : Type 0 where
  pub forwarded : List Line
  pub left : List Line
  pub prefix : forwarded ++ left ≡ kept
  pub accepted_are : accepted_bodies s.sent ≡ map body_of forwarded
  pub stands : Stands (next_resume resume s) (read ++ forwarded)

module _ (resume : Cursor) (read : List Line) (stands : Stands resume read) where
  Stands-next :
      (s : Conn) (done rest kept : List Line)
      → done ++ rest ≡ kept
      → length read + length kept < max_int
      → next_resume resume s ≡ record_all resume done
      → Stands (next_resume resume s) (read ++ done)
  Stands-next s done rest kept e h r = rw r (
      Stands-record_all done resume read (omega (arith, ap length e, length-append done rest))
        stands)

  Advanced-Ends :
      (s : Conn) (st : Status) (kept : List Line)
      → length read + length kept < max_int
      → Ends resume s st kept
      → Advanced resume read kept s
  Advanced-Ends s running kept h (done, held, t, e) = record {
    forwarded = done;
    left = held;
    prefix = e;
    accepted_are = t.accepted_are;
    stands = Stands-next s done held kept e h t.resumed;
  }
  Advanced-Ends s pipeline_refused kept h (done, lost, rest, t, e) = record {
    forwarded = done;
    left = lost ++ rest;
    prefix = e;
    accepted_are = t.accepted_are;
    stands = Stands-next s done (lost ++ rest) kept e h t.resumed;
  }
  Advanced-Ends s read_failed kept h t = record {
    forwarded = kept;
    left = [];
    prefix = append-nil kept;
    accepted_are = t.accepted_are;
    stands = Stands-next s kept [] kept (append-nil kept) h t.resumed;
  }
  Advanced-Ends s at_eof kept h t = record {
    forwarded = kept;
    left = [];
    prefix = append-nil kept;
    accepted_are = t.accepted_are;
    stands = Stands-next s kept [] kept (append-nil kept) h t.resumed;
  }

-- A connection that starts from a cursor which stands after the lines `read`, fewer than 2^63 - 1
-- with those that it keeps. However it ends, the batches that the pipeline did not
-- refuse hold, in order, a first part of the kept lines, and the position that the stream takes over
-- stands after exactly the lines `read` and that part.
pub stream_connection-Advanced :
    (pipeline : ℕ → Batch → Consumed) (max_batch : ℕ) (m : Meta) (resume : Cursor)
    (read : List Line) (es : List Event)
    → Stands resume read
    → length read + length (keep_all (new_filter resume) (lines_of es)) < max_int
    → Advanced resume read
        (keep_all (new_filter resume) (lines_of es))
        (stream_connection pipeline max_batch m resume es).0
stream_connection-Advanced pipeline max_batch m resume read es stands h =
    Advanced-Ends resume read stands _ (stream_connection pipeline max_batch m resume es).1 _ h
      (stream_connection-Ends pipeline max_batch m resume es)
