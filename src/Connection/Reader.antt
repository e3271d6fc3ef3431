-- ===== src/Connection/Reader.antt =====
-- receiver.go: the two goroutines of streamConnection: the reader, which sends the scanner's lines on a
-- channel of batchSize() places and closes it, and the loop, whose `select` takes from the channel or
-- from the ticker. `lines` is all that the scanner yields, `failed` whether Err then returns an error.
use k8spodlogreceiver.Prelude.{
  ℕ, ◌+◌, ◌*◌, ◌<◌, ◌≡◌, ◌≢◌, Bool, true, false, List, [], ◌∷◌, ◌++◌, if◌then◌else◌, length,
  bytes_eq,
}
use k8spodlogreceiver.Connection.{
  closed, at_eof, line, step, read_failed, Instant, Cursor, pipeline_refused, running,
  open_connection, Status, Meta, Consumed, Conn, Batch, Line, tick,
}

pub record Pipe : Type 0 where
  pub unread : List Line  -- what the scanner has still to yield
  pub line_ch : List Line
  pub line_ch_closed : Bool
  pub conn : Conn
  pub status : Status

module _ (pipeline : ℕ → Batch → Consumed) (max_batch : ℕ) (m : Meta) (failed : Bool) where
  -- The loop's variables after a round.
  abbrev pub with_round : Pipe → Conn × Status → Pipe
  with_round p r = record p { conn = r.0; status = r.1 }

  -- One step of either goroutine.
  pub data Act (p : Pipe) : Pipe → Type 0 where
    reader_sends :
        (l : Line) (ls : List Line)
        → p.line_ch_closed ≡ false
        → p.unread ≡ l ∷ ls
        → length p.line_ch < max_batch
        → Act p (record p { unread = ls; line_ch = p.line_ch ++ l ∷ [] })
    reader_ends :
        p.line_ch_closed ≡ false → p.unread ≡ [] → Act p (record p { line_ch_closed = true })
    reader_stops :
        p.line_ch_closed ≡ false → p.status ≢ running → Act p (record p { line_ch_closed = true })
    receives :
        (l : Line) (ls : List Line) (now : Instant)
        → p.status ≡ running
        → p.line_ch ≡ l ∷ ls
        → Act p
            (with_round (record p { line_ch = ls }) (step pipeline max_batch m p.conn (line l now)))
    sees_end :
        p.status ≡ running
        → p.line_ch ≡ []
        → p.line_ch_closed ≡ true
        → Act p (with_round p (step pipeline max_batch m p.conn (closed failed)))
    ticks : p.status ≡ running → Act p (with_round p (step pipeline max_batch m p.conn tick))

  -- Any number of steps.
  pub data Acts (p : Pipe) : Pipe → Type 0 where
    no_act : Acts p p
    then_acts : {q r : Pipe} → Acts p q → Act q r → Acts p r

  -- As streamConnection starts both.
  unfoldable pub open_pipe : Cursor → List Line → Pipe
  unfolding open_connection
  open_pipe resume lines = record {
    unread = lines;
    line_ch = [];
    line_ch_closed = false;
    conn = open_connection pipeline max_batch m resume;
    status = running;
  }

  -- What is left to do, in steps that are no ticks.
  abbrev pub left_to_do : Pipe → ℕ
  left_to_do p =
      2 * length p.unread
      + length p.line_ch
      + (if p.line_ch_closed then 0 else 1)
      + elim p.status [ running ↦ 1 | pipeline_refused ↦ 0 | read_failed ↦ 0 | at_eof ↦ 0 ]
