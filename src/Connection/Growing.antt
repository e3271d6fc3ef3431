-- ===== src/Connection/Growing.antt =====
-- A connection takes nothing back that the pipeline has accepted.
use k8spodlogreceiver.Prelude.{
  ℕ, ◌≤◌, ◌≡◌, refl, ap, inl, inr, List, [], ◌∷◌, ◌++◌, arith, leb, ◌==◌, Bool-cases, length,
  length-append, bytes_eq,
}
use k8spodlogreceiver.Connection.Tracks.{accepted_bodies-append, accepted_bodies}
use k8spodlogreceiver.Connection.{
  consume_batch, keep, tick, line, closed, running, pipeline_refused, read_failed, at_eof, Status,
  closed, Instant, line, Cursor, Line, Event, Outcome, Meta, Consumed, Batch, Conn, open_connection,
  flushed, flush, append_line, append_kept, step, loop, stream_connection,
}

abbrev pub accepted_count : Conn → ℕ
accepted_count s = length (accepted_bodies s.sent)

module _ (pipeline : ℕ → Batch → Consumed) (max_batch : ℕ) (m : Meta) where
  count-flushed :
      (s : Conn) (outcome : Outcome)
      → accepted_count s ≤ accepted_count (flushed pipeline max_batch m s outcome).1
  unfolding flushed
  count-flushed s outcome = omega (
    arith,
    ap length (accepted_bodies-append s.sent ((s.batch, outcome) ∷ [])),
    length-append (accepted_bodies s.sent) (accepted_bodies ((s.batch, outcome) ∷ [])),
  )

  count-flush : (s : Conn) → accepted_count s ≤ accepted_count (flush pipeline max_batch m s).1
  unfolding flush
  count-flush s = elim (Bool-cases (s.batch.count == 0)) [
    | inl e ↦ rw (e, flush) (omega arith)
    | inr e ↦ rw (e, flush) (count-flushed s (consume_batch (pipeline (length s.sent) s.batch)))
  ]

  count-append_kept :
      (s : Conn) (l : Line) (now : Instant)
      → accepted_count s ≤ accepted_count (append_kept pipeline max_batch m s l now).0
  unfolding append_kept append_line
  count-append_kept s l now =
      elim (Bool-cases (leb max_batch (append_line pipeline max_batch m s l now).batch.count)) [
        | inl e ↦ rw (e, append_kept) (count-flush (append_line pipeline max_batch m s l now))
        | inr e ↦ rw (e, append_kept) (omega arith)
      ]

  count-step :
      (s : Conn) (e : Event) → accepted_count s ≤ accepted_count (step pipeline max_batch m s e).0
  unfolding step
  count-step s (line l now) = elim (Bool-cases (keep s.filter l.timestamp).0) [
    | inl k ↦
        rw (k, step) (count-append_kept (record s { filter = (keep s.filter l.timestamp).1 }) l now)
    | inr k ↦ rw (k, step) (omega arith)
  ]
  count-step s (closed failed) = count-flush s
  count-step s tick = count-flush s

  count-loop :
      (n : ℕ) (es : List Event) (s : Conn)
      → n ≤ accepted_count s
      → n ≤ accepted_count (loop pipeline max_batch m s es).0
  unfolding loop
  count-loop n [] s h = h
  count-loop n (e ∷ es) s h =
      go (count-loop n es (step pipeline max_batch m s e).0 h') (step pipeline max_batch m s e).1
        refl
    where
      h' : n ≤ accepted_count (step pipeline max_batch m s e).0
      h' = omega (arith, h, count-step s e)

      go :
          n ≤ accepted_count (loop pipeline max_batch m (step pipeline max_batch m s e).0 es).0
          → (st : Status) → (step pipeline max_batch m s e).1 ≡ st
          → n ≤ accepted_count (loop pipeline max_batch m s (e ∷ es)).0
      go rec running x = rw (x, loop) rec
      go rec pipeline_refused x = rw (x, loop) h'
      go rec read_failed x = rw (x, loop) h'
      go rec at_eof x = rw (x, loop) h'

  count-loop_append :
      (es later : List Event) (s : Conn)
      → accepted_count (loop pipeline max_batch m s es).0
        ≤ accepted_count (loop pipeline max_batch m s (es ++ later)).0
  unfolding loop
  count-loop_append [] later s = count-loop (accepted_count s) later s (omega arith)
  count-loop_append (e ∷ es) later s =
      go (count-loop_append es later (step pipeline max_batch m s e).0)
        (step pipeline max_batch m s e).1 refl
    where
      go :
          accepted_count (loop pipeline max_batch m (step pipeline max_batch m s e).0 es).0
            ≤ accepted_count
                (loop pipeline max_batch m (step pipeline max_batch m s e).0 (es ++ later)).0
          → (st : Status) → (step pipeline max_batch m s e).1 ≡ st
          → accepted_count (loop pipeline max_batch m s (e ∷ es)).0
            ≤ accepted_count (loop pipeline max_batch m s (e ∷ (es ++ later))).0
      go rec running x = rw (x, loop) rec
      go rec pipeline_refused x = rw (x, loop) (omega arith)
      go rec read_failed x = rw (x, loop) (omega arith)
      go rec at_eof x = rw (x, loop) (omega arith)

  -- More events bring in more.
  pub count-stream_connection :
      (resume : Cursor) (es later : List Event)
      → accepted_count (stream_connection pipeline max_batch m resume es).0
        ≤ accepted_count (stream_connection pipeline max_batch m resume (es ++ later)).0
  unfolding stream_connection
  count-stream_connection resume es later =
      count-loop_append es later (open_connection pipeline max_batch m resume)
