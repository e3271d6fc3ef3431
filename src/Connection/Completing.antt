-- ===== src/Connection/Completing.antt =====
-- A connection that the pipeline never refuses a batch of brings in all that it keeps.
use k8spodlogreceiver.Prelude.{
  ℕ, ◌≡◌, refl, ◌⊎◌, inl, inr, Bool, true, false, List, [], ◌∷◌, map, arith, if◌then◌else◌, length,
  bytes_eq,
}
use k8spodlogreceiver.Connection.Delivery.{stream_connection-Ends}
use k8spodlogreceiver.Cursor.Filter.{keep_all}
use k8spodlogreceiver.Connection.Rounds.{lines_of, Ends}
use k8spodlogreceiver.Connection.Tracks.{body_of, accepted_bodies}
use k8spodlogreceiver.Connection.{tick}
use k8spodlogreceiver.Connection.{
  open_connection, new_filter, pipeline_refused, keep, Instant, stream_connection, Line, running,
  at_eof, append_line, flushed, Conn, read_failed, consume_batch, append_kept, Cursor, loop, Status,
  step, flush, is_refused, closed, Meta, Consumed, line, Event,
}
use k8spodlogreceiver.Logline.Batch.{Batch}

-- The pipeline takes every batch, or drops it for good.
abbrev pub Willing : (ℕ → Batch → Consumed) → Type 0
Willing pipeline = (n : ℕ) (b : Batch) → is_refused (consume_batch (pipeline n b)) ≡ false

-- The channel's end is among the events.
abbrev pub Closes : List Event → Type 0
Closes [] = ⊥
Closes (line l now ∷ es) = Closes es
Closes (closed failed ∷ es) = Unit
Closes (tick ∷ es) = Closes es

module _ (pipeline : ℕ → Batch → Consumed) (willing : Willing pipeline) (max_batch : ℕ)
    (m : Meta) where
  flush_willing : (s : Conn) → (flush pipeline max_batch m s).0 ≡ true
  unfolding flush flushed
  flush_willing s = ground (arith, willing (length s.sent) s.batch)

  append_kept_willing :
      (s : Conn) (l : Line) (now : Instant) → (append_kept pipeline max_batch m s l now).1 ≡ running
  unfolding append_kept append_line
  append_kept_willing s l now =
      ground (arith, flush_willing (append_line pipeline max_batch m s l now))

  step-line_willing :
      (s : Conn) (l : Line) (now : Instant) → (step pipeline max_batch m s (line l now)).1 ≡ running
  unfolding step
  step-line_willing s l now =
      ground
        (arith, append_kept_willing (record s { filter = (keep s.filter l.timestamp).1 }) l now)

  step-tick_willing : (s : Conn) → (step pipeline max_batch m s tick).1 ≡ running
  unfolding step
  step-tick_willing s = ground (arith, flush_willing s)

  step-closed_willing :
      (s : Conn) (failed : Bool)
      → (step pipeline max_batch m s (closed failed)).1 ≡ (if failed then read_failed else at_eof)
  unfolding step
  step-closed_willing s failed = ground (arith, flush_willing s)

  -- The loop runs to the channel's end.
  AtEnd : Status → Type 0
  AtEnd st = (st ≡ read_failed) ⊎ (st ≡ at_eof)

  loop_willing : (es : List Event) (s : Conn) → Closes es → AtEnd (loop pipeline max_batch m s es).1
  unfolding loop AtEnd
  loop_willing [] s h = absurd h
  loop_willing (line l now ∷ es) s h =
      rw (step-line_willing s l now, loop)
        (loop_willing es (step pipeline max_batch m s (line l now)).0 h)
  loop_willing (tick ∷ es) s h =
      rw (step-tick_willing s, loop) (loop_willing es (step pipeline max_batch m s tick).0 h)
  loop_willing (closed true ∷ es) s h = rw (step-closed_willing s true, loop) (inl refl)
  loop_willing (closed false ∷ es) s h = rw (step-closed_willing s false, loop) (inr refl)

  Ends-AtEnd :
      (resume : Cursor) (s : Conn) (st : Status) (total : List Line)
      → AtEnd st
      → Ends resume s st total
      → accepted_bodies s.sent ≡ map body_of total
  unfolding AtEnd
  Ends-AtEnd resume s running total (inl h) e = absurd (ground (arith, h))
  Ends-AtEnd resume s running total (inr h) e = absurd (ground (arith, h))
  Ends-AtEnd resume s pipeline_refused total (inl h) e = absurd (ground (arith, h))
  Ends-AtEnd resume s pipeline_refused total (inr h) e = absurd (ground (arith, h))
  Ends-AtEnd resume s read_failed total h e = e.accepted_are
  Ends-AtEnd resume s at_eof total h e = e.accepted_are

  pub stream_connection_complete :
      (resume : Cursor) (es : List Event)
      → Closes es
      → accepted_bodies (stream_connection pipeline max_batch m resume es).0.sent
        ≡ map body_of (keep_all (new_filter resume) (lines_of es))
  stream_connection_complete resume es h =
      Ends-AtEnd resume _ (stream_connection pipeline max_batch m resume es).1 _
        (unfold stream_connection in
          loop_willing es (open_connection pipeline max_batch m resume) h)
        (stream_connection-Ends pipeline max_batch m resume es)
