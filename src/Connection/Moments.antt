-- ===== src/Connection/Moments.antt =====
-- When a connection reports what.
use k8spodlogreceiver.Connection.Reading.{loop-one}
use k8spodlogreceiver.Prelude.{
  ℕ, ◌≡◌, refl, ap, inl, inr, not, ◌&&◌, List, [], ◌∷◌, ◌++◌, leb, ◌==◌, Bool-cases, All, bytes_eq,
}
use mathlib.Core.Path.{subst}
use k8spodlogreceiver.Connection.{
  tick, at_eof, read_failed, pipeline_refused, closed, Instant, is_refused, running, keep, Status,
  Outcome, Line, line, open_connection, append_line, Event, Conn, flush, flushed, step,
  stream_connection, loop, append_kept, Cursor, Meta, Consumed,
}
use k8spodlogreceiver.Logline.Batch.{Batch}

-- Every report of a connection is what `delivered` holds at some moment: a predicate that holds of
-- `delivered` whenever the connection has received a part of the events holds of each report.
module _ (pipeline : ℕ → Batch → Consumed) (max_batch : ℕ) (m : Meta) (P : Cursor → Type 0) where
  All-snoc : (cs : List Cursor) (c : Cursor) → All P cs → P c → All P (cs ++ c ∷ [])
  All-snoc [] c h p = (p, tt)
  All-snoc (d ∷ cs) c h p = (h.0, All-snoc cs c h.1 p)

  progress-flushed :
      (s : Conn) (o : Outcome)
      → All P s.progress
      → P (flushed pipeline max_batch m s o).1.delivered
      → All P (flushed pipeline max_batch m s o).1.progress
  unfolding flushed
  progress-flushed s o h p = elim (Bool-cases (not (is_refused o) && s.batch_advanced)) [
    | inl e ↦ rw e (All-snoc s.progress s.pending h (rw e at p))
    | inr e ↦ rw e h
  ]

  progress-flush :
      (s : Conn)
      → All P s.progress
      → P (flush pipeline max_batch m s).1.delivered
      → All P (flush pipeline max_batch m s).1.progress
  unfolding flush
  progress-flush s h = elim (Bool-cases (s.batch.count == 0)) [
    | inl e ↦ rw (e, flush) (λ p. h)
    | inr e ↦ rw (e, flush) (progress-flushed s _ h)
  ]

  progress-append_kept :
      (s : Conn) (l : Line) (now : Instant)
      → All P s.progress
      → P (append_kept pipeline max_batch m s l now).0.delivered
      → All P (append_kept pipeline max_batch m s l now).0.progress
  unfolding append_kept append_line
  progress-append_kept s l now h =
      elim (Bool-cases (leb max_batch (append_line pipeline max_batch m s l now).batch.count)) [
        | inl e ↦ rw (e, append_kept) (progress-flush (append_line pipeline max_batch m s l now) h)
        | inr e ↦ rw (e, append_kept) (λ p. h)
      ]

  progress-step :
      (s : Conn) (e : Event)
      → All P s.progress
      → P (step pipeline max_batch m s e).0.delivered
      → All P (step pipeline max_batch m s e).0.progress
  unfolding step
  progress-step s (line l now) h = elim (Bool-cases (keep s.filter l.timestamp).0) [
    | inl k ↦
        rw (k, step)
          (progress-append_kept (record s { filter = (keep s.filter l.timestamp).1 }) l now h)
    | inr k ↦ rw (k, step) (λ p. h)
  ]
  progress-step s (closed failed) h = progress-flush s h
  progress-step s tick h = progress-flush s h

  progress-loop :
      (es : List Event) (s : Conn)
      → ((before later : List Event)
          → before ++ later ≡ es
          → P (loop pipeline max_batch m s before).0.delivered)
      → All P s.progress
      → All P (loop pipeline max_batch m s es).0.progress
  unfolding loop
  progress-loop [] s p h = h
  progress-loop (e ∷ es) s p h =
      go
        (λ x.
          progress-loop es (step pipeline max_batch m s e).0
            (λ before later q. rw (x, loop) at (p (e ∷ before) later (ap (◌∷◌ e) q))) h')
        (step pipeline max_batch m s e).1 refl
    where
      h' : All P (step pipeline max_batch m s e).0.progress
      h' = progress-step s e h (
          subst (λ t. P t.delivered) (ap (λ r. r.0) (loop-one pipeline max_batch m s e))
            (p (e ∷ []) es refl))

      go :
          ((step pipeline max_batch m s e).1 ≡ running
            → All P (loop pipeline max_batch m (step pipeline max_batch m s e).0 es).0.progress)
          → (st : Status) → (step pipeline max_batch m s e).1 ≡ st
          → All P (loop pipeline max_batch m s (e ∷ es)).0.progress
      go rec running x = rw (x, loop) (rec x)
      go rec pipeline_refused x = rw (x, loop) h'
      go rec read_failed x = rw (x, loop) h'
      go rec at_eof x = rw (x, loop) h'

  pub progress-stream_connection :
      (resume : Cursor) (es : List Event)
      → ((before later : List Event)
          → before ++ later ≡ es
          → P (stream_connection pipeline max_batch m resume before).0.delivered)
      → All P (stream_connection pipeline max_batch m resume es).0.progress
  unfolding stream_connection open_connection
  progress-stream_connection resume es p =
      progress-loop es (open_connection pipeline max_batch m resume) p tt
