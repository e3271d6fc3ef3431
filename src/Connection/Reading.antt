-- ===== src/Connection/Reading.antt =====
-- That the two goroutines of a connection do what the loop does on a list of events.
use k8spodlogreceiver.Prelude.{
  ℕ, ◌≡◌, refl, ap, ◌⊎◌, Bool, List, [], ◌∷◌, ◌++◌, arith, if◌then◌else◌, bytes_eq,
}
use k8spodlogreceiver.Connection.Rounds.{lines_of}
use k8spodlogreceiver.Connection.{
  at_eof, Instant, pipeline_refused, Status, running, Line, read_failed, Conn, append_kept, step,
  loop, closed, Meta, Consumed, line, Batch, Event, tick,
}

-- The channel's end is not among the events.
abbrev pub NoEnd : List Event → Type 0
NoEnd [] = Unit
NoEnd (line l now ∷ es) = NoEnd es
NoEnd (closed failed ∷ es) = ⊥
NoEnd (tick ∷ es) = NoEnd es

pub NoEnd-append : (es fs : List Event) → NoEnd es → NoEnd fs → NoEnd (es ++ fs)
NoEnd-append [] fs h k = k
NoEnd-append (line l now ∷ es) fs h k = NoEnd-append es fs h k
NoEnd-append (closed failed ∷ es) fs h k = absurd h
NoEnd-append (tick ∷ es) fs h k = NoEnd-append es fs h k

pub lines_of-append :
    (es fs : List Event) → NoEnd es → lines_of (es ++ fs) ≡ lines_of es ++ lines_of fs
lines_of-append [] fs h = refl
lines_of-append (line l now ∷ es) fs h = ap (◌∷◌ l) (lines_of-append es fs h)
lines_of-append (closed failed ∷ es) fs h = absurd h
lines_of-append (tick ∷ es) fs h = lines_of-append es fs h

module _ (pipeline : ℕ → Batch → Consumed) (max_batch : ℕ) (m : Meta) where
  pub loop-one :
      (s : Conn) (e : Event) → loop pipeline max_batch m s (e ∷ []) ≡ step pipeline max_batch m s e
  unfolding loop
  loop-one s e = go (step pipeline max_batch m s e)
    where
      go :
          (r : Conn × Status)
          → elim r.1 [
            | running ↦ loop pipeline max_batch m r.0 []
            | pipeline_refused ↦ (r.0, pipeline_refused)
            | read_failed ↦ (r.0, read_failed)
            | at_eof ↦ (r.0, at_eof)
          ]
            ≡ r
      go (s', running) = refl
      go (s', pipeline_refused) = refl
      go (s', read_failed) = refl
      go (s', at_eof) = refl

  -- One more round of a loop that runs.
  pub loop-snoc :
      (es : List Event) (s : Conn) (e : Event)
      → (loop pipeline max_batch m s es).1 ≡ running
      → loop pipeline max_batch m s (es ++ e ∷ [])
        ≡ step pipeline max_batch m (loop pipeline max_batch m s es).0 e
  unfolding loop
  loop-snoc [] s e h = loop-one s e
  loop-snoc (f ∷ es) s e h =
      go (loop-snoc es (step pipeline max_batch m s f).0 e) (step pipeline max_batch m s f).1 refl h
    where
      s' : Conn
      s' = (step pipeline max_batch m s f).0

      go :
          ((loop pipeline max_batch m s' es).1 ≡ running
            → loop pipeline max_batch m s' (es ++ e ∷ [])
              ≡ step pipeline max_batch m (loop pipeline max_batch m s' es).0 e)
          → (st : Status) → (step pipeline max_batch m s f).1 ≡ st
          → (loop pipeline max_batch m s (f ∷ es)).1 ≡ running
          → loop pipeline max_batch m s (f ∷ (es ++ e ∷ []))
            ≡ step pipeline max_batch m (loop pipeline max_batch m s (f ∷ es)).0 e
      go rec running x = rw (x, loop) rec
      go rec pipeline_refused x = rw (x, loop) (λ k. absurd (ground (arith, k)))
      go rec read_failed x = rw (x, loop) (λ k. absurd (ground (arith, k)))
      go rec at_eof x = rw (x, loop) (λ k. absurd (ground (arith, k)))

  pub step-line_status :
      (s : Conn) (l : Line) (now : Instant)
      → ((step pipeline max_batch m s (line l now)).1 ≡ running)
        ⊎ ((step pipeline max_batch m s (line l now)).1 ≡ pipeline_refused)
  unfolding step append_kept
  step-line_status s l now = ground arith

  pub step-tick_status :
      (s : Conn)
      → ((step pipeline max_batch m s tick).1 ≡ running)
        ⊎ ((step pipeline max_batch m s tick).1 ≡ pipeline_refused)
  unfolding step
  step-tick_status s = ground arith

  pub step-closed_status :
      (s : Conn) (failed : Bool)
      → ((step pipeline max_batch m s (closed failed)).1 ≡ (if failed then read_failed else at_eof))
        ⊎ ((step pipeline max_batch m s (closed failed)).1 ≡ pipeline_refused)
  unfolding step
  step-closed_status s failed = ground arith
