-- ===== src/Connection/Ending.antt =====
-- That the goroutines of a connection neither wait for each other for ever nor go on for ever.
use k8spodlogreceiver.Prelude.{
  ℕ, ◌+◌, ◌*◌, ◌≤◌, ◌<◌, ◌≡◌, refl, ap, ◌≢◌, ◌⊎◌, inl, inr, Bool, true, List, [], ◌∷◌, arith,
  Bool-cases, length, length-append, bytes_eq,
}
use k8spodlogreceiver.Connection.{
  at_eof, read_failed, pipeline_refused, Cursor, Line, running, Status, Meta, Consumed, Batch,
}
use k8spodlogreceiver.Connection.Reading.{step-line_status, step-tick_status, step-closed_status}
use k8spodlogreceiver.Connection.Reader.{
  no_act, then_acts, Acts, open_pipe, Pipe, Act, reader_sends, reader_ends, reader_stops, receives,
  sees_end, ticks, left_to_do,
}

module _ (pipeline : ℕ → Batch → Consumed) (max_batch : ℕ) (m : Meta) (failed : Bool) where
  -- The steps taken that are no ticks.
  abbrev work : {p q : Pipe} → Act pipeline max_batch m failed p q → ℕ
  work (reader_sends l ls c u r) = 1
  work (reader_ends c u) = 1
  work (reader_stops c s) = 1
  work (receives l ls now s c) = 1
  work (sees_end s c d) = 1
  work (ticks s) = 0

  abbrev pub done_in : {p q : Pipe} → Acts pipeline max_batch m failed p q → ℕ
  done_in no_act = 0
  done_in (then_acts acts a) = work a + done_in acts

  work-Act :
      {p q : Pipe} (a : Act pipeline max_batch m failed p q)
      → work a + left_to_do pipeline max_batch m failed q ≤ left_to_do pipeline max_batch m failed p
  work-Act {p} (reader_sends l ls c u r) =
      omega (arith, ap length u, length-append p.line_ch (l ∷ []))
  work-Act (reader_ends c u) = ground (arith, c)
  work-Act (reader_stops c s) = ground (arith, c)
  work-Act {p} (receives l ls now s c) =
      ground (arith, s, ap length c, step-line_status pipeline max_batch m p.conn l now)
  work-Act {p} (sees_end s c d) =
      ground (arith, s, step-closed_status pipeline max_batch m p.conn failed)
  work-Act {p} (ticks s) = ground (arith, s, step-tick_status pipeline max_batch m p.conn)

  done_in-Acts :
      {p q : Pipe} (acts : Acts pipeline max_batch m failed p q)
      → done_in acts + left_to_do pipeline max_batch m failed q
        ≤ left_to_do pipeline max_batch m failed p
  done_in-Acts no_act = omega arith
  done_in-Acts (then_acts acts a) = omega (arith, work-Act a, done_in-Acts acts)

  -- The loop has returned and the reader has closed the channel.
  abbrev pub BothEnded : Pipe → Type 0
  BothEnded p = (p.status ≢ running) × (p.line_ch_closed ≡ true)

  -- One of the goroutines can do a step that is no tick.
  abbrev pub CanGoOn : Pipe → Type 0
  CanGoOn p = (q : Pipe) × (a : Act pipeline max_batch m failed p q) × (work a ≡ 1)

  running_or : (st : Status) → (st ≡ running) ⊎ (st ≢ running)
  running_or running = inl refl
  running_or pipeline_refused = inr (λ e. absurd (ground (arith, e)))
  running_or read_failed = inr (λ e. absurd (ground (arith, e)))
  running_or at_eof = inr (λ e. absurd (ground (arith, e)))

  list_cases : (xs : List Line) → (xs ≡ []) ⊎ ((x : Line) × (ys : List Line) × (xs ≡ x ∷ ys))
  list_cases [] = inl refl
  list_cases (x ∷ xs) = inr (x, xs, refl)

  CanGoOn-running : (p : Pipe) → 0 < max_batch → p.status ≡ running → CanGoOn p
  CanGoOn-running p z s = elim (list_cases p.line_ch) [
    | inr (l, ls, c) ↦ (_, receives l ls 0 s c, refl)
    | inl c ↦ elim (Bool-cases p.line_ch_closed) [
      | inl d ↦ (_, sees_end s c d, refl)
      | inr d ↦ elim (list_cases p.unread) [
        | inl u ↦ (_, reader_ends d u, refl)
        | inr (l, ls, u) ↦ (_, reader_sends l ls d u (omega (arith, z, ap length c)), refl)
      ]
    ]
  ]

  ended_or_CanGoOn : (p : Pipe) → 0 < max_batch → BothEnded p ⊎ CanGoOn p
  ended_or_CanGoOn p z = elim (running_or p.status) [
    | inl s ↦ inr (CanGoOn-running p z s)
    | inr s ↦ elim (Bool-cases p.line_ch_closed) [
      | inl d ↦ inl (s, d)
      | inr d ↦ inr (_, reader_stops d s, refl)
    ]
  ]

  -- A connection whose response body comes to an end after `lines`, with a batch size above zero. In any
  -- interleaving of its reader and its loop, both have ended, or one of them can go on without waiting
  -- for the ticker: neither a full channel nor a return of the loop in the midst of the lines leaves
  -- the reader behind. And besides the ticks they do at most `2 * length lines + 2` steps.
  pub goroutines_end :
      (resume : Cursor) (lines : List Line) (p : Pipe)
      (acts : Acts pipeline max_batch m failed
        (open_pipe pipeline max_batch m failed resume lines)
        p)
      → 0 < max_batch
      → (BothEnded p ⊎ CanGoOn p) × (done_in acts ≤ 2 * length lines + 2)
  unfolding open_pipe
  goroutines_end resume lines p acts z = (ended_or_CanGoOn p z, omega (arith, done_in-Acts acts))
