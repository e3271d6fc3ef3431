-- ===== src/Stream/Waits.antt =====
-- The waits before the reconnects, and what the loop keeps of its backoff.
use k8spodlogreceiver.Prelude.{
  ℕ, suc, ◌≤◌, ◌<◌, ◌≡◌, sym, ap, ◌∙◌, inl, inr, Bool, true, false, not, ◌&&◌, ◌||◌, List, [], ◌∷◌,
  ◌++◌, arith, if◌then◌else◌, Bool-cases, All, bytes_eq,
}
use mathlib.Core.Path.{ap₂}
use mathlib.Core.List.{append-nil, append_assoc}
use k8spodlogreceiver.Prelude.Int.{ℤ, pos, half}
use k8spodlogreceiver.Retry.{next_backoff, jitter}
use k8spodlogreceiver.Retry.Backoff.{doubling_limit, rung, rung_next, rung_zero, IsWait, Fair}
use k8spodlogreceiver.Stream.WaitBounds.{IsWait-rounds}
use k8spodlogreceiver.Stream.Ladder.{
  sleep_of, past_limit, quiet_after, waits_of, round_quiet, round_waits, expected, follow_keeps,
  begin_keeps, same_cfg-attempt, same_cfg-round,
}
use k8spodlogreceiver.Stream.{
  after, Instant, run, Stream, BackoffConfig, Attempt, connect_failed, connected, Round, Sleep,
  lifetime_reached, begin_round, retry_after_connect_error, follow, after_follow, attempt_once,
  round, rounds,
}

-- What the backoff is, and which waits there were.
record Ladder (i m k : ℕ) (s : Stream) : Type 0 where
  initial_is : s.backoff_cfg.initial_interval ≡ pos i
  max_is : s.backoff_cfg.max_interval ≡ pos m
  backoff_is : s.backoff ≡ pos (rung i m k)

-- What an attempt does to them.
record Climbs (i m k : ℕ) (s : Stream) (a : Attempt) (r : Stream × Bool) : Type 0 where
  same_cfg : r.0.backoff_cfg ≡ s.backoff_cfg
  backoff_is : r.1 ≡ true → r.0.backoff ≡ pos (rung i m (quiet_after k s r.0.resume a))
  waits_are : r.0.waits ≡ s.waits ++ waits_of i m k s r.0.resume a

module _ (i m : ℕ) (le : i ≤ m) (fits : m < doubling_limit) where
  Climbs-retry :
      (k : ℕ) (s : Stream) (now later : Instant) (sleep : Sleep)
      → Ladder i m k s
      → let r = retry_after_connect_error s now later sleep in
        (r.1 ≡ true → r.0.backoff ≡ pos (rung i m (suc k)))
        × (r.0.waits
            ≡ s.waits
              ++ (if past_limit s now later
                  then []
                  else jitter (pos (rung i m k)) (sleep.draw (half (pos (rung i m k)))) ∷ []))
  unfolding retry_after_connect_error
  Climbs-retry k s now later sleep l = (
    λ h. ground (arith, h, l.backoff_is, l.max_is, rung_next i m k fits),
    ground (arith, l.backoff_is, append-nil s.waits),
  )

  climbed :
      (k : ℕ) (s t : Stream) (recycled moved : Bool)
      → Ladder i m k s
      → t.backoff_cfg ≡ s.backoff_cfg
      → t.backoff ≡ s.backoff
      → (if moved
          then t.backoff_cfg.initial_interval
          else if not recycled
          then next_backoff t.backoff t.backoff_cfg.max_interval
          else t.backoff)
        ≡ pos (rung i m (if moved then 0 else if recycled then k else suc k))
  climbed k s t recycled true l c b =
      ap (λ (k : BackoffConfig). k.initial_interval) c
      ∙ l.initial_is
      ∙ ap pos (sym (rung_zero i m le))
  climbed k s t true false l c b = b ∙ l.backoff_is
  climbed k s t false false l c b =
      ap₂ next_backoff (b ∙ l.backoff_is) (ap (λ (k : BackoffConfig). k.max_interval) c ∙ l.max_is)
      ∙ rung_next i m k fits

  Climbs-after_follow :
      (k : ℕ) (s : Stream) (recycled terminal : Bool) (sleep : Sleep) (t : Stream) (go : Bool)
      → Ladder i m k s
      → t.backoff_cfg ≡ s.backoff_cfg
      → t.backoff ≡ s.backoff
      → t.waits ≡ s.waits
      → go ≡ not terminal
      → let r = after_follow s.resume recycled sleep (t, go) in
        let q = if after r.0.resume s.resume then 0 else if recycled then k else suc k in
        (r.0.backoff ≡ pos (rung i m q))
        × (r.0.waits
            ≡ s.waits
              ++ (if terminal || recycled
                  then []
                  else jitter (pos (rung i m q)) (sleep.draw (half (pos (rung i m q)))) ∷ []))
  unfolding after_follow
  Climbs-after_follow k s recycled terminal sleep t go l c b w g =
      let e = climbed k s t recycled (after t.resume s.resume) l c b in
      elim (Bool-cases (go && not recycled)) [
        | inl h ↦ (e, ground (arith, h, e, w, g))
        | inr h ↦ (e, ground (arith, h, w, g, append-nil s.waits))
      ]

  Climbs-attempt :
      (k : ℕ) (s : Stream) (a : Attempt) → Ladder i m k s → Climbs i m k s a (attempt_once s a)
  unfolding attempt_once
  Climbs-attempt k s (connect_failed cancelled deadline now later sleep) l =
      let r = Climbs-retry k s now later sleep l in
      elim (Bool-cases (lifetime_reached s cancelled deadline)) [
        | inl e ↦ record {
          same_cfg = same_cfg-attempt s (connect_failed cancelled deadline now later sleep);
          backoff_is = λ h. ground (arith, e, l.backoff_is);
          waits_are = ground (arith, e, append-nil s.waits);
        }
        | inr e ↦ record {
          same_cfg = same_cfg-attempt s (connect_failed cancelled deadline now later sleep);
          backoff_is = rw (e, attempt_once) r.0;
          waits_are = rw (e, attempt_once) r.1;
        }
      ]
  Climbs-attempt k s (connected pipeline es cancelled deadline terminal d sleep) l =
      let f = follow_keeps s pipeline es terminal d in
      let r =
        Climbs-after_follow k s (lifetime_reached s cancelled deadline) terminal sleep
          (follow s pipeline es terminal d).0 (follow s pipeline es terminal d).1 l f.0 f.1 f.2
          f.3 in
      record {
        same_cfg = same_cfg-attempt s (connected pipeline es cancelled deadline terminal d sleep);
        backoff_is = λ h. r.0;
        waits_are = r.1;
      }

  Ladder-begin : (k : ℕ) (s : Stream) (n : ℤ) → Ladder i m k s → Ladder i m k (begin_round s n)
  Ladder-begin k s n l = record {
    initial_is = ap (λ (c : BackoffConfig). c.initial_interval) (begin_keeps s n).0 ∙ l.initial_is;
    max_is = ap (λ (c : BackoffConfig). c.max_interval) (begin_keeps s n).0 ∙ l.max_is;
    backoff_is = (begin_keeps s n).1 ∙ l.backoff_is;
  }

  Ladder-round :
      (k : ℕ) (s : Stream) (r : Round)
      → Ladder i m k s
      → (round s r).1 ≡ true
      → Ladder i m (round_quiet k s r) (round s r).0
  unfolding round
  Ladder-round k s r l h = elim (Bool-cases r.stopped) [
    | inl e ↦ absurd (ground (arith, h, e))
    | inr e ↦
        let x = Climbs-attempt k _ r.attempt (Ladder-begin k s r.restart_count l) in
        record {
          initial_is =
              ap (λ (c : BackoffConfig). c.initial_interval) (same_cfg-round s r) ∙ l.initial_is;
          max_is = ap (λ (c : BackoffConfig). c.max_interval) (same_cfg-round s r) ∙ l.max_is;
          backoff_is = rw e (x.backoff_is (ground (arith, h, e)));
        }
  ]

  waits-round :
      (k : ℕ) (s : Stream) (r : Round)
      → Ladder i m k s
      → (round s r).0.waits ≡ s.waits ++ round_waits i m k s r
  unfolding round
  waits-round k s r l = elim (Bool-cases r.stopped) [
    | inl e ↦ rw e (sym (append-nil s.waits))
    | inr e ↦
        let u = begin_round s r.restart_count in
        let x = Climbs-attempt k u r.attempt (Ladder-begin k s r.restart_count l) in
        rw e (
          x.waits_are
          ∙ ap (λ ws. ws ++ waits_of i m k u (attempt_once u r.attempt).0.resume r.attempt)
              (begin_keeps s r.restart_count).2)
  ]

  waits-rounds :
      (is : List Round) (k : ℕ) (s : Stream)
      → Ladder i m k s
      → (rounds s is).0.waits ≡ s.waits ++ expected i m k s is
  unfolding rounds
  waits-rounds [] k s l = sym (append-nil s.waits)
  waits-rounds (r ∷ is) k s l = elim (Bool-cases (round s r).1) [
    | inl e ↦
        rw (e, rounds)
          (waits-rounds is (round_quiet k s r) (round s r).0 (Ladder-round k s r l e)
            ∙ ap (λ xs. xs ++ expected i m (round_quiet k s r) (round s r).0 is)
                (waits-round k s r l)
            ∙ append_assoc s.waits (round_waits i m k s r) _)
    | inr e ↦
        rw (e, rounds)
          (waits-round k s r l
            ∙ ap (λ xs. s.waits ++ xs) (sym (append-nil (round_waits i m k s r))))
  ]

-- With an initial wait not above the maximum, a maximum below 2^62 ns, and draws in the range that
-- rand.Int64N documents: whatever the rounds of a run meet, the waits that it calls SleepOrDone with
-- are, one for one, jittered rungs of a ladder: the initial interval, doubled for each attempt since the
-- run began or the position last moved, and cut to the maximum. A failed connect waits on the rung
-- before it is counted itself, a connection that left the position where it was on the one behind it, and
-- one that moved it on the first. An attempt that its connection's lifetime ended is not counted and
-- waits for nothing; nor does the stream wait that gives up, or whose container is terminal. Every
-- wait is at least half the initial interval, and at most the maximum.
pub run-Waits :
    (i m : ℕ) (s : Stream) (is : List Round)
    → i ≤ m
    → m < doubling_limit
    → s.backoff_cfg.initial_interval ≡ pos i
    → s.backoff_cfg.max_interval ≡ pos m
    → All (λ r. Fair (sleep_of r.attempt).draw) is
    → let t = record s { backoff = s.backoff_cfg.initial_interval } in
      ((run s is).0.waits ≡ s.waits ++ expected i m 0 t is) × All (IsWait i m) (expected i m 0 t is)
unfolding run
run-Waits i m s is h l p q f =
    let t = record s { backoff = s.backoff_cfg.initial_interval } in
    (
      waits-rounds i m h l is 0 t
          (record { initial_is = p; max_is = q; backoff_is = p ∙ ap pos (sym (rung_zero i m h)) }),
      IsWait-rounds i m h l is 0 t f,
    )
