-- ===== src/Stream/WaitBounds.antt =====
-- The range of the waits.
use k8spodlogreceiver.Prelude.{
  ℕ, ◌≤◌, ◌<◌, Bool, true, false, ◌||◌, List, [], ◌∷◌, ◌++◌, if◌then◌else◌, All, bytes_eq,
}
use k8spodlogreceiver.Prelude.Int.{ℤ}
use k8spodlogreceiver.Retry.Backoff.{doubling_limit, jitter-IsWait, IsWait, Fair}
use k8spodlogreceiver.Stream.{
  Cursor, Stream, Attempt, connect_failed, connected, Round, lifetime_reached, begin_round, round,
}
use k8spodlogreceiver.Stream.Ladder.{
  sleep_of, past_limit, quiet_after, waits_of, round_quiet, round_waits, expected,
}

All-unless : (P : ℤ → Type 0) (ws : List ℤ) (b : Bool) → All P ws → All P (if b then [] else ws)
All-unless P ws true p = tt
All-unless P ws false p = p

All-then :
    (P : ℤ → Type 0) (xs ys : List ℤ) (b : Bool)
    → All P xs
    → All P ys
    → All P (xs ++ (if b then ys else []))
All-then P [] ys true h k = k
All-then P [] ys false h k = tt
All-then P (x ∷ xs) ys b h k = (h.0, All-then P xs ys b h.1 k)

module _ (i m : ℕ) (le : i ≤ m) (fits : m < doubling_limit) where
  IsWait-attempt :
      (k : ℕ) (s : Stream) (c : Cursor) (a : Attempt)
      → Fair (sleep_of a).draw
      → All (IsWait i m) (waits_of i m k s c a)
  IsWait-attempt k s c (connect_failed cancelled deadline now later sleep) f =
      All-unless (IsWait i m) _ (lifetime_reached s cancelled deadline || past_limit s now later)
        (jitter-IsWait i m k sleep.draw le fits f, tt)
  IsWait-attempt k s c (connected pipeline es cancelled deadline terminal d sleep) f =
      All-unless (IsWait i m) _ (terminal || lifetime_reached s cancelled deadline) (
        jitter-IsWait i m
            (quiet_after k s c (connected pipeline es cancelled deadline terminal d sleep))
            sleep.draw le fits f,
        tt,
      )

  IsWait-round :
      (k : ℕ) (s : Stream) (r : Round)
      → Fair (sleep_of r.attempt).draw
      → All (IsWait i m) (round_waits i m k s r)
  IsWait-round k s r f =
      All-unless (IsWait i m) _ r.stopped
        (IsWait-attempt k (begin_round s r.restart_count) (round s r).0.resume r.attempt f)

  pub IsWait-rounds :
      (is : List Round) (k : ℕ) (s : Stream)
      → All (λ r. Fair (sleep_of r.attempt).draw) is
      → All (IsWait i m) (expected i m k s is)
  IsWait-rounds [] k s f = tt
  IsWait-rounds (r ∷ is) k s f =
      All-then (IsWait i m) (round_waits i m k s r) _ (round s r).1 (IsWait-round k s r f.0)
        (IsWait-rounds is (round_quiet k s r) (round s r).0 f.1)
