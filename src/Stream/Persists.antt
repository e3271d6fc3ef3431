-- ===== src/Stream/Persists.antt =====
-- How long a stream keeps trying.
use k8spodlogreceiver.Prelude.{◌≡◌, refl, ap, ◌∙◌, true, false, List, [], ◌∷◌, arith, All, bytes_eq}
use k8spodlogreceiver.Prelude.Int.{ltb_ℤ, pos}
use k8spodlogreceiver.Instant.{Instant}
use k8spodlogreceiver.Stream.{
  Sleep, run, Stream, BackoffConfig, Attempt, connect_failed, connected, Round, begin_round,
  retry_after_connect_error, follow, after_follow, attempt_once, round, rounds,
}
use k8spodlogreceiver.Stream.Ladder.{begin_keeps, same_cfg-round}

-- The stream is not cancelled in the round, and the container is not terminal.
abbrev pub CalmAttempt : Attempt → Type 0
CalmAttempt (connect_failed cancelled deadline now later sleep) = sleep.slept ≡ true
CalmAttempt (connected pipeline es cancelled deadline terminal d sleep) =
    (terminal ≡ false) × (sleep.slept ≡ true)

abbrev pub Calm : Round → Type 0
Calm i = (i.stopped ≡ false) × CalmAttempt i.attempt

goes_on_retry :
    (s : Stream) (now later : Instant) (sleep : Sleep)
    → ltb_ℤ (pos 0) s.backoff_cfg.max_elapsed_time ≡ false
    → sleep.slept ≡ true
    → (retry_after_connect_error s now later sleep).1 ≡ true
unfolding retry_after_connect_error
goes_on_retry s now later sleep h c = ground (arith, h, c)

goes_on_attempt :
    (s : Stream) (a : Attempt)
    → ltb_ℤ (pos 0) s.backoff_cfg.max_elapsed_time ≡ false
    → CalmAttempt a
    → (attempt_once s a).1 ≡ true
unfolding attempt_once
goes_on_attempt s (connect_failed cancelled deadline now later sleep) h c =
    ground (arith, goes_on_retry s now later sleep h c)
goes_on_attempt s (connected pipeline es cancelled deadline terminal d sleep) h c =
    unfold follow after_follow in ground (arith, c.0, c.1)

goes_on_round :
    (s : Stream) (i : Round)
    → ltb_ℤ (pos 0) s.backoff_cfg.max_elapsed_time ≡ false
    → Calm i
    → (round s i).1 ≡ true
unfolding round
goes_on_round s i h c =
    rw (c.0, round)
      (goes_on_attempt (begin_round s i.restart_count) i.attempt
        (ap (λ (k : BackoffConfig). ltb_ℤ (pos 0) k.max_elapsed_time)
            (begin_keeps s i.restart_count).0
          ∙ h)
        c.1)

goes_on_rounds :
    (is : List Round) (s : Stream)
    → ltb_ℤ (pos 0) s.backoff_cfg.max_elapsed_time ≡ false
    → All Calm is
    → (rounds s is).1 ≡ true
unfolding rounds
goes_on_rounds [] s h c = refl
goes_on_rounds (i ∷ is) s h c =
    rw (goes_on_round s i h c.0, rounds)
      (goes_on_rounds is (round s i).0
        (ap (λ (k : BackoffConfig). ltb_ℤ (pos 0) k.max_elapsed_time) (same_cfg-round s i) ∙ h) c.1)

-- With no limit on the time of failing connects (`max_elapsed_time` 0 or less), a stream that is not
-- cancelled never stops while its container is not terminal, however often connects fail, streams
-- break or the pipeline refuses.
pub run_persists :
    (s : Stream) (is : List Round)
    → ltb_ℤ (pos 0) s.backoff_cfg.max_elapsed_time ≡ false
    → All Calm is
    → (run s is).1 ≡ true
unfolding run
run_persists s is h c =
    goes_on_rounds is (record s { backoff = s.backoff_cfg.initial_interval }) h c
