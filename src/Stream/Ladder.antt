-- ===== src/Stream/Ladder.antt =====
-- Which waits a run is to sleep, told by its attempts without a new line, and what a round keeps.
use k8spodlogreceiver.Prelude.{
  ℕ, suc, ◌-◌, ◌≡◌, refl, ◌∙◌, Bool, true, false, not, ◌&&◌, ◌||◌, List, [], ◌∷◌, ◌++◌, arith,
  if◌then◌else◌, bytes_eq,
}
use k8spodlogreceiver.Prelude.Int.{ℤ, pos, half, ltb_ℤ}
use k8spodlogreceiver.Retry.{jitter}
use k8spodlogreceiver.Retry.Backoff.{rung}
use k8spodlogreceiver.Stream.{
  Event, is_unset, Consumed, Batch, after, Cursor, Instant, Stream, Drain, drain_failed, drained,
  Attempt, connect_failed, connected, Round, Sleep, lifetime_reached, begin_round,
  retry_after_connect_error, take_over, drain_terminal_logs, follow, after_follow, attempt_once,
  round,
}

abbrev pub sleep_of : Attempt → Sleep
sleep_of (connect_failed cancelled deadline now later sleep) = sleep
sleep_of (connected pipeline es cancelled deadline terminal d sleep) = sleep

-- The connect has failed for longer than MaxElapsedTime.
abbrev pub past_limit : Stream → Instant → Instant → Bool
past_limit s now later =
    ltb_ℤ (pos 0) s.backoff_cfg.max_elapsed_time
    && ltb_ℤ s.backoff_cfg.max_elapsed_time
        (pos (later - (if is_unset s.retrying_since then now else s.retrying_since)))

-- How many times in a row the stream has gone without a new line, failed connects included, once this
-- attempt is over, which leaves the position `after_it`; a connection cut by its lifetime does not count.
abbrev pub quiet_after : ℕ → Stream → Cursor → Attempt → ℕ
quiet_after k s after_it (connect_failed cancelled deadline now later sleep) =
    if lifetime_reached s cancelled deadline then k else suc k
quiet_after k s after_it (connected pipeline es cancelled deadline terminal d sleep) =
    if after after_it s.resume
    then 0
    else if lifetime_reached s cancelled deadline
    then k
    else suc k

-- The waits of an attempt, for settings of `i` and `m` and `k` attempts without a new line before it.
abbrev pub waits_of : ℕ → ℕ → ℕ → Stream → Cursor → Attempt → List ℤ
waits_of i m k s after_it (connect_failed cancelled deadline now later sleep) =
    if lifetime_reached s cancelled deadline || past_limit s now later
    then []
    else jitter (pos (rung i m k)) (sleep.draw (half (pos (rung i m k)))) ∷ []
waits_of i m k s after_it (connected pipeline es cancelled deadline terminal d sleep) =
    if terminal || lifetime_reached s cancelled deadline
    then []
    else let n =
        rung i m
          (quiet_after k s after_it (connected pipeline es cancelled deadline terminal d sleep)) in
      jitter (pos n) (sleep.draw (half (pos n))) ∷ []

abbrev pub round_quiet : ℕ → Stream → Round → ℕ
round_quiet k s r =
    if r.stopped
    then k
    else quiet_after k (begin_round s r.restart_count) (round s r).0.resume r.attempt

abbrev pub round_waits : ℕ → ℕ → ℕ → Stream → Round → List ℤ
round_waits i m k s r =
    if r.stopped
    then []
    else waits_of i m k (begin_round s r.restart_count) (round s r).0.resume r.attempt

-- The waits of all rounds, one after the other.
abbrev pub expected : ℕ → ℕ → ℕ → Stream → List Round → List ℤ
expected i m k s [] = []
expected i m k s (r ∷ is) =
    let rest = expected i m (round_quiet k s r) (round s r).0 is in
    round_waits i m k s r ++ (if (round s r).1 then rest else [])

pub follow_keeps :
    (s : Stream) (pipeline : ℕ → Batch → Consumed) (es : List Event) (terminal : Bool) (d : Drain)
    → let r = follow s pipeline es terminal d in
      (r.0.backoff_cfg ≡ s.backoff_cfg)
      × (r.0.backoff ≡ s.backoff)
      × (r.0.waits ≡ s.waits)
      × (r.1 ≡ not terminal)
unfolding follow drain_terminal_logs take_over
follow_keeps s pipeline es true drain_failed =
    (ground arith, ground arith, ground arith, ground arith)
follow_keeps s pipeline es true (drained p fs) =
    (ground arith, ground arith, ground arith, ground arith)
follow_keeps s pipeline es false d = (refl, refl, refl, refl)

pub begin_keeps :
    (s : Stream) (n : ℤ)
    → ((begin_round s n).backoff_cfg ≡ s.backoff_cfg)
      × ((begin_round s n).backoff ≡ s.backoff)
      × ((begin_round s n).waits ≡ s.waits)
unfolding begin_round
begin_keeps s n = (ground arith, ground arith, ground arith)

same_cfg-retry :
    (s : Stream) (now later : Instant) (sleep : Sleep)
    → (retry_after_connect_error s now later sleep).0.backoff_cfg ≡ s.backoff_cfg
unfolding retry_after_connect_error
same_cfg-retry s now later sleep = ground arith

same_cfg-after_follow :
    (before : Cursor) (recycled : Bool) (sleep : Sleep) (r : Stream × Bool)
    → (after_follow before recycled sleep r).0.backoff_cfg ≡ r.0.backoff_cfg
unfolding after_follow
same_cfg-after_follow before recycled sleep (s, go) = ground arith

pub same_cfg-attempt : (s : Stream) (a : Attempt) → (attempt_once s a).0.backoff_cfg ≡ s.backoff_cfg
unfolding attempt_once
same_cfg-attempt s (connect_failed cancelled deadline now later sleep) =
    ground (arith, same_cfg-retry s now later sleep)
same_cfg-attempt s (connected pipeline es cancelled deadline terminal d sleep) =
    same_cfg-after_follow s.resume (lifetime_reached s cancelled deadline) sleep
      (follow s pipeline es terminal d)
    ∙ (follow_keeps s pipeline es terminal d).0

pub same_cfg-round : (s : Stream) (i : Round) → (round s i).0.backoff_cfg ≡ s.backoff_cfg
unfolding round
same_cfg-round s i = ground (
  arith,
  same_cfg-attempt (begin_round s i.restart_count) i.attempt,
  (begin_keeps s i.restart_count).0,
)
