-- ===== src/Stream/GivingUp.antt =====
-- How long a stream goes on connecting while the API server fails it (retryAfterConnectError).
use k8spodlogreceiver.Prelude.{
  ◌-◌, ◌<◌, ◌≡◌, refl, ap, ◌∙◌, inl, inr, Bool, true, not, ◌&&◌, ◌||◌, Option, none, some, List, [],
  ◌∷◌, map, arith, if◌then◌else◌, Bool-cases, All, bytes_eq,
}
use mathlib.Core.Path.{subst, ap₂}
use k8spodlogreceiver.Prelude.Int.{pos, ltb_ℤ, ℤ}
use k8spodlogreceiver.Stream.{
  Sleep, BackoffConfig, run, rounds, Stream, retry_after_connect_error, count_reconnect,
  begin_round, attempt_once, Instant, connect_failed, round, Round,
}

-- A round that fails to connect: what it reads of the clock, which contexts have ended by then, that
-- of the stream or, by its deadline, that of the connection, and how its wait goes, if it waits.
pub record Failure : Type 0 where
  pub stopped : Bool
  pub restart_count : ℤ
  pub cancelled : Bool
  pub deadline : Bool
  pub now : Instant
  pub later : Instant
  pub sleep : Sleep

abbrev pub failed_round : Failure → Round
failed_round f = record {
  stopped = f.stopped;
  restart_count = f.restart_count;
  attempt = connect_failed f.cancelled f.deadline f.now f.later f.sleep;
}

-- The connect was cut short by the lifetime of a connection, and not by the end of the stream.
abbrev pub is_cut : ℤ → Failure → Bool
is_cut lifetime f = f.deadline && ltb_ℤ (pos 0) lifetime && not f.cancelled

-- When the failures began, after this one, if they had begun at the time of the option: a connect that
-- was cut short does not begin them.
abbrev pub begun : ℤ → Option Instant → Failure → Option Instant
begun lifetime (some t) f = some t
begun lifetime none f = if is_cut lifetime f then none else some f.now

-- The failure comes too late after the first one.
abbrev pub is_late : ℤ → Option Instant → Failure → Bool
is_late max none f = ltb_ℤ (pos 0) max && ltb_ℤ max (pos (f.later - f.now))
is_late max (some t) f = ltb_ℤ (pos 0) max && ltb_ℤ max (pos (f.later - t))

-- Whether the stream goes on after a failure.
abbrev pub goes_on : ℤ → ℤ → Option Instant → Failure → Bool
goes_on max lifetime since f =
    not f.stopped && (is_cut lifetime f || (f.sleep.slept && not (is_late max since f)))

abbrev pub all_go_on : ℤ → ℤ → Option Instant → List Failure → Bool
all_go_on max lifetime since [] = true
all_go_on max lifetime since (f ∷ fs) =
    let rest = all_go_on max lifetime (begun lifetime since f) fs in
    goes_on max lifetime since f && rest

-- The stream keeps when the failures began.
Begun : Option Instant → Instant → Type 0
Begun none t = t ≡ 0
Begun (some u) t = (t ≡ u) × (0 < u)

round-failed :
    (s : Stream) (f : Failure) (since : Option Instant)
    → 0 < f.now
    → Begun since s.retrying_since
    → (round s (failed_round f)).1
      ≡ goes_on s.backoff_cfg.max_elapsed_time s.max_stream_lifetime since f
unfolding round attempt_once begin_round count_reconnect retry_after_connect_error Begun
round-failed s f none z h = ground (arith, h)
round-failed s f (some t) z h = ground (arith, h)

round-failed_since :
    (s : Stream) (f : Failure) (since : Option Instant)
    → 0 < f.now
    → Begun since s.retrying_since
    → (round s (failed_round f)).1 ≡ true
    → Begun (begun s.max_stream_lifetime since f) (round s (failed_round f)).0.retrying_since
unfolding round attempt_once begin_round count_reconnect retry_after_connect_error Begun
round-failed_since s f none z h g = elim (Bool-cases (is_cut s.max_stream_lifetime f)) [
  | inl e ↦ rw e (ground (arith, h, e, g))
  | inr e ↦ rw e (ground (arith, h, e, g), z)
]
round-failed_since s f (some t) z h g = (ground (arith, h, g), h.1)

round-failed_keeps :
    (s : Stream) (f : Failure)
    → ((round s (failed_round f)).0.backoff_cfg ≡ s.backoff_cfg)
      × ((round s (failed_round f)).0.max_stream_lifetime ≡ s.max_stream_lifetime)
unfolding round attempt_once begin_round count_reconnect retry_after_connect_error
round-failed_keeps s f = (ground arith, ground arith)

rounds-failed :
    (fs : List Failure) (s : Stream) (max lifetime : ℤ) (since : Option Instant)
    → All (λ f. 0 < f.now) fs
    → s.backoff_cfg.max_elapsed_time ≡ max
    → s.max_stream_lifetime ≡ lifetime
    → Begun since s.retrying_since
    → (rounds s (map failed_round fs)).1 ≡ all_go_on max lifetime since fs
unfolding rounds
rounds-failed [] s max lifetime since z e l h = refl
rounds-failed (f ∷ fs) s max lifetime since z e l h =
    let r = round-failed s f since z.0 h ∙ ap₂ (λ m n. goes_on m n since f) e l in
    elim (Bool-cases (goes_on max lifetime since f)) [
      | inl g ↦
          rw (r ∙ g, g, rounds)
            (rounds-failed fs (round s (failed_round f)).0 max lifetime (begun lifetime since f) z.1
              (ap BackoffConfig.max_elapsed_time (round-failed_keeps s f).0 ∙ e)
              ((round-failed_keeps s f).1 ∙ l)
              (subst (λ n. Begun (begun n since f) (round s (failed_round f)).0.retrying_since) l
                (round-failed_since s f since z.0 h (r ∙ g))))
      | inr g ↦ rw (r ∙ g, g, rounds) refl
    ]

-- A stream that has not failed yet, and whose every round from now on fails to connect at a clock
-- above zero: it is still running after the rounds exactly if none of them found the stream's context
-- ended at its top, and each of them was either cut short by the lifetime of its connection, the
-- stream's context being alive, or slept its whole wait and came no more than MaxElapsedTime after the
-- first failure that was not cut short, where that setting is above zero. So it gives up at the first
-- such failure past the limit, not before; a connect that was cut short is tried again whatever the
-- limit, and does not start the time; under the default limit of zero no number of failures ends it.
pub run-failed :
    (s : Stream) (fs : List Failure)
    → s.retrying_since ≡ 0
    → All (λ f. 0 < f.now) fs
    → (run s (map failed_round fs)).1
      ≡ all_go_on s.backoff_cfg.max_elapsed_time s.max_stream_lifetime none fs
unfolding run Begun
run-failed s fs h z =
    rounds-failed fs (record s { backoff = s.backoff_cfg.initial_interval })
      s.backoff_cfg.max_elapsed_time s.max_stream_lifetime none z refl refl h
