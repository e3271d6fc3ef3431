-- ===== src/Stream/Keeping.antt =====
-- What every connection of a stream keeps, its whole loop keeps.
use k8spodlogreceiver.Prelude.{
  ℕ, ◌≡◌, refl, inl, inr, Bool, true, false, List, [], ◌∷◌, ◌++◌, arith, if◌then◌else◌, Bool-cases,
  bytes_eq,
}
use k8spodlogreceiver.Instant.{Instant}
use k8spodlogreceiver.Prelude.Int.{ℤ}
use k8spodlogreceiver.Logline.Batch.{Batch}
use k8spodlogreceiver.Cursor.{is_zero}
use k8spodlogreceiver.Connection.{Conn, Consumed, Event, stream_connection}
use k8spodlogreceiver.Stream.{
  Sleep, Stream, Drain, drain_failed, drained, Attempt, connect_failed, connected, Round,
  lifetime_reached, retry_after_connect_error, take_over, drain_terminal_logs, ended_in_error,
  follow, after_follow, attempt_once, begin_round, round, rounds, run,
}

-- The connection of a stream at `s`.
abbrev pub connection : Stream → (ℕ → Batch → Consumed) → List Event → Conn
connection s pipeline es = (stream_connection pipeline s.max_batch s.meta s.resume es).0

-- The same stream, as far as its position, what it has sent, what it has reported and its batches.
pub record SamePosition (s t : Stream) : Type 0 where
  pub resume : t.resume ≡ s.resume
  pub sent : t.sent ≡ s.sent
  pub reports : t.reports ≡ s.reports

-- After a connection: the stream takes over what it leaves, and reports the position once more if
-- the connection has moved it.
abbrev pub report_again : Stream → Conn → Stream
report_again s c = record s {
  reports = if is_zero c.delivered then s.reports else s.reports ++ c.delivered ∷ [];
}

-- `Allowed s es`: the events `es` may reach a connection of a stream at `s`.
module _ (Allowed : Stream → List Event → Type 0) where
  abbrev pub AllowedDrain : Stream → Drain → Type 0
  AllowedDrain s drain_failed = Unit
  AllowedDrain s (drained pipeline es) = Allowed s es

  abbrev pub AllowedAttempt : Stream → Attempt → Type 0
  AllowedAttempt s (connect_failed cancelled deadline now later sleep) = Unit
  AllowedAttempt s (connected pipeline es cancelled deadline terminal d sleep) =
      Allowed s es × AllowedDrain (take_over s (connection s pipeline es)) d

  abbrev pub AllowedRounds : Stream → List Round → Type 0
  AllowedRounds s [] = Unit
  AllowedRounds s (i ∷ is) =
      AllowedAttempt (begin_round s i.restart_count) i.attempt × AllowedRounds (round s i).0 is

  module _ (Holds : Stream → Type 0) (moved : (s t : Stream) → SamePosition s t → Holds s → Holds t)
      (allowed : (s t : Stream) (es : List Event)
        → t.resume ≡ s.resume
        → Allowed s es
        → Allowed t es)
      (kept : (s : Stream) (pipeline : ℕ → Batch → Consumed) (es : List Event)
        → Allowed s es
        → Holds s
        → Holds (take_over s (connection s pipeline es)))
      (told : (s : Stream) (pipeline : ℕ → Batch → Consumed) (es : List Event)
        → Allowed s es
        → Holds s
        → Holds (
            report_again (take_over s (connection s pipeline es)) (connection s pipeline es))) where
    keeps_drain :
        (s : Stream) (d : Drain) → AllowedDrain s d → Holds s → Holds (drain_terminal_logs s d)
    unfolding drain_terminal_logs
    keeps_drain s drain_failed a h = h
    keeps_drain s (drained pipeline es) a h = kept s pipeline es a h

    AllowedDrain-same :
        (s t : Stream) (d : Drain) → t.resume ≡ s.resume → AllowedDrain s d → AllowedDrain t d
    AllowedDrain-same s t drain_failed e a = tt
    AllowedDrain-same s t (drained pipeline es) e a = allowed s t es e a

    keeps_follow :
        (s : Stream) (pipeline : ℕ → Batch → Consumed) (es : List Event) (terminal : Bool)
        (d : Drain)
        → Allowed s es
        → AllowedDrain (take_over s (connection s pipeline es)) d
        → Holds s
        → Holds (follow s pipeline es terminal d).0
    unfolding follow take_over
    keeps_follow s pipeline es terminal d a b h =
        by_end terminal
          (ended_in_error (stream_connection pipeline s.max_batch s.meta s.resume es).1) refl
      where
        c : Conn
        c = connection s pipeline es

        s' : Stream
        s' = record (report_again (take_over s c) c) { retrying_since = 0 }

        left : Holds s'
        left =
            moved (report_again (take_over s c) c) s'
              (record { resume = refl; sent = refl; reports = refl }) (told s pipeline es a h)

        by_end :
            (t e : Bool)
            → ended_in_error (stream_connection pipeline s.max_batch s.meta s.resume es).1 ≡ e
            → Holds (follow s pipeline es t d).0
        by_end false e q = left
        by_end true true q =
            rw (q, follow) (keeps_drain s' d (AllowedDrain-same (take_over s c) s' d refl b) left)
        by_end true false q = rw (q, follow) left

    SamePosition-retry :
        (s : Stream) (now later : Instant) (sleep : Sleep)
        → SamePosition s (retry_after_connect_error s now later sleep).0
    unfolding retry_after_connect_error
    SamePosition-retry s now later sleep = record {
      resume = ground arith;
      sent = ground arith;
      reports = ground arith;
    }

    SamePosition-begin : (s : Stream) (n : ℤ) → SamePosition s (begin_round s n)
    unfolding begin_round
    SamePosition-begin s n = record {
      resume = ground arith;
      sent = ground arith;
      reports = ground arith;
    }

    keeps_attempt :
        (s : Stream) (a : Attempt) → AllowedAttempt s a → Holds s → Holds (attempt_once s a).0
    unfolding attempt_once after_follow
    keeps_attempt s (connect_failed cancelled deadline now later sleep) a h =
        elim (Bool-cases (lifetime_reached s cancelled deadline)) [
          | inl e ↦ rw (e, attempt_once) h
          | inr e ↦
              rw (e, attempt_once)
                (moved s (retry_after_connect_error s now later sleep).0
                  (SamePosition-retry s now later sleep) h)
        ]
    keeps_attempt s (connected pipeline es cancelled deadline terminal d sleep) a h =
        moved (follow s pipeline es terminal d).0 _
          (record { resume = refl; sent = refl; reports = refl })
          (keeps_follow s pipeline es terminal d a.0 a.1 h)

    keeps_round :
        (s : Stream) (i : Round)
        → AllowedAttempt (begin_round s i.restart_count) i.attempt
        → Holds s
        → Holds (round s i).0
    unfolding round
    keeps_round s i a h = elim (Bool-cases i.stopped) [
      | inl e ↦ rw (e, round) h
      | inr e ↦
          rw (e, round)
            (keeps_attempt (begin_round s i.restart_count) i.attempt a
              (moved s (begin_round s i.restart_count) (SamePosition-begin s i.restart_count) h))
    ]

    pub keeps_rounds :
        (is : List Round) (s : Stream) → AllowedRounds s is → Holds s → Holds (rounds s is).0
    unfolding rounds
    keeps_rounds [] s a h = h
    keeps_rounds (i ∷ is) s a h = go (keeps_rounds is (round s i).0 a.1 h') (round s i).1 refl
      where
        h' : Holds (round s i).0
        h' = keeps_round s i a.0 h

        go :
            Holds (rounds (round s i).0 is).0
            → (b : Bool) → (round s i).1 ≡ b
            → Holds (rounds s (i ∷ is)).0
        go rest true e = rw (e, rounds) rest
        go rest false e = rw (e, rounds) h'

    pub keeps_run :
        (s : Stream) (is : List Round)
        → AllowedRounds (record s { backoff = s.backoff_cfg.initial_interval }) is
        → Holds s
        → Holds (run s is).0
    unfolding run
    keeps_run s is a h =
        keeps_rounds is (record s { backoff = s.backoff_cfg.initial_interval }) a
          (moved s _ (record { resume = refl; sent = refl; reports = refl }) h)

-- No condition on what reaches a connection.
abbrev pub Anything : Stream → List Event → Type 0
Anything s es = Unit

Anything-drain : (s : Stream) (d : Drain) → AllowedDrain Anything s d
Anything-drain s drain_failed = tt
Anything-drain s (drained pipeline es) = tt

Anything-attempt : (s : Stream) (a : Attempt) → AllowedAttempt Anything s a
Anything-attempt s (connect_failed cancelled deadline now later sleep) = tt
Anything-attempt s (connected pipeline es cancelled deadline terminal d sleep) =
    (tt, Anything-drain (take_over s (connection s pipeline es)) d)

pub Anything-rounds : (s : Stream) (is : List Round) → AllowedRounds Anything s is
Anything-rounds s [] = tt
Anything-rounds s (i ∷ is) =
    (Anything-attempt (begin_round s i.restart_count) i.attempt, Anything-rounds (round s i).0 is)
