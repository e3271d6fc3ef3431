-- ===== src/Stream/Growing.antt =====
-- What the pipeline has taken only grows.
use k8spodlogreceiver.Prelude.{
  ℕ, ◌≤◌, ◌≡◌, refl, sym, ap, inl, inr, Bool, true, false, List, [], ◌∷◌, ◌++◌, arith, Bool-cases,
  length, length-append, bytes_eq,
}
use mathlib.Core.Path.{subst}
use k8spodlogreceiver.Connection.{stream_connection}
use k8spodlogreceiver.Stream.{Sleep, ended_in_error}
use k8spodlogreceiver.Connection.Growing.{count-stream_connection}
use k8spodlogreceiver.Stream.{
  drain_terminal_logs, attempt_once, follow, after_follow, begin_round, connected, drain_failed,
  drained, Drain,
}
use k8spodlogreceiver.Connection.Tracks.{accepted_bodies-append, accepted_bodies}
use k8spodlogreceiver.Stream.Keeping.{connection, Anything, Anything-rounds, keeps_rounds}
use k8spodlogreceiver.Stream.{Event, Consumed, Batch, Stream, Round, round, rounds, run, take_over}

-- The number of records taken.
abbrev pub taken : Stream → ℕ
taken s = length (accepted_bodies s.sent)

pub taken-take_over :
    (n : ℕ) (s : Stream) (pipeline : ℕ → Batch → Consumed) (es : List Event)
    → n ≤ taken s
    → n ≤ taken (take_over s (connection s pipeline es))
unfolding take_over
taken-take_over n s pipeline es h = omega (
  arith,
  ap length (accepted_bodies-append s.sent (connection s pipeline es).sent),
  length-append (accepted_bodies s.sent) (accepted_bodies (connection s pipeline es).sent),
)

taken-rounds : (n : ℕ) (is : List Round) (s : Stream) → n ≤ taken s → n ≤ taken (rounds s is).0
taken-rounds n is s h =
    keeps_rounds Anything (λ t. n ≤ taken t)
      (λ s t p q. subst (λ bs. n ≤ length (accepted_bodies bs)) (sym p.sent) q) (λ s t es e a. a)
      (λ s pipeline es a. taken-take_over n s pipeline es)
      (λ s pipeline es a. taken-take_over n s pipeline es) is s (Anything-rounds s is) h

taken-append :
    (is js : List Round) (s : Stream) → taken (rounds s is).0 ≤ taken (rounds s (is ++ js)).0
unfolding rounds
taken-append [] js s = taken-rounds (taken s) js s (omega arith)
taken-append (i ∷ is) js s = elim (Bool-cases (round s i).1) [
  | inl e ↦ rw (e, rounds) (taken-append is js (round s i).0)
  | inr e ↦ rw (e, rounds) (omega arith)
]

-- Of the same run, an earlier moment and a later one: a connection that is open at the earlier moment
-- has received more events by the later one, and there may be more rounds.
pub data Later : List Round → List Round → Type 0 where
  more_rounds : (is js : List Round) → Later is (is ++ js)
  more_events :
      (is js : List Round) (i : Round) (pipeline : ℕ → Batch → Consumed) (es later : List Event)
      (cancelled deadline terminal : Bool) (d : Drain) (sleep : Sleep)
      → Later
          (is
            ++ (record i {
              attempt =
                  connected pipeline es false false false drain_failed
                    (record sleep { slept = true });
            })
              ∷ [])
          (is
            ++ (record i {
              attempt = connected pipeline (es ++ later) cancelled deadline terminal d sleep;
            })
              ∷ js)

taken-drain : (n : ℕ) (s : Stream) (d : Drain) → n ≤ taken s → n ≤ taken (drain_terminal_logs s d)
unfolding drain_terminal_logs
taken-drain n s drain_failed h = h
taken-drain n s (drained pipeline es) h = taken-take_over n s pipeline es h

pub taken-follow :
    (s : Stream) (pipeline : ℕ → Batch → Consumed) (es : List Event) (terminal : Bool) (d : Drain)
    → taken (take_over s (connection s pipeline es)) ≤ taken (follow s pipeline es terminal d).0
unfolding follow
taken-follow s pipeline es true d =
    elim (Bool-cases
      (ended_in_error (stream_connection pipeline s.max_batch s.meta s.resume es).1)) [
        | inl e ↦
            rw (e, follow)
              (taken-drain (taken (take_over s (connection s pipeline es))) _ d (omega arith))
        | inr e ↦ rw (e, follow) (omega arith)
      ]
taken-follow s pipeline es false d = omega arith

pub taken-open :
    (s : Stream) (pipeline : ℕ → Batch → Consumed) (es later : List Event)
    → taken (take_over s (connection s pipeline es))
      ≤ taken (take_over s (connection s pipeline (es ++ later)))
unfolding take_over
taken-open s pipeline es later = omega (
  arith,
  ap length (accepted_bodies-append s.sent (connection s pipeline es).sent),
  length-append (accepted_bodies s.sent) (accepted_bodies (connection s pipeline es).sent),
  ap length (accepted_bodies-append s.sent (connection s pipeline (es ++ later)).sent),
  length-append (accepted_bodies s.sent)
      (accepted_bodies (connection s pipeline (es ++ later)).sent),
  count-stream_connection pipeline s.max_batch s.meta s.resume es later,
)

taken-attempt :
    (s : Stream) (pipeline : ℕ → Batch → Consumed) (es later : List Event)
    (cancelled deadline terminal : Bool) (d : Drain) (sleep : Sleep)
    → taken
        (attempt_once s
          (connected pipeline es false false false drain_failed (record sleep { slept = true }))).0
      ≤ taken
          (attempt_once s (connected pipeline (es ++ later) cancelled deadline terminal d sleep)).0
unfolding attempt_once after_follow follow
taken-attempt s pipeline es later cancelled deadline terminal d sleep =
    omega (arith, taken-open s pipeline es later, taken-follow s pipeline (es ++ later) terminal d)

taken-round :
    (s : Stream) (i : Round) (pipeline : ℕ → Batch → Consumed) (es later : List Event)
    (cancelled deadline terminal : Bool) (d : Drain) (sleep : Sleep)
    → taken
        (round s (record i {
          attempt =
              connected pipeline es false false false drain_failed (record sleep { slept = true });
        })).0
      ≤ taken
          (round s (record i {
            attempt = connected pipeline (es ++ later) cancelled deadline terminal d sleep;
          })).0
unfolding round
taken-round s i pipeline es later cancelled deadline terminal d sleep =
    elim (Bool-cases i.stopped) [
      | inl z ↦ rw (z, round) (omega arith)
      | inr z ↦
          rw (z, round)
            (taken-attempt (begin_round s i.restart_count) pipeline es later cancelled deadline
              terminal d sleep)
    ]

pub taken-one : (s : Stream) (i : Round) → taken (rounds s (i ∷ [])).0 ≡ taken (round s i).0
unfolding rounds
taken-one s i = elim (Bool-cases (round s i).1) [
  | inl e ↦ rw (e, rounds) refl
  | inr e ↦ rw (e, rounds) refl
]

taken-first :
    (s : Stream) (i : Round) (js : List Round) → taken (round s i).0 ≤ taken (rounds s (i ∷ js)).0
unfolding rounds
taken-first s i js = elim (Bool-cases (round s i).1) [
  | inl e ↦ rw (e, rounds) (taken-rounds (taken (round s i).0) js (round s i).0 (omega arith))
  | inr e ↦ rw (e, rounds) (omega arith)
]

taken-rounds_later :
    (i j : Round) (js : List Round)
    → ((s : Stream) → taken (round s i).0 ≤ taken (round s j).0)
    → (is : List Round) (s : Stream)
    → taken (rounds s (is ++ i ∷ [])).0 ≤ taken (rounds s (is ++ j ∷ js)).0
unfolding rounds
taken-rounds_later i j js h [] s = omega (arith, taken-one s i, h s, taken-first s j js)
taken-rounds_later i j js h (k ∷ is) s = elim (Bool-cases (round s k).1) [
  | inl e ↦ rw (e, rounds) (taken-rounds_later i j js h is (round s k).0)
  | inr e ↦ rw (e, rounds) (omega arith)
]

-- What is taken at one moment of a run is still taken at a later one.
pub taken-Later :
    {is js : List Round} → Later is js → (s : Stream) → taken (run s is).0 ≤ taken (run s js).0
unfolding run
taken-Later (more_rounds is js) s = taken-append is js _
taken-Later (more_events is js i pipeline es later cancelled deadline terminal d sleep) s =
    taken-rounds_later _ _ js
      (λ t. taken-round t i pipeline es later cancelled deadline terminal d sleep) is _
