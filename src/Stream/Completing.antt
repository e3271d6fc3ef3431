-- ===== src/Stream/Completing.antt =====
-- That a stream gets to the end of the log.
use k8spodlogreceiver.Prelude.{
  length-map, empty_of_length, ℕ, ◌+◌, ◌≤◌, ◌<◌, ◌≡◌, refl, sym, ap, ◌∙◌, inl, inr, Bool, true,
  false, List, [], ◌∷◌, ◌++◌, map, arith, Bool-cases, length, All, length-append, bytes_eq,
}
use k8spodlogreceiver.Stream.Persists.{run_persists, Calm}
use k8spodlogreceiver.Cursor.Counting.{Stands}
use mathlib.Core.List.{append-nil}
use k8spodlogreceiver.Cursor.Filter.{new_filter, keep_all}
use k8spodlogreceiver.Connection.Tracks.{body_of, accepted_bodies, accepted_bodies-append}
use mathlib.Core.Path.{subst}
use mathlib.Core.List.{append_assoc}
use k8spodlogreceiver.Stream.{Sleep, run, rounds, Round}
use k8spodlogreceiver.Connection.Rounds.{lines_of}
use k8spodlogreceiver.Stream.Growing.{taken-one, taken-follow, taken}
use k8spodlogreceiver.Connection.Completing.{stream_connection_complete, Closes, Willing}
use k8spodlogreceiver.Stream.Delivery.{Answered, run-Exact, ServedRounds, Exact-same, Exact}
use k8spodlogreceiver.Stream.Keeping.{connection, AllowedRounds}
use k8spodlogreceiver.Prelude.Int.{pos, ltb_ℤ, max_int}
use k8spodlogreceiver.Cursor.{Cursor}
use k8spodlogreceiver.Stream.{
  count_reconnect, begin_round, connected, after_follow, take_over, attempt_once, Drain, Event,
  Consumed, round, Batch, Stream, Round,
}
use k8spodlogreceiver.Cursor.Serving.{keep_all-ServedToEnd, ServedToEnd, Ascending, Timed}
use k8spodlogreceiver.Logline.Line.{Line}

-- Rounds in a row.
rounds-append :
    (is js : List Round) (s : Stream)
    → (rounds s is).1 ≡ true
    → rounds s (is ++ js) ≡ rounds (rounds s is).0 js
unfolding rounds
rounds-append [] js s h = refl
rounds-append (i ∷ is) js s h = elim (Bool-cases (round s i).1) [
  | inl e ↦ rw (e, rounds) (rounds-append is js (round s i).0 (rw (e, rounds) at h))
  | inr e ↦ absurd (ground (arith, rw (e, rounds) at h))
]

AllowedRounds-append :
    (Allowed : Stream → List Event → Type 0) (is js : List Round) (s : Stream)
    → (rounds s is).1 ≡ true
    → AllowedRounds Allowed s (is ++ js)
    → AllowedRounds Allowed s is × AllowedRounds Allowed (rounds s is).0 js
unfolding rounds
AllowedRounds-append Allowed [] js s h a = (tt, a)
AllowedRounds-append Allowed (i ∷ is) js s h a = elim (Bool-cases (round s i).1) [
  | inl e ↦
      rw (e, rounds)
        (let r = AllowedRounds-append Allowed is js (round s i).0 (rw (e, rounds) at h) a.1 in
          ((a.0, r.0), r.1))
  | inr e ↦ absurd (ground (arith, rw (e, rounds) at h))
]

-- A last round that connects and reads to the end of the log.
pub record LastRound (log : List Line) (resume : Cursor) (i : Round) : Type 0 where
  pub pipeline : ℕ → Batch → Consumed
  pub es : List Event
  pub cancelled : Bool
  pub deadline : Bool
  pub terminal : Bool
  pub drain : Drain
  pub sleep : Sleep
  pub connects : i.attempt ≡ connected pipeline es cancelled deadline terminal drain sleep
  pub goes_on : i.stopped ≡ false
  pub willing : Willing pipeline
  pub closes : Closes es
  pub to_the_end : ServedToEnd resume (lines_of es) log

module _ (log base : List Line) (timed : All Timed log) (ascending : Ascending log)
    (short : length log < max_int) where
  -- The connection brings in all that was not read.
  taken-connection :
      (s : Stream) (pipeline : ℕ → Batch → Consumed) (es : List Event)
      → Exact log base s
      → Willing pipeline
      → Closes es
      → ServedToEnd s.resume (lines_of es) log
      → length base + taken (take_over s (connection s pipeline es)) ≡ length log
  unfolding take_over
  taken-connection s pipeline es x w c e =
      let cut : (base ++ x.read) ++ x.tail ≡ log = append_assoc base x.read x.tail ∙ x.cut in
      let kept =
        keep_all-ServedToEnd s.resume (base ++ x.read) x.tail x.stands
          (subst (All Timed) (sym cut) timed) (subst Ascending (sym cut) ascending)
          (omega (arith, ap length cut)) (lines_of es)
          (subst (ServedToEnd s.resume (lines_of es)) (sym cut) e) in
      omega (
        arith,
        ap length (accepted_bodies-append s.sent (connection s pipeline es).sent),
        length-append (accepted_bodies s.sent) (accepted_bodies (connection s pipeline es).sent),
        ap length (stream_connection_complete pipeline w s.max_batch s.meta s.resume es c),
        length-map body_of (keep_all (new_filter s.resume) (lines_of es)),
        ap length kept,
        ap length cut,
        length-append (base ++ x.read) x.tail,
        length-append base x.read,
        ap length x.accepted_are,
        length-map body_of x.read,
      )

  taken-last :
      (s : Stream) (i : Round)
      → Exact log base s
      → LastRound log s.resume i
      → length log ≤ length base + taken (round s i).0
  unfolding round attempt_once after_follow begin_round count_reconnect
  taken-last s i x l =
      let t = begin_round s i.restart_count in
      let e : t.resume ≡ s.resume = ground arith in
      let f : t.sent ≡ s.sent = ground arith in
      let y : Exact log base t = Exact-same log base s t f e x in
      rw (l.goes_on, l.connects, round)
        (omega (
          arith,
          taken-connection t l.pipeline l.es y l.willing l.closes
              (subst (λ c. ServedToEnd c (lines_of l.es) log) (sym e) l.to_the_end),
          taken-follow t l.pipeline l.es l.terminal l.drain,
        ))

-- All that came behind `base` was brought in, in order, and the cursor stands at the end of the log.
pub record Complete (log base : List Line) (s : Stream) : Type 0 where
  pub rest : List Line
  pub cut : base ++ rest ≡ log
  pub accepted_are : accepted_bodies s.sent ≡ map body_of rest
  pub stands : Stands s.resume log

Complete-Exact :
    (log base : List Line) (s : Stream)
    → Exact log base s
    → length log ≤ length base + taken s
    → Complete log base s
Complete-Exact log base s x h =
    let none : x.tail ≡ [] = empty_of_length x.tail (
      omega (
        arith,
        ap length x.cut,
        length-append base (x.read ++ x.tail),
        length-append x.read x.tail,
        ap length x.accepted_are,
        length-map body_of x.read,
      )) in
    let cut : base ++ x.read ≡ log =
      ap (λ xs. base ++ xs) (sym (append-nil x.read) ∙ ap (λ ys. x.read ++ ys) (sym none))
      ∙ x.cut in
    record {
      rest = x.read;
      cut = cut;
      accepted_are = x.accepted_are;
      stands = subst (Stands s.resume) cut x.stands;
    }

-- A container's log, a stream and the API server's answers as for `Stream.Delivery.run-Exact`, the
-- stream without a limit on the time of failing connects. After any rounds in which it is not
-- cancelled and the container is not terminal, whatever failed in them, let one round
-- connect, the server's answer go on to the end of the log and end, by itself or by an error, and the
-- pipeline refuse nothing: then the pipeline has got, over all the rounds, just the lines behind
-- `base`, each of them once and in order, and the cursor stands at the end of the log.
pub run-Complete :
    (log base : List Line) (s : Stream) (is : List Round) (i : Round)
    → All Timed log
    → Ascending log
    → length log < max_int
    → ServedRounds log (record s { backoff = s.backoff_cfg.initial_interval }) (is ++ i ∷ [])
    → Exact log base s
    → ltb_ℤ (pos 0) s.backoff_cfg.max_elapsed_time ≡ false
    → All Calm is
    → LastRound log (run s is).0.resume i
    → Complete log base (run s (is ++ i ∷ [])).0
unfolding run
run-Complete log base s is i t a l h x m c last =
    let s' = record s { backoff = s.backoff_cfg.initial_interval } in
    let goes_on : (rounds s' is).1 ≡ true = unfold run in run_persists s is m c in
    let before =
      run-Exact log base s is t a l (AllowedRounds-append (Answered log) is (i ∷ []) s' goes_on h).0
        x in
    Complete-Exact log base _ (run-Exact log base s (is ++ i ∷ []) t a l h x) (
      omega (
        arith,
        ap (λ r. taken r.0) (rounds-append is (i ∷ []) s' goes_on),
        taken-one (rounds s' is).0 i,
        taken-last log base t a l (rounds s' is).0 i before last,
      ))
