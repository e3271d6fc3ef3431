-- ===== src/Stream/Moments.antt =====
-- What a stream's reports say of what it has brought in.
use k8spodlogreceiver.Prelude.{
  length-map, ℕ, ◌≤◌, ◌<◌, ◌≡◌, refl, sym, ap, ◌∙◌, ◌⊎◌, inl, inr, true, List, [], ◌∷◌, ◌++◌, arith,
  if◌then◌else◌, Bool-cases, length, All, bytes_eq,
}
use k8spodlogreceiver.Connection.Moments.{progress-stream_connection}
use k8spodlogreceiver.Prelude.Int.{max_int}
use k8spodlogreceiver.Stream.Keeping.{keeps_run, connection, report_again, SamePosition}
use mathlib.Core.Path.{subst}
use mathlib.Core.List.{append-nil, append_assoc}
use k8spodlogreceiver.Stream.Growing.{taken-open, taken-take_over, taken}
use k8spodlogreceiver.Connection.{Conn, Consumed, tick}
use k8spodlogreceiver.Connection.Tracks.{accepted_bodies, body_of}
use k8spodlogreceiver.Stream.Delivery.{
  Exact-take_over, Exact-told, Answered, ServedRounds, Exact-same, Exact,
}
use k8spodlogreceiver.Cursor.Counting.{Stands}
use k8spodlogreceiver.Connection.Rounds.{lines_of}
use k8spodlogreceiver.Cursor.Serving.{Ascending, Timed, Served}
use k8spodlogreceiver.Stream.{run, Batch, take_over, Round, Stream}
use k8spodlogreceiver.Logline.Line.{Line}
use k8spodlogreceiver.Cursor.{is_zero, Cursor}
use k8spodlogreceiver.Connection.{closed, line, Event}

-- The position stands after the first lines `upto` of those behind `base`, of which `n` have come in.
pub record StoodAt (log base : List Line) (n : ℕ) (c : Cursor) : Type 0 where
  pub upto : List Line
  pub later : List Line
  pub cut : base ++ (upto ++ later) ≡ log
  pub within : length upto ≤ n
  pub stands : Stands c (base ++ upto)

-- A zero position, which the receiver ignores, says nothing.
abbrev pub Vouched : List Line → List Line → ℕ → Cursor → Type 0
Vouched log base n c = (is_zero c ≡ true) ⊎ StoodAt log base n c

Vouched-more :
    (log base : List Line) (n k : ℕ) (cs : List Cursor)
    → n ≤ k
    → All (Vouched log base n) cs
    → All (Vouched log base k) cs
Vouched-more log base n k [] h v = tt
Vouched-more log base n k (c ∷ cs) h v = (
  elim v.0 [
    | inl z ↦ inl z
    | inr w ↦ inr (record {
      upto = w.upto;
      later = w.later;
      cut = w.cut;
      within = omega (arith, h, w.within);
      stands = w.stands;
    })
  ],
  Vouched-more log base n k cs h v.1,
)

All-append_both {κ} :
    (P : Cursor → Type κ) (xs ys : List Cursor) → All P xs → All P ys → All P (xs ++ ys)
All-append_both P [] ys h k = k
All-append_both P (x ∷ xs) ys h k = (h.0, All-append_both P xs ys h.1 k)

pub record Vouching (log base : List Line) (s : Stream) : Type 0 where
  pub exact : Exact log base s
  pub reports : All (Vouched log base (taken s)) s.reports

-- Where a stream stands is after as many lines as it has brought in.
StoodAt-Exact :
    (log base : List Line) (s : Stream) → Exact log base s → StoodAt log base (taken s) s.resume
StoodAt-Exact log base s x = record {
  upto = x.read;
  later = x.tail;
  cut = x.cut;
  within = omega (arith, ap length x.accepted_are, length-map body_of x.read);
  stands = x.stands;
}

lines_of_more :
    (es later : List Event) → (more : List Line) × (lines_of (es ++ later) ≡ lines_of es ++ more)
lines_of_more [] later = (lines_of later, refl)
lines_of_more (line l now ∷ es) later = let r = lines_of_more es later in (r.0, ap (◌∷◌ l) r.1)
lines_of_more (closed failed ∷ es) later = ([], refl)
lines_of_more (tick ∷ es) later = lines_of_more es later

Served-before :
    (c : Cursor) (log : List Line) (es later : List Event)
    → Served c (lines_of (es ++ later)) log
    → Served c (lines_of es) log
Served-before c log es later h =
    let r = lines_of_more es later in
    record {
      old = h.old;
      rest = r.0 ++ h.rest;
      cut =
          ap (λ xs. h.old ++ xs)
            (sym (append_assoc (lines_of es) r.0 h.rest) ∙ ap (λ xs. xs ++ h.rest) (sym r.1))
          ∙ h.cut;
      behind = h.behind;
    }

module _ (log : List Line) (timed : All Timed log) (ascending : Ascending log)
    (short : length log < max_int) (base : List Line) where
  -- What a connection has set `delivered` to, where the stream stands once it takes it over.
  vouch_delivered :
      (s : Stream) (pipeline : ℕ → Batch → Consumed) (es later : List Event)
      → Served s.resume (lines_of (es ++ later)) log
      → Exact log base s
      → Vouched log base
          (taken (take_over s (connection s pipeline (es ++ later))))
          (connection s pipeline es).delivered
  unfolding take_over
  vouch_delivered s pipeline es later h x = elim (Bool-cases (is_zero c.delivered)) [
    | inl z ↦ inl z
    | inr z ↦ inr (record {
      upto = w.upto;
      later = w.later;
      cut = w.cut;
      within = omega (arith, w.within, taken-open s pipeline es later);
      stands =
          subst (λ b. Stands (if b then s.resume else c.delivered) (base ++ w.upto)) z w.stands;
    })
  ]
    where
      c : Conn
      c = connection s pipeline es

      w : StoodAt log base (taken (take_over s c)) (take_over s c).resume
      w = StoodAt-Exact log base (take_over s c) (
          Exact-take_over log timed ascending short base s pipeline es
            (Served-before s.resume log es later h) x)

  Vouching-take_over :
      (s : Stream) (pipeline : ℕ → Batch → Consumed) (es : List Event)
      → Served s.resume (lines_of es) log
      → Vouching log base s
      → Vouching log base (take_over s (connection s pipeline es))
  Vouching-take_over s pipeline es h v = record {
    exact = Exact-take_over log timed ascending short base s pipeline es h v.exact;
    reports =
        unfold take_over in
        All-append_both _ s.reports (connection s pipeline es).progress
          (Vouched-more log base (taken s) _ s.reports
            (taken-take_over (taken s) s pipeline es (omega arith)) v.reports)
          (progress-stream_connection pipeline s.max_batch s.meta
            (Vouched log base (taken (take_over s (connection s pipeline es)))) s.resume es
            (λ before later e.
              subst
                (λ fs.
                  Vouched log base (taken (take_over s (connection s pipeline fs)))
                    (connection s pipeline before).delivered)
                e
                (vouch_delivered s pipeline before later
                  (subst (λ fs. Served s.resume (lines_of fs) log) (sym e) h) v.exact)));
  }

  Vouching-told :
      (s : Stream) (pipeline : ℕ → Batch → Consumed) (es : List Event)
      → Served s.resume (lines_of es) log
      → Vouching log base s
      → Vouching log base
          (report_again (take_over s (connection s pipeline es)) (connection s pipeline es))
  Vouching-told s pipeline es h v =
      let w = Vouching-take_over s pipeline es h v in
      record {
        exact = Exact-told log timed ascending short base s pipeline es h v.exact;
        reports = elim (Bool-cases (is_zero (connection s pipeline es).delivered)) [
          | inl z ↦ rw z w.reports
          | inr z ↦ rw z (
              All-append_both _ _ ((connection s pipeline es).delivered ∷ []) w.reports (
                subst
                    (λ fs.
                      Vouched log base (taken (take_over s (connection s pipeline fs)))
                        (connection s pipeline es).delivered)
                    (append-nil es)
                    (vouch_delivered s pipeline es []
                      (subst (λ fs. Served s.resume (lines_of fs) log) (sym (append-nil es)) h)
                      v.exact),
                tt,
              ))
        ];
      }

Vouching-same :
    (log base : List Line) (s t : Stream)
    → SamePosition s t
    → Vouching log base s
    → Vouching log base t
Vouching-same log base s t p v = record {
  exact = Exact-same log base s t p.sent p.resume v.exact;
  reports = subst (All (Vouched log base (taken t))) (sym p.reports) (
      subst (λ n. All (Vouched log base n) s.reports)
        (ap (λ xs. length (accepted_bodies xs)) (sym p.sent)) v.reports);
}

-- A container's log, a stream and the API server's answers as for `Stream.Delivery.run-Exact`, the stream
-- having reported nothing yet. Every position that it reports, unless it is zero, stands after some
-- first part of the log, of which every line behind `base` is by then among those that the pipeline
-- has taken or refused for good: a report is never ahead of the delivery, in the midst of a
-- connection too, whichever of them the receiver gets last.
pub run-Vouching :
    (log base : List Line) (s : Stream) (is : List Round)
    → All Timed log
    → Ascending log
    → length log < max_int
    → ServedRounds log (record s { backoff = s.backoff_cfg.initial_interval }) is
    → s.reports ≡ []
    → Exact log base s
    → Vouching log base (run s is).0
run-Vouching log base s is t a l h n x =
    keeps_run (Answered log) (Vouching log base) (Vouching-same log base)
      (λ s t es e. subst (λ c. Served c (lines_of es) log) (sym e))
      (Vouching-take_over log t a l base) (Vouching-told log t a l base) s is h
      (record { exact = x; reports = rw n tt })
