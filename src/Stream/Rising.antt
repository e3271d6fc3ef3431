-- ===== src/Stream/Rising.antt =====
-- A stream's reports never go back, and lead to where it stands.
use k8spodlogreceiver.Prelude.{
  ℕ, ◌+◌, ◌<◌, ◌≡◌, refl, sym, ap, ◌∙◌, inl, inr, true, false, List, [], ◌∷◌, ◌++◌, arith,
  if◌then◌else◌, Bool-cases, length, All, length-append, bytes_eq,
}
use mathlib.Core.Path.{subst}
use k8spodlogreceiver.Prelude.Int.{max_int}
use k8spodlogreceiver.Logline.Line.{Line}
use k8spodlogreceiver.Logline.Batch.{Batch}
use k8spodlogreceiver.Cursor.{Cursor, is_zero}
use k8spodlogreceiver.Cursor.Order.{NotBefore, NotBefore-refl}
use k8spodlogreceiver.Cursor.Counting.{count_at, count_at-le-length}
use k8spodlogreceiver.Cursor.Serving.{Served, Timed, Ascending}
use k8spodlogreceiver.Connection.{Consumed, Event}
use k8spodlogreceiver.Connection.Rounds.{lines_of}
use k8spodlogreceiver.Connection.Reports.{last_from, last_from-append}
use k8spodlogreceiver.Connection.Rising.{Rising, Rising-append, stream_connection_rises}
use k8spodlogreceiver.Stream.{Stream, Round, take_over, run}
use k8spodlogreceiver.Stream.Keeping.{connection, report_again, SamePosition, keeps_run}
use k8spodlogreceiver.Stream.Delivery.{
  Exact, Exact-take_over, Exact-told, Exact-same, Answered, ServedRounds,
}

-- From `c`, where the stream started, its reports lead to where it stands without going back, and
-- what it has brought in is exact.
pub record Leads (log base : List Line) (c : Cursor) (s : Stream) : Type 0 where
  pub exact : Exact log base s
  pub rising : Rising c s.reports
  pub told : last_from c s.reports ≡ s.resume

module _ (log : List Line) (timed : All Timed log) (ascending : Ascending log)
    (short : length log + length log < max_int) (base : List Line) (c : Cursor) where
  Leads-same : (s t : Stream) → SamePosition s t → Leads log base c s → Leads log base c t
  Leads-same s t p h = record {
    exact = Exact-same log base s t p.sent p.resume h.exact;
    rising = subst (Rising c) (sym p.reports) h.rising;
    told = ap (last_from c) p.reports ∙ h.told ∙ sym p.resume;
  }

  conn_rises :
      (s : Stream) (pipeline : ℕ → Batch → Consumed) (es : List Event)
      → Served s.resume (lines_of es) log
      → Leads log base c s
      → Rising s.resume (connection s pipeline es).progress
        × (last_from s.resume (connection s pipeline es).progress
            ≡ (take_over s (connection s pipeline es)).resume)
  unfolding take_over
  conn_rises s pipeline es a h =
      stream_connection_rises pipeline s.max_batch s.meta s.resume es
        (count_at s.resume.ts (base ++ h.exact.read)) h.exact.stands.counted
        (omega (
          arith,
          count_at-le-length s.resume.ts (base ++ h.exact.read),
          length-append base h.exact.read,
          length-append base (h.exact.read ++ h.exact.tail),
          length-append h.exact.read h.exact.tail,
          ap length h.exact.cut,
          ap length a.cut,
          length-append a.old (lines_of es ++ a.rest),
          length-append (lines_of es) a.rest,
        ))

  Leads-take_over :
      (s : Stream) (pipeline : ℕ → Batch → Consumed) (es : List Event)
      → Served s.resume (lines_of es) log
      → Leads log base c s
      → Leads log base c (take_over s (connection s pipeline es))
  unfolding take_over
  Leads-take_over s pipeline es a h =
      let r = conn_rises s pipeline es a h in
      record {
        exact = Exact-take_over log timed ascending (omega arith) base s pipeline es a h.exact;
        rising = Rising-append c s.reports _ h.rising (rw h.told r.0);
        told =
            last_from-append c s.reports _
            ∙ ap (λ d. last_from d (connection s pipeline es).progress) h.told
            ∙ r.1;
      }

  Leads-told :
      (s : Stream) (pipeline : ℕ → Batch → Consumed) (es : List Event)
      → Served s.resume (lines_of es) log
      → Leads log base c s
      → Leads log base c
          (report_again (take_over s (connection s pipeline es)) (connection s pipeline es))
  unfolding take_over
  Leads-told s pipeline es a h = elim (Bool-cases (is_zero d)) [
    | inl z ↦ record { exact = exact; rising = rw z t.rising; told = rw z (t.told ∙ stays z) }
    | inr z ↦ record {
      exact = exact;
      rising = rw z (
          Rising-append c (s.reports ++ (connection s pipeline es).progress) (d ∷ []) t.rising
            (subst (λ x. NotBefore x d) (sym (t.told ∙ moves z)) (NotBefore-refl d), z, tt));
      told = rw z (last_from-append c (s.reports ++ (connection s pipeline es).progress) (d ∷ []));
    }
  ]
    where
      t : Leads log base c (take_over s (connection s pipeline es))
      t = Leads-take_over s pipeline es a h

      d : Cursor
      d = (connection s pipeline es).delivered

      stays : is_zero d ≡ true → (if is_zero d then s.resume else d) ≡ s.resume
      stays z = ap (λ b. if b then s.resume else d) z

      moves : is_zero d ≡ false → (if is_zero d then s.resume else d) ≡ d
      moves z = ap (λ b. if b then s.resume else d) z

      exact :
          Exact log base
            (report_again (take_over s (connection s pipeline es)) (connection s pipeline es))
      exact = Exact-told log timed ascending (omega arith) base s pipeline es a h.exact

-- A container's log of fewer than 2^62 - 1 lines, and a stream and answers as for
-- `Stream.Delivery.run-Exact`: what the stream brings in is exact, and the positions that it
-- reports never go back and lead from where it started to where it stands.
pub run-Leads :
    (log base : List Line) (s : Stream) (is : List Round)
    → All Timed log
    → Ascending log
    → length log + length log < max_int
    → ServedRounds log (record s { backoff = s.backoff_cfg.initial_interval }) is
    → s.reports ≡ []
    → Exact log base s
    → Leads log base s.resume (run s is).0
run-Leads log base s is t a l h e x =
    keeps_run (Answered log) (Leads log base s.resume) (Leads-same log t a l base s.resume)
      (λ s t es e. subst (λ c. Served c (lines_of es) log) (sym e))
      (Leads-take_over log t a l base s.resume) (Leads-told log t a l base s.resume) s is h
      (record { exact = x; rising = rw e tt; told = rw e refl })
