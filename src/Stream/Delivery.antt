-- ===== src/Stream/Delivery.antt =====
-- What a stream brings into the pipeline over all its connections.
use k8spodlogreceiver.Prelude.{
  ℕ, ◌<◌, ◌≡◌, refl, sym, ap, ◌∙◌, List, ◌++◌, map, arith, length, All, length-append, bytes_eq,
}
use mathlib.Core.Path.{ap₂, ap₂, subst}
use mathlib.Core.List.{append_assoc, map-append}
use k8spodlogreceiver.Prelude.Int.{max_int}
use k8spodlogreceiver.Logline.Line.{Line}
use k8spodlogreceiver.Logline.Batch.{Batch}
use k8spodlogreceiver.Cursor.Filter.{new_filter, keep_all}
use k8spodlogreceiver.Cursor.Counting.{Stands}
use k8spodlogreceiver.Cursor.Serving.{Served, Continues, keep_all-Served, Timed, Ascending}
use k8spodlogreceiver.Connection.{Consumed, Event}
use k8spodlogreceiver.Connection.Tracks.{accepted_bodies, accepted_bodies-append, body_of}
use k8spodlogreceiver.Connection.Rounds.{lines_of}
use k8spodlogreceiver.Connection.Reconnect.{Advanced, stream_connection-Advanced}
use k8spodlogreceiver.Connection.Tracks.{accepted_bodies-append}
use k8spodlogreceiver.Stream.Keeping.{connection, report_again, AllowedRounds, keeps_run}
use k8spodlogreceiver.Stream.{Stream, Round, take_over, run}

-- A stream that started after the first lines `base` of the log has brought in exactly the lines
-- that come next, up to where its cursor stands.
pub record Exact (log base : List Line) (s : Stream) : Type 0 where
  pub read : List Line
  pub tail : List Line
  pub cut : base ++ (read ++ tail) ≡ log
  pub accepted_are : accepted_bodies s.sent ≡ map body_of read
  pub stands : Stands s.resume (base ++ read)

-- The API server answers each request by a part of the log, as `Served` says.
abbrev pub Answered : List Line → Stream → List Event → Type 0
Answered log s es = Served s.resume (lines_of es) log

abbrev pub ServedRounds : List Line → Stream → List Round → Type 0
ServedRounds log = AllowedRounds (Answered log)

regroup :
    (a b c d k t log : List Line)
    → b ++ c ≡ k
    → k ++ d ≡ t
    → a ++ t ≡ log
    → (a ++ b) ++ (c ++ d) ≡ log
regroup a b c d k t log e f g =
    append_assoc a b (c ++ d)
    ∙ ap (λ xs. a ++ xs) (sym (append_assoc b c d) ∙ ap (λ xs. xs ++ d) e ∙ f)
    ∙ g

pub Exact-same :
    (log base : List Line) (s t : Stream)
    → t.sent ≡ s.sent
    → t.resume ≡ s.resume
    → Exact log base s
    → Exact log base t
Exact-same log base s t e r x = record {
  read = x.read;
  tail = x.tail;
  cut = x.cut;
  accepted_are = ap accepted_bodies e ∙ x.accepted_are;
  stands = subst (λ c. Stands c (base ++ x.read)) (sym r) x.stands;
}

module _ (log : List Line) (timed : All Timed log) (ascending : Ascending log)
    (short : length log < max_int) (base : List Line) where
  pub Exact-take_over :
      (s : Stream) (pipeline : ℕ → Batch → Consumed) (es : List Event)
      → Served s.resume (lines_of es) log
      → Exact log base s
      → Exact log base (take_over s (connection s pipeline es))
  unfolding take_over
  Exact-take_over s pipeline es h x = record {
    read = x.read ++ adv.forwarded;
    tail = adv.left ++ kept.more;
    cut =
        ap (λ xs. base ++ xs)
          (regroup x.read adv.forwarded adv.left kept.more _ x.tail (x.read ++ x.tail) adv.prefix
            kept.follows refl)
        ∙ x.cut;
    accepted_are =
        accepted_bodies-append s.sent (connection s pipeline es).sent
        ∙ ap₂ (λ xs ys. xs ++ ys) x.accepted_are adv.accepted_are
        ∙ sym (map-append body_of x.read adv.forwarded);
    stands = subst (Stands _) (append_assoc base x.read adv.forwarded) adv.stands;
  }
    where
      cut : (base ++ x.read) ++ x.tail ≡ log
      cut = append_assoc base x.read x.tail ∙ x.cut

      kept : Continues (keep_all (new_filter s.resume) (lines_of es)) x.tail
      kept =
          keep_all-Served s.resume (base ++ x.read) x.tail x.stands
            (subst (All Timed) (sym cut) timed) (subst Ascending (sym cut) ascending)
            (omega (arith, ap length cut)) (lines_of es)
            (subst (Served s.resume (lines_of es)) (sym cut) h)

      adv :
          Advanced s.resume
            (base ++ x.read)
            (keep_all (new_filter s.resume) (lines_of es))
            (connection s pipeline es)
      adv =
          stream_connection-Advanced pipeline s.max_batch s.meta s.resume (base ++ x.read) es
            x.stands
            (omega (
              arith,
              ap length cut,
              ap length kept.follows,
              length-append (base ++ x.read) x.tail,
              length-append (keep_all (new_filter s.resume) (lines_of es)) kept.more,
            ))

  pub Exact-told :
      (s : Stream) (pipeline : ℕ → Batch → Consumed) (es : List Event)
      → Served s.resume (lines_of es) log
      → Exact log base s
      → Exact log base
          (report_again (take_over s (connection s pipeline es)) (connection s pipeline es))
  Exact-told s pipeline es h x =
      Exact-same log base (take_over s (connection s pipeline es)) _ refl refl
        (Exact-take_over s pipeline es h x)

-- A container's log of fewer than 2^63 - 1 lines, all with timestamps, which never decrease. A
-- stream starts after the first lines `base` of the log, its cursor standing there (a container that
-- was never read: none of it, and the zero cursor), and the API server answers each request of
-- each connection by a part of the log that leaves out, in front, only lines before the cursor's
-- timestamp. Through any number of failed connects, broken streams, refused batches, recycled
-- connections and the final drain, the records that the pipeline has taken, or has refused for good,
-- are at every moment exactly those of the lines behind `base` up to some line, and the cursor stands
-- there: no line before the cursor is skipped, none comes twice, and the order is the log's.
pub run-Exact :
    (log base : List Line) (s : Stream) (is : List Round)
    → All Timed log
    → Ascending log
    → length log < max_int
    → ServedRounds log (record s { backoff = s.backoff_cfg.initial_interval }) is
    → Exact log base s
    → Exact log base (run s is).0
run-Exact log base s is t a l h x =
    keeps_run (Answered log) (Exact log base) (λ s t p. Exact-same log base s t p.sent p.resume)
      (λ s t es e. subst (λ c. Served c (lines_of es) log) (sym e)) (Exact-take_over log t a l base)
      (Exact-told log t a l base) s is h x
