-- ===== src/Stream/Requests.antt =====
-- stream.go: the requests of `open` and of drainTerminalLogs, and that an API server which honours
-- them serves what a connection can resume from. The container's log, as the API server holds it,
-- is a list of lines.
use k8spodlogreceiver.Prelude.{
  ℕ, ◌≡◌, refl, ap, ◌∙◌, ◌⊎◌, inl, inr, Bool, true, false, not, Option, none, some, List, [], ◌∷◌,
  ◌++◌, arith, if◌then◌else◌, Bool-cases, take, drop, keep_if, All, take-append-drop, Bytes,
  bytes_eq,
}
use k8spodlogreceiver.Cursor.{is_zero, Cursor}
use k8spodlogreceiver.Stream.{ℤ, Event, stream_start_point, Stream}
use k8spodlogreceiver.Logline.Line.{Line}
use k8spodlogreceiver.Instant.{earlier, whole_second, Instant}
use k8spodlogreceiver.Cursor.Serving.{Served, Ascending, Timed, from_of_AtLeast}
use k8spodlogreceiver.Cursor.Counting.{Before}
use k8spodlogreceiver.Cursor.Json.{keep_if-All}
use k8spodlogreceiver.Connection.Rounds.{lines_of}

-- The fields of corev1.PodLogOptions that the receiver sets.
pub record PodLogOptions : Type 0 where
  pub container : Bytes
  pub follow : Bool
  pub timestamps : Bool
  pub since_time : Option Instant
  pub since_seconds : Option ℤ

-- open, up to the call of the API server, at the time `now`
unfoldable pub open_options : Stream → Instant → PodLogOptions
unfolding stream_start_point
open_options s now =
    let (since_time, since_seconds) = stream_start_point s.resume.ts s.since_seconds now in
    record {
      container = s.meta.container_name;
      follow = true;
      timestamps = true;
      since_time = since_time;
      since_seconds = since_seconds;
    }

-- drainTerminalLogs, up to the call of the API server
unfoldable pub drain_options : Stream → PodLogOptions
drain_options s = record {
  container = s.meta.container_name;
  follow = false;
  timestamps = true;
  since_time = if is_zero s.resume then none else some s.resume.ts;
  since_seconds = none;
}

-- The documented answers of the API server: the lines from the whole second of `since_time` on, and
-- all of them where neither field is set.
pub record Honours (api : PodLogOptions → List Line → List Line) (log : List Line) : Type 0 where
  pub since :
      (o : PodLogOptions) (t : Instant)
      → o.since_time ≡ some t
      → api o log ≡ keep_if (λ l. not (earlier l.timestamp (whole_second t))) log
  pub full : (o : PodLogOptions) → o.since_time ≡ none → o.since_seconds ≡ none → api o log ≡ log

-- What lies before the instant `w`.
record Cut (w : Instant) (log kept : List Line) : Type 0 where
  old : List Line
  cut : old ++ kept ≡ log
  behind : All (Before w) old

Cut-keep_if :
    (w : Instant) (log : List Line)
    → All Timed log
    → Ascending log
    → Cut w log (keep_if (λ l. not (earlier l.timestamp w)) log)
Cut-keep_if w [] t a = record { old = []; cut = refl; behind = tt }
Cut-keep_if w (l ∷ log) t a = elim (Bool-cases (earlier l.timestamp w)) [
  | inl e ↦
      let x = Cut-keep_if w log t.1 a.1 in
      rw e
        (record { old = l ∷ x.old; cut = ap (◌∷◌ l) x.cut; behind = (ground (arith, e), x.behind) })
  | inr e ↦ record {
    old = [];
    cut =
        keep_if-All w (l ∷ log)
          (inr (ground (arith, e)), from_of_AtLeast l.timestamp w log (ground (arith, e)) a.0) t;
    behind = tt;
  }
]

Before-whole_second :
    (t : Instant) (ls : List Line) → All (Before (whole_second t)) ls → All (Before t) ls
Before-whole_second t [] h = tt
Before-whole_second t (l ∷ ls) h = (omega (arith, h.0), Before-whole_second t ls h.1)

Served-since :
    (c : Cursor) (served log : List Line) (n : ℕ)
    → All Timed log
    → Ascending log
    → served ≡ take n (keep_if (λ l. not (earlier l.timestamp (whole_second c.ts))) log)
    → Served c served log
Served-since c served log n t a e =
    let x = Cut-keep_if (whole_second c.ts) log t a in
    record {
      old = x.old;
      rest = drop n (keep_if (λ l. not (earlier l.timestamp (whole_second c.ts))) log);
      cut =
          ap
            (λ xs.
              x.old
              ++ (xs ++ drop n (keep_if (λ l. not (earlier l.timestamp (whole_second c.ts))) log)))
            e
          ∙ ap (λ xs. x.old ++ xs)
              (take-append-drop n
                (keep_if (λ l. not (earlier l.timestamp (whole_second c.ts))) log))
          ∙ x.cut;
      behind = Before-whole_second c.ts x.old x.behind;
    }

Served-full :
    (c : Cursor) (served log : List Line) (n : ℕ) → served ≡ take n log → Served c served log
Served-full c served log n e = record {
  old = [];
  rest = drop n log;
  cut = ap (λ xs. xs ++ drop n log) e ∙ take-append-drop n log;
  behind = tt;
}

open_since :
    (s : Stream) (now : Instant)
    → is_zero s.resume ≡ false
    → (open_options s now).since_time ≡ some s.resume.ts
unfolding open_options
open_since s now z = ground (arith, z)

open_full :
    (s : Stream) (now : Instant)
    → is_zero s.resume ≡ true
    → s.since_seconds ≡ none
    → ((open_options s now).since_time ≡ none) × ((open_options s now).since_seconds ≡ none)
unfolding open_options
open_full s now z e = (ground (arith, z, e), ground (arith, z, e))

drain_since :
    (s : Stream) → is_zero s.resume ≡ false → (drain_options s).since_time ≡ some s.resume.ts
unfolding drain_options
drain_since s z = ground (arith, z)

drain_full :
    (s : Stream)
    → is_zero s.resume ≡ true
    → ((drain_options s).since_time ≡ none) × ((drain_options s).since_seconds ≡ none)
unfolding drain_options
drain_full s z = (ground (arith, z), refl)

-- A container's log, all of whose lines have timestamps, which never decrease, and an API server
-- that honours the two time fields. A stream that has a position, or that asks for the full
-- history: if the connection of `open` or that of the final drain brings whole lines only, those of the
-- answer up to its end or up to a break between two lines, however early, then what it was served is
-- what the stream can resume from. A break inside a line is not covered.
pub request-Served :
    (api : PodLogOptions → List Line → List Line) (log : List Line) (s : Stream) (now : Instant)
    (n : ℕ) (es : List Event)
    → All Timed log
    → Ascending log
    → Honours api log
    → (is_zero s.resume ≡ false) ⊎ (s.since_seconds ≡ none)
    → (lines_of es ≡ take n (api (open_options s now) log))
      ⊎ (lines_of es ≡ take n (api (drain_options s) log))
    → Served s.resume (lines_of es) log
request-Served api log s now n es t a h r e = elim (Bool-cases (is_zero s.resume)) [
  | inr z ↦ elim e [
    | inl o ↦
        Served-since s.resume (lines_of es) log n t a
          (o ∙ ap (take n) (h.since (open_options s now) s.resume.ts (open_since s now z)))
    | inr d ↦
        Served-since s.resume (lines_of es) log n t a
          (d ∙ ap (take n) (h.since (drain_options s) s.resume.ts (drain_since s z)))
  ]
  | inl z ↦ elim e [
    | inl o ↦
        let f = open_full s now z (without_position r z) in
        Served-full s.resume (lines_of es) log n
          (o ∙ ap (take n) (h.full (open_options s now) f.0 f.1))
    | inr d ↦
        let f = drain_full s z in
        Served-full s.resume (lines_of es) log n
          (d ∙ ap (take n) (h.full (drain_options s) f.0 f.1))
  ]
]
  where
    without_position :
        (is_zero s.resume ≡ false) ⊎ (s.since_seconds ≡ none)
        → is_zero s.resume ≡ true
        → s.since_seconds ≡ none
    without_position (inl x) z = absurd (ground (arith, x, z))
    without_position (inr q) z = q
