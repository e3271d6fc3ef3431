-- ===== src/System/Bringing.antt =====
-- Which lines of the log the streams have brought in.
use k8spodlogreceiver.Prelude.{
  Any-append_map, Any, length-map, ℕ, ◌+◌, ◌≤◌, ◌<◌, ap, inl, inr, List, [], ◌∷◌, ◌++◌, arith,
  length, All, bytes_eq,
}
use k8spodlogreceiver.Connection.Tracks.{body_of}
use k8spodlogreceiver.Stream.Growing.{taken-Later, taken}
use k8spodlogreceiver.Prelude.Int.{max_int}
use k8spodlogreceiver.Stream.Delivery.{run-Exact, Exact}
use k8spodlogreceiver.Cursor.Serving.{Ascending, Timed}
use k8spodlogreceiver.System.{another, this_one, Answers, now_at, GetsOn, Live}
use k8spodlogreceiver.Logline.Line.{Line}

module _ (log : List Line) where
  -- The line number `i` of the log is among those that the stream has brought in: from line
  -- `length base` on, the pipeline has accepted just the lines `exact.read` from it, and nothing else.
  pub record Brought (i : ℕ) (l : Live) : Type 0 where
    pub base : List Line
    pub exact : Exact log base (now_at l)
    pub from : length base ≤ i
    pub upto : i < length base + length exact.read

  -- The same, by what the stream has met.
  pub record Brings (i : ℕ) (l : Live) : Type 0 where
    pub base : List Line
    pub began : Exact log base l.first
    pub served : Answers log l.first l.met
    pub from : length base ≤ i
    pub upto : i < length base + taken (now_at l)

  -- What was brought in stays brought in while the streams go on.
  abbrev pub Grows : List Live → List Live → Type 0
  Grows ls ms = (i : ℕ) → Any (Brings i) ls → Any (Brings i) ms

  pub Grows-GetsOn : {ls ms : List Live} → GetsOn log ls ms → Grows ls ms
  Grows-GetsOn (this_one l ls is f a) i (inl b) = inl (record {
    base = b.base;
    began = b.began;
    served = a;
    from = b.from;
    upto = omega (arith, b.upto, taken-Later f l.first);
  })
  Grows-GetsOn (this_one l ls is f a) i (inr h) = inr h
  Grows-GetsOn (another l g) i (inl b) = inl b
  Grows-GetsOn (another l g) i (inr h) = inr (Grows-GetsOn g i h)

  pub Grows-earlier :
      (ls ms earlier : List Live) → Grows ls ms → Grows (ls ++ earlier) (ms ++ earlier)
  Grows-earlier ls ms earlier g i = Any-append_map (Brings i) ls ms earlier (g i)

  module _ (timed : All Timed log) (ascending : Ascending log) (short : length log < max_int) where
    Brought-Brings : (i : ℕ) (l : Live) → Brings i l → Brought i l
    Brought-Brings i l b =
        let x = run-Exact log b.base l.first l.met timed ascending short b.served b.began in
        record {
          base = b.base;
          exact = x;
          from = b.from;
          upto = omega (arith, b.upto, ap length x.accepted_are, length-map body_of x.read);
        }

    pub Any-Brought : (i : ℕ) (ls : List Live) → Any (Brings i) ls → Any (Brought i) ls
    Any-Brought i [] h = h
    Any-Brought i (l ∷ ls) (inl b) = inl (Brought-Brings i l b)
    Any-Brought i (l ∷ ls) (inr h) = inr (Any-Brought i ls h)
