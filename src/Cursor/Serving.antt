-- ===== src/Cursor/Serving.antt =====
-- What a connection keeps of the part of a container's log that it is served.
use k8spodlogreceiver.Prelude.{
  ℕ, zero, suc, ◌≤◌, ◌<◌, ◌≡◌, refl, sym, ap, ◌∙◌, ◌⊎◌, inl, inr, List, [], ◌∷◌, ◌++◌, arith, ◌==◌,
  Bool-cases, length, All, length-append, bytes_eq,
}
use mathlib.Core.Path.{subst}
use k8spodlogreceiver.Cursor.{is_unset, Cursor}
use k8spodlogreceiver.Prelude.Int.{dec-pos, max_int}
use k8spodlogreceiver.Instant.{Instant}
use k8spodlogreceiver.Logline.Line.{Line}
use k8spodlogreceiver.Cursor.Filter.{new_filter, keep, keep_all}
use k8spodlogreceiver.Cursor.Counting.{
  count_at-append, count_at-le-length, All-UpTo_mono, count_at_above, Before, Stands, count_at,
  untimed, UpTo, FromOrUnset, All-append_right,
}
use k8spodlogreceiver.Cursor.Resume.{keep_all_from, resuming}

-- Of two ways to cut a list in two, one cut is at or before the other.
prefix_split {ℓ} :
    {A : Type ℓ} (xs ys zs ws : List A)
    → xs ++ ys ≡ zs ++ ws
    → ((mid : List A) × (zs ≡ xs ++ mid) × (ys ≡ mid ++ ws))
      ⊎ ((x : A) × (mid : List A) × (xs ≡ zs ++ (x ∷ mid)) × (ws ≡ (x ∷ mid) ++ ys))
prefix_split [] ys zs ws e = inl (zs, refl, e)
prefix_split (x ∷ xs) ys [] ws e = inr (x, xs, refl, sym e)
prefix_split (x ∷ xs) ys (z ∷ zs) ws e = elim (prefix_split xs ys zs ws (cc)) [
  | inl (mid, p, q) ↦ inl (mid, cc, q)
  | inr (y, mid, p, q) ↦ inr (y, mid, cc, q)
]

-- Every line carries a timestamp, and the timestamps never fall.
abbrev pub AtLeast : Instant → Line → Type 0
AtLeast t l = t ≤ l.timestamp

abbrev pub Timed : Line → Type 0
Timed l = 0 < l.timestamp

abbrev pub Ascending : List Line → Type 0
Ascending [] = Unit
Ascending (l ∷ ls) = All (AtLeast l.timestamp) ls × Ascending ls

All-append_left {κ} : (P : Line → Type κ) (xs ys : List Line) → All P (xs ++ ys) → All P xs
All-append_left P [] ys h = tt
All-append_left P (x ∷ xs) ys h = (h.0, All-append_left P xs ys h.1)

untimed_of_Timed : (ls : List Line) → All Timed ls → untimed ls ≡ []
unfolding untimed
untimed_of_Timed [] h = refl
untimed_of_Timed (l ∷ ls) h = ground (arith, untimed_of_Timed ls h.1)

none_of_Timed : (ls : List Line) → All Timed ls → All (UpTo 0) ls → ls ≡ []
none_of_Timed [] h a = refl
none_of_Timed (l ∷ ls) h a = absurd (omega (arith, h.0, a.0))

pub from_zero : (ls : List Line) → All (FromOrUnset 0) ls
from_zero [] = tt
from_zero (l ∷ ls) = (inr (omega arith), from_zero ls)

pub from_of_AtLeast :
    (s t : Instant) (ls : List Line) → t ≤ s → All (AtLeast s) ls → All (FromOrUnset t) ls
from_of_AtLeast s t [] h a = tt
from_of_AtLeast s t (l ∷ ls) h a = (inr (omega arith), from_of_AtLeast s t ls h a.1)

-- What comes behind a line with the timestamp `t` is not before it.
tail_from :
    (t : Instant) (read tail : List Line)
    → Ascending (read ++ tail)
    → 0 < count_at t read
    → All (FromOrUnset t) tail
unfolding count_at
tail_from t [] tail a h = absurd (omega arith)
tail_from t (x ∷ read) tail a h = elim (Bool-cases (x.timestamp == t)) [
  | inl e ↦
      from_of_AtLeast x.timestamp t tail (ground arith)
        (All-append_right (AtLeast x.timestamp) read tail a.0)
  | inr e ↦ tail_from t read tail a.1 (ground arith)
]

-- Part of what was read before is dropped whole.
keep_all_part :
    (t : Instant) (k : ℕ) (ls : List Line)
    → 0 < t
    → k < max_int
    → count_at t ls ≤ k
    → All (UpTo t) ls
    → keep_all (resuming t k) ls ≡ untimed ls
unfolding keep_all keep count_at untimed
keep_all_part t k [] z h e a = refl
keep_all_part t zero (l ∷ ls) z h e a = ground (arith, keep_all_part t zero ls z (omega arith))
keep_all_part t (suc k) (l ∷ ls) z h e a =
    ground (arith, keep_all_part t k ls z (omega arith), keep_all_part t (suc k) ls z h, dec-pos k)

-- The API server's answer to a request from the cursor `c`: a part of the log from some line on, where
-- each line before that one has a timestamp before the cursor's. A request carries the cursor's whole
-- second, and none for a container that was never read, which asks for the log from its start.
pub record Served (c : Cursor) (served log : List Line) : Type 0 where
  pub old : List Line
  pub rest : List Line
  pub cut : old ++ (served ++ rest) ≡ log
  pub behind : All (Before c.ts) old

-- The same, where the answer goes on to the end of the log.
abbrev pub ServedToEnd : Cursor → List Line → List Line → Type 0
ServedToEnd c served log = (old : List Line) × (old ++ served ≡ log) × All (Before c.ts) old

-- What is kept: the next part of the log behind what was read.
pub record Continues (kept tail : List Line) : Type 0 where
  pub more : List Line
  pub follows : kept ++ more ≡ tail

module _ (c : Cursor) (read tail : List Line) (stands : Stands c read)
    (timed : All Timed (read ++ tail)) (ascending : Ascending (read ++ tail))
    (short : length (read ++ tail) < max_int) where
  tail_ahead : All (FromOrUnset c.ts) tail
  tail_ahead = elim stands.attained [
    | inl z ↦ rw z (from_zero tail)
    | inr h ↦ tail_from c.ts read tail ascending h
  ]

  -- What is served ends before the end of what was read.
  keep_within :
      (old served m2 : List Line)
      → read ≡ old ++ (served ++ m2)
      → keep_all (new_filter c) served ≡ []
  unfolding new_filter
  keep_within old served m2 e = elim (Bool-cases (is_unset c.ts)) [
    | inl z ↦
        rw
          (none_of_Timed served timed_served
            (All-UpTo_mono c.ts 0 served (ground arith) latest_served))
          (unfold keep_all in refl)
    | inr z ↦
        rw (z, new_filter)
          (rw stands.counted (
            keep_all_part c.ts (count_at c.ts read) served (ground arith)
              (omega (arith, count_at-le-length c.ts read, length-append read tail))
              (omega (
                arith,
                ap (count_at c.ts) e,
                count_at-append c.ts old (served ++ m2),
                count_at-append c.ts served m2,
              ))
              latest_served
            ∙ untimed_of_Timed served timed_served))
  ]
    where
      timed_served : All Timed served
      timed_served = All-append_left Timed served m2 (
          All-append_right Timed old (served ++ m2)
            (subst (All Timed) e (All-append_left Timed read tail timed)))

      latest_served : All (UpTo c.ts) served
      latest_served = All-append_left (UpTo c.ts) served m2 (
          All-append_right (UpTo c.ts) old (served ++ m2) (subst (All (UpTo c.ts)) e stands.latest))

  -- What is served goes on past what was read.
  keep_past :
      (old mid post : List Line)
      → read ≡ old ++ mid
      → All (Before c.ts) old
      → All (FromOrUnset c.ts) post
      → keep_all (new_filter c) (mid ++ post) ≡ post
  keep_past old mid post e b p =
      keep_all_from c old mid post (omega (arith, ap length e, length-append read tail))
        (subst (Stands c) e stands) b p
      ∙ ap (λ xs. xs ++ post)
          (untimed_of_Timed mid (
            All-append_right Timed old mid
              (subst (All Timed) e (All-append_left Timed read tail timed))))

  -- The server cannot have left out a line that was not read.
  not_beyond :
      (old mid : List Line) (x : Line) → old ≡ read ++ (x ∷ mid) → All (Before c.ts) old → ⊥
  not_beyond old mid x e b =
      let b' = subst (All (Before c.ts)) e b in
      let x_before = (All-append_right (Before c.ts) read (x ∷ mid) b').0 in
      let none_at = count_at_above c.ts read (All-append_left (Before c.ts) read (x ∷ mid) b') in
      ground (arith, stands.attained, x_before, none_at)

  -- Of an answer that goes on to the end of the log, a connection keeps all that was not read.
  pub keep_all-ServedToEnd :
      (served : List Line)
      → ServedToEnd c served (read ++ tail)
      → keep_all (new_filter c) served ≡ tail
  keep_all-ServedToEnd served (old, cut, behind) = elim (prefix_split old served read tail cut) [
    | inr (x, mid, e, q) ↦ absurd (not_beyond old mid x e behind)
    | inl (mid, e, q) ↦ ap (keep_all (new_filter c)) q ∙ keep_past old mid tail e behind tail_ahead
  ]

  -- A connection from a cursor that stands after the part `read` of a log keeps, of any part of the
  -- log that answers its request, just the lines behind `read`, from the first of them on.
  pub keep_all-Served :
      (served : List Line)
      → Served c served (read ++ tail)
      → Continues (keep_all (new_filter c) served) tail
  keep_all-Served served h = elim (prefix_split h.old (served ++ h.rest) read tail h.cut) [
    | inr (x, mid, e, q) ↦ absurd (not_beyond h.old mid x e h.behind)
    | inl (mid, e, q) ↦ elim (prefix_split served h.rest mid tail q) [
      | inl (m2, e2, q2) ↦ record {
        more = tail;
        follows =
            ap (λ xs. xs ++ tail) (keep_within h.old served m2 (e ∙ ap (λ xs. h.old ++ xs) e2));
      }
      | inr (x, post, e2, q2) ↦ record {
        more = h.rest;
        follows =
            ap (λ xs. xs ++ h.rest)
              (ap (keep_all (new_filter c)) e2
                ∙ keep_past h.old mid (x ∷ post) e h.behind (
                    All-append_left (FromOrUnset c.ts) (x ∷ post) h.rest
                      (subst (All (FromOrUnset c.ts)) q2 tail_ahead)))
            ∙ sym q2;
      }
    ]
  ]
