-- ===== src/Cursor/Counting.antt =====
-- What a cursor counts: where it stands after the lines that it has recorded.
use k8spodlogreceiver.Prelude.{
  ℕ, ◌+◌, ◌≤◌, ◌<◌, ◌≡◌, refl, ◌⊎◌, inl, inr, not, ◌&&◌, List, [], ◌∷◌, ◌++◌, arith, ◌==◌,
  if◌then◌else◌, Bool-cases, length, All, length-append, bytes_eq,
}
use k8spodlogreceiver.Prelude.Int.{pos}
use k8spodlogreceiver.Instant.{Instant, is_unset}
use k8spodlogreceiver.Logline.Line.{Line}
use mathlib.Core.List.{append-nil, append_assoc}
use k8spodlogreceiver.Instant.{later}
use k8spodlogreceiver.Prelude.Int.{inc, inc-pos, max_int}
use k8spodlogreceiver.Cursor.{record_line, record_all, Cursor, zero_cursor}

-- How many lines carry the timestamp `t`; lines with no timestamp are not counted.
unfoldable pub count_at : Instant → List Line → ℕ
count_at t [] = 0
count_at t (l ∷ ls) = (if l.timestamp == t && not (is_unset t) then 1 else 0) + count_at t ls

-- The lines that carry no timestamp.
unfoldable pub untimed : List Line → List Line
untimed [] = []
untimed (l ∷ ls) = let rest = untimed ls in if is_unset l.timestamp then l ∷ rest else rest

abbrev pub UpTo : Instant → Line → Type 0
UpTo t l = l.timestamp ≤ t

abbrev pub Before : Instant → Line → Type 0
Before t l = l.timestamp < t

abbrev pub FromOrUnset : Instant → Line → Type 0
FromOrUnset t l = (l.timestamp ≡ 0) ⊎ (t ≤ l.timestamp)

pub count_at-append :
    (t : Instant) (xs ys : List Line) → count_at t (xs ++ ys) ≡ count_at t xs + count_at t ys
unfolding count_at
count_at-append t [] ys = omega arith
count_at-append t (x ∷ xs) ys = omega (arith, count_at-append t xs ys)

pub count_at-le-length : (t : Instant) (xs : List Line) → count_at t xs ≤ length xs
unfolding count_at
count_at-le-length t [] = omega arith
count_at-le-length t (x ∷ xs) = ground (arith, count_at-le-length t xs)

pub count_at_above : (t : Instant) (xs : List Line) → All (Before t) xs → count_at t xs ≡ 0
unfolding count_at
count_at_above t [] h = refl
count_at_above t (x ∷ xs) h = ground (arith, count_at_above t xs h.1)

pub All-UpTo_mono : (s t : Instant) (xs : List Line) → s ≤ t → All (UpTo s) xs → All (UpTo t) xs
All-UpTo_mono s t [] h a = tt
All-UpTo_mono s t (x ∷ xs) h a = (omega arith, All-UpTo_mono s t xs h a.1)

All-Before_of_UpTo : (s t : Instant) (xs : List Line) → s < t → All (UpTo s) xs → All (Before t) xs
All-Before_of_UpTo s t [] h a = tt
All-Before_of_UpTo s t (x ∷ xs) h a = (omega arith, All-Before_of_UpTo s t xs h a.1)

pub All-append {κ} :
    (P : Line → Type κ) (xs ys : List Line) → All P xs → All P ys → All P (xs ++ ys)
All-append P [] ys hx hy = hy
All-append P (x ∷ xs) ys hx hy = (hx.0, All-append P xs ys hx.1 hy)

pub All-append_right {κ} : (P : Line → Type κ) (xs ys : List Line) → All P (xs ++ ys) → All P ys
All-append_right P [] ys h = h
All-append_right P (x ∷ xs) ys h = All-append_right P xs ys h.1

-- The cursor `c` stands after the lines `read`: it holds their latest timestamp and how many of
-- them carry it.
pub record Stands (c : Cursor) (read : List Line) : Type 0 where
  pub counted : c.delivered ≡ pos (count_at c.ts read)
  pub latest : All (UpTo c.ts) read
  pub attained : (c.ts ≡ 0) ⊎ (0 < count_at c.ts read)

pub Stands-zero : Stands zero_cursor []
unfolding count_at
Stands-zero = record { counted = refl; latest = tt; attained = inl refl }

-- `All (UpTo _)` over an appended line.
All-snoc :
    (t : Instant) (xs : List Line) (l : Line)
    → All (UpTo t) xs
    → l.timestamp ≤ t
    → All (UpTo t) (xs ++ l ∷ [])
All-snoc t xs l h p = All-append (UpTo t) xs (l ∷ []) h (p, tt)

-- A later timestamp starts a new count.
Stands-later :
    (c : Cursor) (read : List Line) (l : Line)
    → c.ts < l.timestamp
    → Stands c read
    → Stands (record { ts = l.timestamp; delivered = pos 1 }) (read ++ l ∷ [])
unfolding count_at
Stands-later c read l p s = record {
  counted = ground (
    arith,
    count_at-append l.timestamp read (l ∷ []),
    count_at_above l.timestamp read (All-Before_of_UpTo c.ts l.timestamp read p s.latest),
  );
  latest =
      All-snoc l.timestamp read l (All-UpTo_mono c.ts l.timestamp read (omega arith) s.latest)
        (omega arith);
  attained = inr (ground (arith, count_at-append l.timestamp read (l ∷ [])));
}

-- The same timestamp counts one more.
Stands-same :
    (c : Cursor) (read : List Line) (l : Line)
    → l.timestamp ≡ c.ts
    → 0 < c.ts
    → length read < max_int
    → Stands c read
    → Stands (record c { delivered = inc c.delivered }) (read ++ l ∷ [])
unfolding count_at
Stands-same c read l p z h s = record {
  counted = ground (
    arith,
    count_at-append c.ts read (l ∷ []),
    count_at-le-length c.ts read,
    inc-pos (count_at c.ts read),
  );
  latest = All-snoc c.ts read l s.latest (omega arith);
  attained = inr (ground (arith, count_at-append c.ts read (l ∷ [])));
}

-- An earlier timestamp, or none, changes nothing.
Stands-skip :
    (c : Cursor) (read : List Line) (l : Line)
    → (l.timestamp ≡ 0) ⊎ (l.timestamp < c.ts)
    → Stands c read
    → Stands c (read ++ l ∷ [])
unfolding count_at
Stands-skip c read l p s = record {
  counted = ground (arith, count_at-append c.ts read (l ∷ []));
  latest = All-snoc c.ts read l s.latest (ground arith);
  attained = ground (arith, s.attained, count_at-append c.ts read (l ∷ []));
}

pub Stands-record_line :
    (c : Cursor) (read : List Line) (l : Line)
    → length read < max_int
    → Stands c read
    → Stands (record_line c l.timestamp).0 (read ++ l ∷ [])
unfolding record_line
Stands-record_line c read l h s = elim (Bool-cases (is_unset l.timestamp)) [
  | inl z ↦ rw (z, record_line) (Stands-skip c read l (inl (ground arith)) s)
  | inr z ↦ elim (Bool-cases (later l.timestamp c.ts)) [
    | inl q ↦ rw (z, record_line) (rw (q, record_line) (Stands-later c read l (ground arith) s))
    | inr q ↦ elim (Bool-cases (l.timestamp == c.ts)) [
      | inl r ↦
          rw (z, record_line)
            (rw (q, record_line)
              (rw (r, record_line) (Stands-same c read l (ground arith) (ground arith) h s)))
      | inr r ↦
          rw (z, record_line)
            (rw (q, record_line)
              (rw (r, record_line) (Stands-skip c read l (inr (ground arith)) s)))
    ]
  ]
]

-- After the lines `ls` on top of `read`, the cursor stands after both, whatever their order.
pub Stands-record_all :
    (ls : List Line) (c : Cursor) (read : List Line)
    → length read + length ls < max_int
    → Stands c read
    → Stands (record_all c ls) (read ++ ls)
unfolding record_all
Stands-record_all [] c read h s = rw append-nil s
Stands-record_all (l ∷ ls) c read h s = rw (append_assoc read (l ∷ []) ls) at (
    Stands-record_all ls (record_line c l.timestamp).0 (read ++ l ∷ [])
      (omega (arith, length-append read (l ∷ []))) (Stands-record_line c read l (omega arith) s))

pub record_all-append :
    (c : Cursor) (xs ys : List Line) → record_all c (xs ++ ys) ≡ record_all (record_all c xs) ys
unfolding record_all
record_all-append c [] ys = refl
record_all-append c (x ∷ xs) ys = record_all-append (record_line c x.timestamp).0 xs ys
