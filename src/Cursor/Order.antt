-- ===== src/Cursor/Order.antt =====
-- The order of positions, and how `Record` moves one.
use k8spodlogreceiver.Prelude.{
  ℕ, ◌<◌, ◌≡◌, ap, ◌⊎◌, inl, inr, true, false, arith, if◌then◌else◌, Bool-cases, bytes_eq,
}
use k8spodlogreceiver.Prelude.Int.{ℤ, pos, ltb_ℤ, inc-pos, max_int}
use k8spodlogreceiver.Instant.{Instant, is_unset, later}
use k8spodlogreceiver.Cursor.{Cursor, after, record_line}

pub ltb_ℤ_total : (a b : ℤ) → (ltb_ℤ a b ≡ true) ⊎ ((ltb_ℤ b a ≡ true) ⊎ (a ≡ b))
ltb_ℤ_total a b = ground arith

-- `After` is a strict linear order of positions: no position is after itself, it is transitive,
-- and of two different positions one is after the other.
pub after_strict_order :
    (a b c : Cursor)
    → (after a a ≡ false)
      × (after a b ≡ true → after b c ≡ true → after a c ≡ true)
      × ((after a b ≡ true) ⊎ ((after b a ≡ true) ⊎ (a ≡ b)))
unfolding after
after_strict_order a b c =
    (ground arith, ground arith, ground (arith, ltb_ℤ_total a.delivered b.delivered))

-- `Record`, below the largest count: it reports a move exactly when the record has a timestamp
-- not before the cursor's, a cursor that it reports as moved is after the old one, and
-- otherwise the cursor is unchanged.
record_line_moves :
    (c : Cursor) (t : Instant) (n : ℕ)
    → c.delivered ≡ pos n
    → n < max_int
    → ((record_line c t).1 ≡ (if is_unset t then false else if later c.ts t then false else true))
      × ((record_line c t).1 ≡ true → after (record_line c t).0 c ≡ true)
      × ((record_line c t).1 ≡ false → (record_line c t).0 ≡ c)
unfolding after record_line
record_line_moves c t n e h = (ground arith, ground (arith, inc-pos n), ground arith)

-- `d` is not before `c`.
abbrev pub NotBefore : Cursor → Cursor → Type 0
NotBefore c d = after c d ≡ false

pub NotBefore-refl : (c : Cursor) → NotBefore c c
NotBefore-refl c = (after_strict_order c c c).0

pub NotBefore-trans : (a b c : Cursor) → NotBefore a b → NotBefore b c → NotBefore a c
NotBefore-trans a b c h k = elim (Bool-cases (after a c)) [
  | inr e ↦ e
  | inl e ↦ elim (after_strict_order a b c).2 [
    | inl l ↦ absurd (ground (arith, h, l))
    | inr (inl l) ↦ absurd (ground (arith, k, (after_strict_order b a c).1 l e))
    | inr (inr l) ↦ absurd (ground (arith, k, ap (λ x. after x c) l, e))
  ]
]

-- Recording a line, below the largest count, moves no cursor back.
pub NotBefore-record_line :
    (c : Cursor) (t : Instant) (n : ℕ)
    → c.delivered ≡ pos n
    → n < max_int
    → NotBefore c (record_line c t).0
NotBefore-record_line c t n e h =
    let m = record_line_moves c t n e h in
    elim (Bool-cases (record_line c t).1) [
      | inl k ↦ elim (Bool-cases (after c (record_line c t).0)) [
        | inr q ↦ q
        | inl q ↦ absurd (
            ground (
              arith,
              (after_strict_order c c c).0,
              (after_strict_order c (record_line c t).0 c).1 q (m.1 k),
            ))
      ]
      | inr k ↦ rw (m.2 k) (NotBefore-refl c)
    ]
