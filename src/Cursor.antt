-- ===== src/Cursor.antt =====
-- internal/cursor/cursor.go: how far one container's log has been read.
pub mod Order
pub mod Filter
pub mod Counting
pub mod Resume
pub mod Serving
pub mod Json
pub mod Store
use k8spodlogreceiver.Prelude.{
  ℕ, zero, suc, ◌+◌, ◌-◌, ◌*◌, ◌/◌, ◌%◌, ◌≤◌, ◌<◌, ◌≡◌, refl, sym, ap, ◌∙◌, ◌≢◌, ◌↔◌, ◌⊎◌, inl, inr,
  Bool, true, false, not, ◌&&◌, ◌||◌, Option, none, some, List, [], ◌∷◌, ◌++◌, map, arith, ltb, leb,
  ◌==◌, if◌then◌else◌, ==_iff, ltb→lt, lt→ltb, leb→le, Bool-cases, Option-cases, is_some, length,
  take, drop, keep_if, All, length-append, length-take_le, length-take, length-drop,
  take-append-drop, keep_if-append, Eq, same, same_iff, same_refl, Bytes, bytes_eq,
}
use k8spodlogreceiver.Prelude.Int.{ℤ, pos, ltb_ℤ, inc}
use k8spodlogreceiver.Instant.{Instant, is_unset, later}
use k8spodlogreceiver.Logline.Line.{Line}

pub record Cursor : Type 0 where
  pub ts : Instant
  pub delivered : ℤ  -- Go's int

abbrev pub zero_cursor : Cursor
zero_cursor = record { ts = 0; delivered = pos 0 }

-- IsZero
abbrev pub is_zero : Cursor → Bool
is_zero c = is_unset c.ts

-- After
unfoldable pub after : Cursor → Cursor → Bool
after c other = if c.ts == other.ts then ltb_ℤ other.delivered c.delivered else later c.ts other.ts

-- Record: the cursor that the method leaves, and whether the position moved.
unfoldable pub record_line : Cursor → Instant → Cursor × Bool
record_line c t =
    if is_unset t
    then (c, false)
    else if later t c.ts
    then (record { ts = t; delivered = pos 1 }, true)
    else if t == c.ts
    then (record c { delivered = inc c.delivered }, true)
    else (c, false)

-- The cursor after the lines of a list, in order.
unfoldable pub record_all : Cursor → List Line → Cursor
record_all c [] = c
record_all c (l ∷ ls) = record_all (record_line c l.timestamp).0 ls
