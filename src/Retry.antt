-- ===== src/Retry.antt =====
-- internal/retry/retry.go, without SleepOrDone, whose result is an input of the stream's loop.
-- A `time.Duration` is an int64 of nanoseconds.
pub mod Backoff
use k8spodlogreceiver.Prelude.{
  ℕ, zero, suc, ◌+◌, ◌-◌, ◌*◌, ◌/◌, ◌%◌, ◌≤◌, ◌<◌, ◌≡◌, refl, sym, ap, ◌∙◌, ◌≢◌, ◌↔◌, ◌⊎◌, inl, inr,
  Bool, true, false, not, ◌&&◌, ◌||◌, Option, none, some, List, [], ◌∷◌, ◌++◌, map, arith, ltb, leb,
  ◌==◌, if◌then◌else◌, ==_iff, ltb→lt, lt→ltb, leb→le, Bool-cases, Option-cases, is_some, length,
  take, drop, keep_if, All, length-append, length-take_le, length-take, length-drop,
  take-append-drop, keep_if-append, Eq, same, same_iff, same_refl, Bytes, bytes_eq,
}
use k8spodlogreceiver.Prelude.Int.{ℤ, pos, negsuc, ltb_ℤ, double, half, add, sub}

-- NextBackoff
unfoldable pub next_backoff : ℤ → ℤ → ℤ
next_backoff current max = let next = double current in if ltb_ℤ max next then max else next

-- Jitter, where rand.Int64N(half) returns `r`
unfoldable pub jitter : ℤ → ℤ → ℤ
jitter d r = let h = half d in if ltb_ℤ (pos 0) h then add h r else d

-- Go's float64 as Spread uses it: the two tests of `frac`, and int64(float64(d) * frac), with
-- `frac` cut to 1.
pub record Fraction : Type 0 where
  pub not_positive : Bool
  pub span_of : ℤ → ℤ

-- Spread, where rand.Int64N(span) returns `r`
unfoldable pub spread : ℤ → Fraction → ℤ → ℤ
spread d frac r =
    if not (ltb_ℤ (pos 0) d) || frac.not_positive
    then d
    else let span = frac.span_of d in if ltb_ℤ (pos 0) span then sub d r else d
