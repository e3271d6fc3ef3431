-- ===== src/Instant.antt =====
-- Go's `time.Time` as the receiver uses it: nanoseconds since Go's zero time (1 January of the
-- year 1, UTC), so that the zero `Time` is 0. Times before the year 1 are not represented.
use k8spodlogreceiver.Prelude.{ℕ, ◌*◌, ◌/◌, Bool, ltb, ◌==◌}

abbrev pub Instant : Type 0
Instant = ℕ

-- t.IsZero()
abbrev pub is_unset : Instant → Bool
is_unset t = t == 0

-- a.Before(b)
abbrev pub earlier : Instant → Instant → Bool
earlier a b = ltb a b

-- a.After(b)
abbrev pub later : Instant → Instant → Bool
later a b = ltb b a

abbrev pub second : ℕ
second = 1000000000

-- A `metav1.Time` carries whole seconds.
abbrev pub whole_second : Instant → Instant
whole_second t = t / second * second
