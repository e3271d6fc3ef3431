-- ===== src/Prelude/Int.antt =====
-- Signed 64-bit integers (Go's `int`, `int64` and `time.Duration`) over the native numbers.
use k8spodlogreceiver.Prelude.{
  ℕ, ◌+◌, ◌-◌, ◌*◌, ◌/◌, ◌%◌, ◌<◌, ◌≡◌, refl, Bool, true, false, arith, ltb, ◌==◌, if◌then◌else◌,
  bytes_eq,
}

-- `negsuc n` is -(n + 1).
pub data ℤ : Type 0 where
  pos : ℕ → ℤ
  negsuc : ℕ → ℤ

abbrev pub ltb_ℤ : ℤ → ℤ → Bool
ltb_ℤ (pos a) (pos b) = ltb a b
ltb_ℤ (pos a) (negsuc b) = false
ltb_ℤ (negsuc a) (pos b) = true
ltb_ℤ (negsuc a) (negsuc b) = ltb b a

abbrev pub eq_ℤ : ℤ → ℤ → Bool
eq_ℤ (pos a) (pos b) = a == b
eq_ℤ (pos a) (negsuc b) = false
eq_ℤ (negsuc a) (pos b) = false
eq_ℤ (negsuc a) (negsuc b) = a == b

abbrev pub max_int : ℕ
max_int = 9223372036854775807

-- The integer that 64 bits stand for in two's complement.
abbrev pub of_bits : ℕ → ℤ
of_bits u = if ltb u 9223372036854775808 then pos u else negsuc (18446744073709551615 - u)

-- The 64 bits of an integer in range.
abbrev pub bits : ℤ → ℕ
bits (pos n) = n % 18446744073709551616
bits (negsuc n) = 18446744073709551615 - n % 18446744073709551616

-- a++ and a-- at 64 bits: they wrap around.
unfoldable pub inc : ℤ → ℤ
inc a = of_bits ((bits a + 1) % 18446744073709551616)

unfoldable pub dec : ℤ → ℤ
dec a = of_bits ((bits a + 18446744073709551615) % 18446744073709551616)

-- a * 2 at 64 bits.
unfoldable pub double : ℤ → ℤ
double a = of_bits ((bits a * 2) % 18446744073709551616)

-- a - b at 64 bits.
unfoldable pub sub : ℤ → ℤ → ℤ
sub a b = of_bits ((bits a + (18446744073709551616 - bits b)) % 18446744073709551616)

-- a + b at 64 bits.
unfoldable pub add : ℤ → ℤ → ℤ
add a b = of_bits ((bits a + bits b) % 18446744073709551616)

-- a * b at 64 bits.
unfoldable pub mul : ℤ → ℤ → ℤ
mul a b = of_bits ((bits a * bits b) % 18446744073709551616)

-- a / 2, truncated towards zero.
unfoldable pub half : ℤ → ℤ
half (pos n) = pos (n / 2)
half (negsuc n) = if n == 0 then pos 0 else negsuc ((n + 1) / 2 - 1)

pub inc-pos : (n : ℕ) → n < max_int → inc (pos n) ≡ pos (n + 1)
unfolding inc
inc-pos n h = ground arith

pub dec-pos : (n : ℕ) → n < max_int → dec (pos (n + 1)) ≡ pos n
unfolding dec
dec-pos n h = ground arith

-- The counter's wrap-around: what 64 bits do at the largest value.
inc_wraps : inc (pos max_int) ≡ negsuc max_int
unfolding inc
inc_wraps = refl
