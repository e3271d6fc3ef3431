-- ===== src/Retry/Backoff.antt =====
-- The ladder of reconnect waits, and the ranges of the randomised waits.
use k8spodlogreceiver.Prelude.{
  ℕ, zero, suc, ◌+◌, ◌-◌, ◌*◌, ◌/◌, ◌≤◌, ◌<◌, ◌≡◌, refl, ap, ◌∙◌, ◌⊎◌, inl, inr, false, arith, ltb,
  if◌then◌else◌, bytes_eq,
}
use k8spodlogreceiver.Prelude.Int.{ℤ, pos, double, half, add, sub}
use k8spodlogreceiver.Retry.{next_backoff, jitter, spread, Fraction}

abbrev pub smaller : ℕ → ℕ → ℕ
smaller a b = if ltb b a then b else a

-- Waits below 2^62 ns, 146 years, can be doubled in an int64.
abbrev pub doubling_limit : ℕ
doubling_limit = 4611686018427387904

pub next_backoff-pos :
    (c m : ℕ) → c < doubling_limit → next_backoff (pos c) (pos m) ≡ pos (smaller (2 * c) m)
unfolding next_backoff double
next_backoff-pos c m h = ground arith

-- The wait after `n` rounds that brought nothing new.
unfoldable ladder : ℕ → ℤ → ℤ → ℤ
ladder zero initial max = initial
ladder (suc n) initial max = next_backoff (ladder n initial max) max

abbrev pub pow2 : ℕ → ℕ
pow2 zero = 1
pow2 (suc n) = 2 * pow2 n

smaller_twice : (p m : ℕ) → smaller (2 * smaller p m) m ≡ smaller (2 * p) m
smaller_twice p m = ground arith

-- The rungs of the ladder: from an initial wait not above the maximum, and a maximum below 2^62 ns,
-- the wait after `n` rounds is the initial one doubled `n` times, or the maximum where that is less.
ladder_rungs :
    (n i m : ℕ)
    → i ≤ m
    → m < doubling_limit
    → ladder n (pos i) (pos m) ≡ pos (smaller (pow2 n * i) m)
unfolding ladder
ladder_rungs zero i m h l = ground arith
ladder_rungs (suc n) i m h l =
    ap (λ w. next_backoff w (pos m)) (ladder_rungs n i m h l)
    ∙ next_backoff-pos (smaller (pow2 n * i) m) m (ground arith)
    ∙ ap pos (smaller_twice (pow2 n * i) m ∙ ap (λ q. smaller q m) (omega arith))

-- The rung after `k` doublings of the initial wait `i`, under the maximum `m`.
abbrev pub rung : ℕ → ℕ → ℕ → ℕ
rung i m k = smaller (pow2 k * i) m

pub rung_next :
    (i m k : ℕ)
    → m < doubling_limit
    → next_backoff (pos (rung i m k)) (pos m) ≡ pos (rung i m (suc k))
rung_next i m k l =
    next_backoff-pos (rung i m k) m (ground arith)
    ∙ ap pos (smaller_twice (pow2 k * i) m ∙ ap (λ q. smaller q m) (omega arith))

pub rung_zero : (i m : ℕ) → i ≤ m → rung i m 0 ≡ i
rung_zero i m h = ground arith

rung_low : (i m k : ℕ) → i ≤ m → i ≤ rung i m k
rung_low i m zero h = ground arith
rung_low i m (suc k) h = ground (arith, rung_low i m k h)

-- rand.Int64N: from 0 to below its argument, where that is positive.
abbrev pub Fair : (ℤ → ℤ) → Type 0
Fair draw = (h : ℕ) → 0 < h → (r : ℕ) × (draw (pos h) ≡ pos r) × (r < h)

-- The wait that is slept, for a rung `d` below 2^63 ns and a random draw below half of it: at least
-- half the rung, and below the rung.
jitter_range :
    (d r : ℕ)
    → d < 9223372036854775808
    → r < d / 2
    → (j : ℕ) × (jitter (pos d) (pos r) ≡ pos j) × (d / 2 ≤ j) × (j < d)
unfolding jitter half add
jitter_range d r h k = (d / 2 + r, ground arith, omega arith, omega arith)

-- A wait of at least half the initial interval, and at most the maximum.
abbrev pub IsWait : ℕ → ℕ → ℤ → Type 0
IsWait i m w = (j : ℕ) × (w ≡ pos j) × (i / 2 ≤ j) × (j ≤ m)

half_pos : (d : ℕ) → half (pos d) ≡ pos (d / 2)
unfolding half
half_pos d = ground arith

jitter_small : (d : ℕ) (x : ℤ) → d / 2 ≡ 0 → jitter (pos d) x ≡ pos d
unfolding jitter
jitter_small d x h = ground (arith, h, half_pos d)

jitter_draw :
    (d : ℕ) (draw : ℤ → ℤ)
    → Fair draw
    → d < doubling_limit
    → (j : ℕ) × (jitter (pos d) (draw (half (pos d))) ≡ pos j) × (d / 2 ≤ j) × (j ≤ d)
jitter_draw d draw f l = elim (zero_or_more (d / 2)) [
  | inl z ↦ (d, jitter_small d (draw (half (pos d))) z, omega arith, omega arith)
  | inr p ↦
      let r = f (d / 2) p in
      let j = jitter_range d r.0 (omega arith) r.2 in
      (j.0, ap (λ x. jitter (pos d) x) (ap draw (half_pos d) ∙ r.1) ∙ j.1, j.2, omega (arith, j.3))
]
  where
    zero_or_more : (n : ℕ) → (n ≡ 0) ⊎ (0 < n)
    zero_or_more zero = inl refl
    zero_or_more (suc n) = inr (omega arith)

pub jitter-IsWait :
    (i m k : ℕ) (draw : ℤ → ℤ)
    → i ≤ m
    → m < doubling_limit
    → Fair draw
    → IsWait i m (jitter (pos (rung i m k)) (draw (half (pos (rung i m k)))))
jitter-IsWait i m k draw h l f =
    let j = jitter_draw (rung i m k) draw f (ground arith) in
    (j.0, j.1, omega (arith, j.2, rung_low i m k h), ground (arith, j.3))

-- The lifetime of a connection, for a configured lifetime `d` from 1 to 2^63 - 1 ns, a positive fraction
-- whose span `s` of it is at most `d`, and a random draw below that span: more than `d - s`, and at
-- most `d`.
spread_range :
    (d r s : ℕ) (frac : Fraction)
    → 0 < d
    → d < 9223372036854775808
    → frac.not_positive ≡ false
    → frac.span_of (pos d) ≡ pos s
    → r < s
    → s ≤ d
    → (l : ℕ) × (spread (pos d) frac (pos r) ≡ pos l) × (d - s < l) × (l ≤ d)
unfolding spread sub
spread_range d r s frac p h f e k b = (d - r, ground arith, omega arith, omega arith)
