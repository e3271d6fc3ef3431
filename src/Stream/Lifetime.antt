-- ===== src/Stream/Lifetime.antt =====
-- stream.go: connectionContext, and how long it lets a connection live.
use k8spodlogreceiver.Prelude.Int.{ltb_ℤ, pos, ℤ, sub}
use k8spodlogreceiver.Stream.{Stream}
use k8spodlogreceiver.Retry.{Fraction, spread}
use k8spodlogreceiver.Prelude.{
  ℕ, ◌-◌, ◌≤◌, ◌<◌, ◌≡◌, ◌⊎◌, inl, inr, false, not, Option, none, some, arith, ◌==◌, if◌then◌else◌,
  Bool-cases, bytes_eq,
}

-- connectionContext: the timeout of the connection's context, none where it has no deadline; `jitter`
-- is streamLifetimeJitter, and rand.Int64N(span) of Spread returns `r`.
unfoldable pub connection_context : Stream → Fraction → ℤ → Option ℤ
connection_context s jitter r =
    if not (ltb_ℤ (pos 0) s.max_stream_lifetime)
    then none
    else some (spread s.max_stream_lifetime jitter r)

-- The lifetime cap of a stream is `d` ns, as every cap that Validate accepts; the jitter is positive, and
-- its part of `d` is `span` ns, at most `d`; the random draw is below that span where there is one. A
-- connection has no deadline exactly if the cap is zero; else its time is more than zero, at most the
-- cap, and at least the cap less the span.
pub connection_context-Within :
    (s : Stream) (jitter : Fraction) (d span r : ℕ)
    → s.max_stream_lifetime ≡ pos d
    → d < 9223372036854775808
    → jitter.not_positive ≡ false
    → jitter.span_of (pos d) ≡ pos span
    → span ≤ d
    → (r < span) ⊎ (span ≡ 0)
    → (connection_context s jitter (pos r) ≡ none) × (d ≡ 0)
      ⊎ ((l : ℕ) × (connection_context s jitter (pos r) ≡ some (pos l))
          × (0 < l)
          × (l ≤ d)
          × (d - span ≤ l))
unfolding connection_context spread sub
connection_context-Within s jitter d span r e b p f k h = elim (Bool-cases (d == 0)) [
  | inl z ↦ inl (ground arith, ground arith)
  | inr z ↦ elim (Bool-cases (span == 0)) [
    | inl y ↦ inr (d, ground arith, ground arith, omega arith, omega arith)
    | inr y ↦ inr (d - r, ground arith, ground arith, omega arith, ground arith)
  ]
]
