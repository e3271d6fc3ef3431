-- ===== src/Config/Ranges.antt =====
-- What a configuration that Validate accepts, and the defaults, guarantee to the other parts.
use k8spodlogreceiver.Prelude.{
  ℕ, zero, suc, ◌*◌, ◌<◌, ◌≡◌, refl, Bool, true, false, Option, none, some, arith, if◌then◌else◌,
  is_some, bytes_eq,
}
use k8spodlogreceiver.Prelude.Int.{ℤ, pos, negsuc, ltb_ℤ}
use k8spodlogreceiver.Logline.Split.{Behavior, split_lines, parse_behavior}
use k8spodlogreceiver.Config.{
  Config, validate, batch_size, flush_interval_of, max_log_size_of, log_size_behavior,
  pod_resync_period_of, negative, negative_if_set, default_pod_resync_period,
}

-- A number from 1 on.
abbrev pub Positive : ℤ → Type 0
Positive x = (n : ℕ) × (x ≡ pos n) × (0 < n)

-- A number from 0 on.
abbrev pub NotNegative : ℤ → Type 0
NotNegative x = (n : ℕ) × (x ≡ pos n)

Positive-or_default : (x : ℤ) (d : ℕ) → 0 < d → Positive (if ltb_ℤ (pos 0) x then x else pos d)
Positive-or_default (pos zero) d h = (d, ground arith, h)
Positive-or_default (pos (suc n)) d h = (suc n, ground arith, omega arith)
Positive-or_default (negsuc n) d h = (d, ground arith, h)

-- Whatever the configuration, accepted or not: batches hold at least one record, the flush interval
-- is above zero, and the largest record has at least one byte.
sizes-Positive :
    (cfg : Config)
    → Positive (batch_size cfg) × Positive (flush_interval_of cfg) × Positive (max_log_size_of cfg)
unfolding batch_size flush_interval_of max_log_size_of
sizes-Positive cfg = (
  Positive-or_default cfg.max_batch_size 1000 (omega arith),
  Positive-or_default cfg.flush_interval (200 * 1000000) (omega arith),
  Positive-or_default cfg.max_log_size (1024 * 1024) (omega arith),
)

not_negative : (x : ℤ) → negative x ≡ false → NotNegative x
not_negative (pos n) h = (n, refl)
not_negative (negsuc n) h = absurd (ground (arith, h))

resync_NotNegative :
    (p : Option ℤ)
    → negative_if_set p ≡ false
    → NotNegative (elim p [ none ↦ default_pod_resync_period | some d ↦ d ])
resync_NotNegative none h = (10 * 60 * 1000000000, ground arith)
resync_NotNegative (some d) h = not_negative d h

or_split :
    (o : Option Behavior) → is_some o ≡ true → o ≡ some (elim o [ none ↦ split_lines | some b ↦ b ])
or_split none h = absurd (ground (arith, h))
or_split (some b) h = refl

-- What Validate accepts.
pub record Accepted (cfg : Config) (retry_valid api_valid : Bool) : Type 0 where
  pub since : negative_if_set cfg.since_seconds ≡ false
  pub lifetime : NotNegative cfg.max_stream_lifetime
  pub resync : NotNegative (pod_resync_period_of cfg)
  pub initial : NotNegative cfg.reconnect_backoff.initial_interval
  pub max : NotNegative cfg.reconnect_backoff.max_interval
  pub elapsed : NotNegative cfg.reconnect_backoff.max_elapsed_time
  pub batch : NotNegative cfg.max_batch_size
  pub flush : NotNegative cfg.flush_interval
  pub line : NotNegative cfg.max_log_size
  pub behavior : parse_behavior cfg.max_log_size_behavior ≡ some (log_size_behavior cfg)
  pub others : (retry_valid ≡ true) × (api_valid ≡ true)

-- A configuration that Validate accepts has no negative setting of since_seconds, none of its
-- durations (the lifetime of a connection, the resync period, the three settings of the reconnect backoff
-- and the flush interval) is negative, nor is the batch size or the largest size of a record, the
-- behaviour for long lines that is used is the one that it names, not the fallback for an unknown
-- name, and the two parts that are validated elsewhere are valid.
pub validate-Accepted :
    (cfg : Config) (retry_valid api_valid : Bool)
    → validate cfg retry_valid api_valid ≡ none
    → Accepted cfg retry_valid api_valid
unfolding validate log_size_behavior pod_resync_period_of
validate-Accepted cfg retry_valid api_valid h = record {
  since = ground (arith, h);
  lifetime = not_negative cfg.max_stream_lifetime (ground (arith, h));
  resync = resync_NotNegative cfg.pod_resync_period (ground (arith, h));
  initial = not_negative cfg.reconnect_backoff.initial_interval (ground (arith, h));
  max = not_negative cfg.reconnect_backoff.max_interval (ground (arith, h));
  elapsed = not_negative cfg.reconnect_backoff.max_elapsed_time (ground (arith, h));
  batch = not_negative cfg.max_batch_size (ground (arith, h));
  flush = not_negative cfg.flush_interval (ground (arith, h));
  line = not_negative cfg.max_log_size (ground (arith, h));
  behavior = or_split (parse_behavior cfg.max_log_size_behavior) (ground (arith, h));
  others = (ground (arith, h), ground (arith, h));
}
