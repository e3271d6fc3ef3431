-- ===== src/Config.antt =====
-- config.go and factory.go, and the accessors of receiver.go that put the defaults in.
-- Durations are int64 nanoseconds. The settings of the API client and of the pipeline's retries
-- belong to internal/k8sconfig and internal/consumerretry: what their Validate returns is an argument.
pub mod Ranges
use k8spodlogreceiver.Prelude.{
  ℕ, zero, suc, ◌+◌, ◌-◌, ◌*◌, ◌/◌, ◌%◌, ◌≤◌, ◌<◌, ◌≡◌, refl, sym, ap, ◌∙◌, ◌≢◌, ◌↔◌, ◌⊎◌, inl, inr,
  Bool, true, false, not, ◌&&◌, ◌||◌, Option, none, some, List, [], ◌∷◌, ◌++◌, map, arith, ltb, leb,
  ◌==◌, if◌then◌else◌, ==_iff, ltb→lt, lt→ltb, leb→le, Bool-cases, Option-cases, is_some, length,
  take, drop, keep_if, All, length-append, length-take_le, length-take, length-drop,
  take-append-drop, keep_if-append, Eq, same, same_iff, same_refl, Bytes, bytes_eq,
}
use k8spodlogreceiver.Prelude.Int.{ℤ, pos, ltb_ℤ}
use k8spodlogreceiver.Logline.Split.{Behavior, split_lines, split_name, parse_behavior}
use k8spodlogreceiver.Stream.{BackoffConfig}

pub record Config : Type 0 where
  pub namespaces : List Bytes
  pub pod_label_selector : Bytes
  pub since_seconds : Option ℤ
  pub storage_id : Option Bytes
  pub max_stream_lifetime : ℤ
  pub pod_resync_period : Option ℤ
  pub reconnect_backoff : BackoffConfig
  pub max_batch_size : ℤ
  pub flush_interval : ℤ
  pub max_log_size : ℤ
  pub max_log_size_behavior : Bytes

abbrev pub milliseconds : ℕ → ℤ
milliseconds n = pos (n * 1000000)

abbrev pub seconds : ℕ → ℤ
seconds n = pos (n * 1000000000)

abbrev pub default_max_batch_size : ℤ
default_max_batch_size = pos 1000

abbrev pub default_flush_interval : ℤ
default_flush_interval = milliseconds 200

abbrev pub default_max_log_size : ℤ
default_max_log_size = pos (1024 * 1024)

abbrev pub default_pod_resync_period : ℤ
default_pod_resync_period = seconds (10 * 60)

abbrev pub default_max_stream_lifetime : ℤ
default_max_stream_lifetime = seconds 3600

abbrev pub default_since_seconds : ℤ
default_since_seconds = pos 300

-- createDefaultConfig
unfoldable pub create_default_config : Config
create_default_config = record {
  namespaces = [];
  pod_label_selector = [];
  since_seconds = some default_since_seconds;
  storage_id = none;
  max_stream_lifetime = default_max_stream_lifetime;
  pod_resync_period = none;
  reconnect_backoff = record {
    initial_interval = seconds 1;
    max_interval = seconds 30;
    max_elapsed_time = pos 0;
  };
  max_batch_size = default_max_batch_size;
  flush_interval = default_flush_interval;
  max_log_size = default_max_log_size;
  max_log_size_behavior = split_name;
}

-- The error of Validate, by the setting that it names.
pub data Setting : Type 0 where
  since_seconds_setting max_stream_lifetime_setting pod_resync_period_setting : Setting
  initial_interval_setting max_interval_setting max_elapsed_time_setting : Setting
  retry_setting max_batch_size_setting flush_interval_setting max_log_size_setting : Setting
  max_log_size_behavior_setting api_setting : Setting

-- x < 0
abbrev pub negative : ℤ → Bool
negative x = ltb_ℤ x (pos 0)

-- p != nil && *p < 0
abbrev pub negative_if_set : Option ℤ → Bool
negative_if_set none = false
negative_if_set (some x) = negative x

-- Validate, where `retry_valid` and `api_valid` say whether the two parts return nil; `none` is nil.
unfoldable pub validate : Config → Bool → Bool → Option Setting
validate cfg retry_valid api_valid =
    if negative_if_set cfg.since_seconds
    then some since_seconds_setting
    else if negative cfg.max_stream_lifetime
    then some max_stream_lifetime_setting
    else if negative_if_set cfg.pod_resync_period
    then some pod_resync_period_setting
    else if negative cfg.reconnect_backoff.initial_interval
    then some initial_interval_setting
    else if negative cfg.reconnect_backoff.max_interval
    then some max_interval_setting
    else if negative cfg.reconnect_backoff.max_elapsed_time
    then some max_elapsed_time_setting
    else if not retry_valid
    then some retry_setting
    else if negative cfg.max_batch_size
    then some max_batch_size_setting
    else if negative cfg.flush_interval
    then some flush_interval_setting
    else if negative cfg.max_log_size
    then some max_log_size_setting
    else if not (is_some (parse_behavior cfg.max_log_size_behavior))
    then some max_log_size_behavior_setting
    else if not api_valid
    then some api_setting
    else none

-- podResyncPeriod, batchSize, flushInterval, maxLogSize and logSizeBehavior, on a configuration that
-- is not nil
unfoldable pub pod_resync_period_of : Config → ℤ
pod_resync_period_of cfg = elim cfg.pod_resync_period [
  | none ↦ default_pod_resync_period
  | some d ↦ d
]

unfoldable pub batch_size : Config → ℤ
batch_size cfg =
    if ltb_ℤ (pos 0) cfg.max_batch_size then cfg.max_batch_size else default_max_batch_size

unfoldable pub flush_interval_of : Config → ℤ
flush_interval_of cfg =
    if ltb_ℤ (pos 0) cfg.flush_interval then cfg.flush_interval else default_flush_interval

unfoldable pub max_log_size_of : Config → ℤ
max_log_size_of cfg =
    if ltb_ℤ (pos 0) cfg.max_log_size then cfg.max_log_size else default_max_log_size

unfoldable pub log_size_behavior : Config → Behavior
log_size_behavior cfg = elim (parse_behavior cfg.max_log_size_behavior) [
  | none ↦ split_lines
  | some b ↦ b
]
