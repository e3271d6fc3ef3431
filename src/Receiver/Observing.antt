-- ===== src/Receiver/Observing.antt =====
-- receiver.go: what the receiver tells of itself, in its metrics and in the line that Start logs.
use k8spodlogreceiver.Receiver.{Receiver, new_receiver}
use k8spodlogreceiver.Prelude.Int.{negsuc, pos, ℤ, mul}
use k8spodlogreceiver.Prelude.{
  ℕ, ◌≡◌, refl, Bool, false, not, Option, none, some, if◌then◌else◌, length, bytes_eq,
}

-- reasonRBACDenied, reasonPodGone and reasonOther
pub data Reason : Type 0 where
  rbac_denied pod_gone other_reason : Reason

-- What IsForbidden and IsNotFound of the Kubernetes API machinery say of an error.
pub record ApiError : Type 0 where
  pub is_forbidden : Bool
  pub is_not_found : Bool

-- classifyStreamError
unfoldable pub classify_stream_error : ApiError → Reason
classify_stream_error err =
    if err.is_forbidden then rbac_denied else if err.is_not_found then pod_gone else other_reason

-- recordActiveStreams: the value of the gauge, where there is telemetry and hence one.
unfoldable pub record_active_streams : Option ℕ → Receiver → Option ℕ
record_active_streams none r = none
record_active_streams (some before) r = some (length r.active_streams)

-- sinceForLog, up to how a duration is printed: none is the full available history.
unfoldable pub since_for_log : Option ℤ → Option ℤ
since_for_log none = none
since_for_log (some n) = some (mul n (pos 1000000000))

-- newLogsReceiver, where `obsrep` and `telemetry` say whether the collector's two builders return no
-- error; createLogsReceiver passes on what it returns.
unfoldable pub new_logs_receiver : Bool → Bool → Option Receiver
unfolding new_receiver
new_logs_receiver obsrep telemetry =
    if not obsrep then none else if not telemetry then none else some (new_receiver false)

-- A setting of since_seconds that Validate accepts, but which is too large: the log says something else.
since_wraps : since_for_log (some (pos 10000000000)) ≡ some (negsuc 8446744073709551615)
unfolding since_for_log mul
since_wraps = refl
