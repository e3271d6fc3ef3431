-- ===== src/Container.antt =====
-- receiver.go: newContainerStream and streamContainerLogs, which run a container's stream on behalf of
-- the receiver. What other goroutines do meanwhile is not part of a run: the terminal flag and the
-- restart count, which they change, are inputs of the rounds.
pub mod Handover
pub mod Interleaving
use k8spodlogreceiver.Prelude.{
  ℕ, zero, suc, ◌+◌, ◌-◌, ◌*◌, ◌/◌, ◌%◌, ◌≤◌, ◌<◌, ◌≡◌, refl, sym, ap, ◌∙◌, ◌≢◌, ◌↔◌, ◌⊎◌, inl, inr,
  Bool, true, false, not, ◌&&◌, ◌||◌, Option, none, some, List, [], ◌∷◌, ◌++◌, map, arith, ltb, leb,
  ◌==◌, if◌then◌else◌, ==_iff, ltb→lt, lt→ltb, leb→le, Bool-cases, Option-cases, is_some, length,
  take, drop, keep_if, All, length-append, length-take_le, length-take, length-drop,
  take-append-drop, keep_if-append, Eq, same, same_iff, same_refl, Bytes, bytes_eq,
}
use k8spodlogreceiver.Prelude.Int.{ℤ, pos, negsuc}
use k8spodlogreceiver.Pod.{Pod}
use k8spodlogreceiver.Cursor.{Cursor}
use k8spodlogreceiver.Config.{Config, batch_size}
use k8spodlogreceiver.Receiver.{Receiver, cursor_for, advance_cursor, release_stream}
use k8spodlogreceiver.Stream.{Stream, Round, run}

-- An int that is not negative, as a number.
abbrev pub magnitude : ℤ → ℕ
magnitude (pos n) = n
magnitude (negsuc n) = 0

-- newContainerStream; the restart count is set by the first round, the backoff by `run`.
unfoldable pub new_container_stream : Config → Receiver → Pod → Bytes → Bytes → Stream
new_container_stream cfg r pod container_name key = record {
  meta = record {
    namespace = pod.namespace;
    pod_name = pod.name;
    pod_uid = pod.uid;
    container_name = container_name;
    node_name = pod.node_name;
    restart_count = pos 0;
  };
  since_seconds = cfg.since_seconds;
  backoff_cfg = cfg.reconnect_backoff;
  max_stream_lifetime = cfg.max_stream_lifetime;
  max_batch = magnitude (batch_size cfg);
  backoff = pos 0;
  resume = cursor_for r key;
  retrying_since = 0;
  first_attempt = true;
  reports = [];
  sent = [];
  reconnects = 0;
  waits = [];
}

-- The calls of onDelivered, in order.
unfoldable pub publish : Receiver → Bytes → ℕ → List Cursor → Receiver
publish r key gen [] = r
publish r key gen (c ∷ cs) = publish (advance_cursor r key gen c) key gen cs

-- streamContainerLogs, as far as the rounds go: the stream, and the receiver.
unfoldable pub stream_container_logs :
    Config → Receiver → Pod → Bytes → Bytes → ℕ → List Round → Stream × Receiver
unfolding publish new_container_stream
stream_container_logs cfg r pod container_name key gen is =
    let (s, going) = run (new_container_stream cfg r pod container_name key) is in
    let told = publish r key gen s.reports in
    (s, if going then told else release_stream told key gen)
