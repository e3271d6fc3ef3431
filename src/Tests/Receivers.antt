-- ===== src/Tests/Receivers.antt =====
-- The receiver's bookkeeping, stream keys and pods on concrete inputs.
use k8spodlogreceiver.Prelude.{
  ◌≡◌, refl, true, false, not, none, some, [], ◌∷◌, arith, Bytes, bytes_eq,
}
use k8spodlogreceiver.Prelude.Int.{pos}
use k8spodlogreceiver.Prelude.Maps.{lookup, has, put}
use k8spodlogreceiver.StreamKey.{
  stream_key, pod_uid_from_stream_key, pod_uid-stream_key, stream_key_injective,
}
use k8spodlogreceiver.Pod.{
  Pod, Container, ContainerStatus, always, pod_containers, container_has_started,
}
use k8spodlogreceiver.Receiver.{
  Receiver, new_receiver, on_pod_deleted, ensure_stream, delete_container, ensure_streams,
  release_stream, advance_cursor, prune_stale_cursors,
}
use k8spodlogreceiver.Cursor.Store.Expiry.{IsMap}
use k8spodlogreceiver.Receiver.Pruning.{prune_stale_cursors_exact}
use k8spodlogreceiver.Receiver.Reviving.{stream_after_release}
use k8spodlogreceiver.Receiver.{on_pod_updated}
use k8spodlogreceiver.Prelude.Maps.{has}
use k8spodlogreceiver.Receiver.Generations.{
  ensures, Reach, here, next, WellFormed, Reach-WellFormed,
}
use k8spodlogreceiver.Receiver.Fencing.{deleted_stream_harmless}

abbrev pub app : Container
app = record { name = b'a' ∷ []; own_policy = none }

abbrev app_runs : ContainerStatus
app_runs = record {
  name = b'a' ∷ [];
  restart_count = pos 0;
  running_now = true;
  terminated = none;
  last_terminated = false;
}

abbrev pub pod : Pod
pod = record {
  namespace = b'n' ∷ [];
  name = b'p' ∷ [];
  uid = b'u' ∷ [];
  node_name = b'm' ∷ [];
  restart_policy = always;
  init_containers = [];
  containers = app ∷ [];
  container_statuses = app_runs ∷ [];
  init_container_statuses = [];
}

abbrev pub key : Bytes
key = b'n' ∷ b'/' ∷ b'p' ∷ b'/' ∷ b'u' ∷ b'/' ∷ b'a' ∷ []

-- The receiver with one stream of generation 1 for the pod's container.
unfoldable pub streaming : Receiver
unfolding new_receiver ensure_streams stream_key
streaming = ensure_streams (new_receiver true) pod

one_stream : lookup key streaming.active_streams ≡ some 1
unfolding streaming ensure_stream container_has_started pod_containers stream_key put
one_stream = refl

uid_of_key : pod_uid_from_stream_key key ≡ b'u' ∷ []
unfolding pod_uid_from_stream_key
uid_of_key = refl

uid_of_other : pod_uid_from_stream_key (b'x' ∷ b'/' ∷ b'y' ∷ []) ≡ []
unfolding pod_uid_from_stream_key
uid_of_other = refl

pod_uid-stream_key_example :
    pod_uid_from_stream_key (stream_key (b'n' ∷ []) (b'p' ∷ []) (b'u' ∷ []) (b'a' ∷ [])) ≡ b'u' ∷ []
pod_uid-stream_key_example =
    pod_uid-stream_key (b'n' ∷ []) (b'p' ∷ []) (b'u' ∷ []) (b'a' ∷ []) (omega arith, tt)
      (omega arith, tt) (omega arith, tt) (omega arith, tt)

stream_key_injective_example :
    ◌≡◌ {A = Bytes} (b'n' ∷ []) (b'n' ∷ [])
    × ◌≡◌ {A = Bytes} (b'p' ∷ []) (b'p' ∷ [])
    × ◌≡◌ {A = Bytes} (b'u' ∷ []) (b'u' ∷ [])
    × ◌≡◌ {A = Bytes} (b'a' ∷ []) (b'a' ∷ [])
stream_key_injective_example =
    stream_key_injective (b'n' ∷ []) (b'p' ∷ []) (b'u' ∷ []) (b'a' ∷ []) (b'n' ∷ []) (b'p' ∷ [])
      (b'u' ∷ []) (b'a' ∷ [])
      ((omega arith, tt), (omega arith, tt), (omega arith, tt), (omega arith, tt))
      ((omega arith, tt), (omega arith, tt), (omega arith, tt), (omega arith, tt)) refl

-- A migration that has succeeded, in a pod that restarts what fails.
abbrev migration_done : ContainerStatus
migration_done = record {
  name = b'i' ∷ [];
  restart_count = pos 0;
  running_now = false;
  terminated = some (pos 0);
  last_terminated = false;
}

streaming_reached : Reach (new_receiver true) (ensure_stream (new_receiver true) pod app)
unfolding new_receiver
streaming_reached = next here (ensures pod app (omega arith))

one_stream-WellFormed : WellFormed (ensure_stream (new_receiver true) pod app)
one_stream-WellFormed =
    Reach-WellFormed true (ensure_stream (new_receiver true) pod app) streaming_reached

Reach-WellFormed_example : WellFormed (ensure_stream (new_receiver true) pod app)
Reach-WellFormed_example =
    Reach-WellFormed true (ensure_stream (new_receiver true) pod app) streaming_reached

-- The stream ends while its container runs, and the pod is delivered again.
stream_after_release_example :
    has key (on_pod_updated (release_stream streaming key 1) pod 50).active_streams
    ≡ not (has key streaming.terminated_containers)
unfolding streaming ensure_stream container_has_started pod_containers stream_key put
stream_after_release_example = stream_after_release streaming pod key 1 50 refl refl refl

-- The pod's watch breaks, the pod is added again, and the first stream reports late.
deleted_stream_harmless_example :
    let s =
      ensure_stream (on_pod_deleted (ensure_stream (new_receiver true) pod app) pod true) pod app in
    (advance_cursor s key 1 (record { ts = 5; delivered = pos 1 }) ≡ s)
    × (release_stream s key 1 ≡ s)
unfolding new_receiver ensure_stream container_has_started stream_key put pod_containers
    on_pod_deleted delete_container
deleted_stream_harmless_example =
    deleted_stream_harmless (ensure_stream (new_receiver true) pod app)
      (ensure_stream (on_pod_deleted (ensure_stream (new_receiver true) pod app) pod true) pod app)
      pod true key 1 (record { ts = 5; delivered = pos 1 }) one_stream-WellFormed refl refl
      (next here (ensures pod app (omega arith)))

-- The receiver after a line of the container, whose pod was then not seen for more than two hours.
abbrev quiet : Receiver
quiet = record streaming {
  cursors = record {
    has_client = true;
    pod_uid_of = pod_uid_from_stream_key;
    cursors = (key, record { ts = 5; delivered = pos 1 }) ∷ [];
    last_seen_pods = (b'u' ∷ [], 100) ∷ [];
  };
}

quiet-IsMap : IsMap quiet.cursors
quiet-IsMap = record { cursors_unique = (refl, tt); pods_unique = (refl, tt) }

prune_stale_cursors_exact_example :
    (prune_stale_cursors quiet 7200000000101).active_streams ≡ streaming.active_streams
prune_stale_cursors_exact_example =
    (prune_stale_cursors_exact quiet 7200000000101 key quiet-IsMap).4
