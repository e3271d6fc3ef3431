-- ===== src/Receiver.antt =====
-- receiver.go: the bookkeeping of `logsReceiver`, which every pod event and every stream goes
-- through. Each method is one step: what it reads and writes it does under `r.mu`, or, where it takes
-- the lock several times (ensureStreams), pod events come one after the other from one informer. The
-- two critical sections of pruneStaleCursors are two steps of the interleavings.
-- A goroutine start is an entry in `started`, a call of a cancel function an entry in `cancelled`.
-- Telemetry and logging are left out.
pub mod Generations
pub mod Fencing
pub mod Positions
pub mod Pruning
pub mod Release
pub mod Ensure
pub mod Deletion
pub mod Accounts
pub mod Apart
pub mod Observing
pub mod Reviving
use k8spodlogreceiver.Prelude.{
  ℕ, zero, suc, ◌+◌, ◌-◌, ◌*◌, ◌/◌, ◌%◌, ◌≤◌, ◌<◌, ◌≡◌, refl, sym, ap, ◌∙◌, ◌≢◌, ◌↔◌, ◌⊎◌, inl, inr,
  Bool, true, false, not, ◌&&◌, ◌||◌, Option, none, some, List, [], ◌∷◌, ◌++◌, map, arith, ltb, leb,
  ◌==◌, if◌then◌else◌, ==_iff, ltb→lt, lt→ltb, leb→le, Bool-cases, Option-cases, is_some, length,
  take, drop, keep_if, All, length-append, length-take_le, length-take, length-drop,
  take-append-drop, keep_if-append, Eq, same, same_iff, same_refl, Bytes, bytes_eq,
}
use k8spodlogreceiver.Prelude.Int.{ℤ, pos}
use k8spodlogreceiver.Prelude.Maps.{lookup, has, put, remove}
use k8spodlogreceiver.Instant.{Instant}
use k8spodlogreceiver.StreamKey.{stream_key, pod_uid_from_stream_key}
use k8spodlogreceiver.Pod.{
  Pod, Container, ContainerStatus, pod_containers, container_has_started, container_is_terminal,
  init_container_restart_policy,
}
use k8spodlogreceiver.Cursor.{Cursor}
use k8spodlogreceiver.Cursor.Store
use k8spodlogreceiver.Cursor.Store.{Store, stale_after}

-- A set of keys, Go's map[string]struct{}.
abbrev pub KeySet : Type 0
KeySet = List (Bytes × Unit {0})

-- streamHandle; its cancel function is named by the generation.
abbrev pub Handles : Type 0
Handles = List (Bytes × ℕ)

pub record Receiver : Type 0 where
  pub active_streams : Handles
  pub next_stream_gen : ℕ  -- uint64
  pub terminated_containers : KeySet
  pub drained_containers : KeySet
  pub cursors : Store
  pub restart_counts : List (Bytes × ℤ)
  pub started : List (Bytes × ℕ)  -- the calls of startStream, latest first
  pub cancelled : List ℕ  -- the generations whose cancel function was called, latest first

abbrev pub u64_mod : ℕ
u64_mod = 18446744073709551616

-- newLogsReceiver, and the store that Start puts in place
unfoldable pub new_receiver : Bool → Receiver
new_receiver has_client = record {
  active_streams = [];
  next_stream_gen = 0;
  terminated_containers = [];
  drained_containers = [];
  cursors = Store.new_store has_client pod_uid_from_stream_key;
  restart_counts = [];
  started = [];
  cancelled = [];
}

abbrev pub key_of : Pod → Bytes → Bytes
key_of pod container_name = stream_key pod.namespace pod.name pod.uid container_name

-- releaseStream
unfoldable pub release_stream : Receiver → Bytes → ℕ → Receiver
release_stream r key gen = elim (lookup key r.active_streams) [
  | none ↦ r
  | some g ↦
      if g == gen
      then record r {
        active_streams = remove key r.active_streams;
        drained_containers =
            if has key r.terminated_containers
            then put key tt r.drained_containers
            else r.drained_containers;
      }
      else r
]

-- The part of ensureStreams that starts a stream.
pub start_stream : Receiver → Bytes → Receiver
start_stream r key =
    let gen = (r.next_stream_gen + 1) % u64_mod in
    record r {
      next_stream_gen = gen;
      active_streams = put key gen r.active_streams;
      started = (key, gen) ∷ r.started;
    }

-- The body of the loop of ensureStreams.
unfoldable pub ensure_stream : Receiver → Pod → Container → Receiver
unfolding start_stream
ensure_stream r pod container =
    let key = key_of pod container.name in
    if not (container_has_started pod container.name)
    then r
    else if has key r.active_streams
    then r
    else if has key r.drained_containers
    then r
    else start_stream r key

ensure_all : Receiver → Pod → List Container → Receiver
ensure_all r pod [] = r
ensure_all r pod (c ∷ cs) = ensure_all (ensure_stream r pod c) pod cs

-- ensureStreams
unfoldable pub ensure_streams : Receiver → Pod → Receiver
unfolding ensure_all
ensure_streams r pod = ensure_all r pod (pod_containers pod)

-- recordPodUIDSeen, at the time `now`
unfoldable pub record_pod_uid_seen : Receiver → Bytes → Instant → Receiver
record_pod_uid_seen r pod_uid now = record r { cursors = Store.mark_pod_seen r.cursors pod_uid now }

-- One round of either loop of markContainerStates.
mark_status : Receiver → Pod → ContainerStatus → Bool → Receiver
mark_status r pod cs terminal =
    let key = key_of pod cs.name in
    record r {
      restart_counts = put key cs.restart_count r.restart_counts;
      terminated_containers =
          if terminal then put key tt r.terminated_containers else r.terminated_containers;
    }

mark_regular : Receiver → Pod → List ContainerStatus → Receiver
unfolding mark_status
mark_regular r pod [] = r
mark_regular r pod (cs ∷ rest) =
    mark_regular (mark_status r pod cs (container_is_terminal pod.restart_policy cs false none)) pod
      rest

mark_init : Receiver → Pod → List ContainerStatus → Receiver
unfolding mark_status
mark_init r pod [] = r
mark_init r pod (cs ∷ rest) =
    mark_init
      (mark_status r pod cs (
        container_is_terminal pod.restart_policy cs true
          (init_container_restart_policy pod cs.name)))
      pod rest

-- markContainerStates
unfoldable pub mark_container_states : Receiver → Pod → Receiver
unfolding mark_regular mark_init
mark_container_states r pod =
    mark_init (mark_regular r pod pod.container_statuses) pod pod.init_container_statuses

-- onPodAdded, and the OnUpdate handler of startPodDiscovery, at the time `now`
unfoldable pub on_pod_added : Receiver → Pod → Instant → Receiver
on_pod_added r pod now =
    ensure_streams (mark_container_states (record_pod_uid_seen r pod.uid now) pod) pod

unfoldable pub on_pod_updated : Receiver → Pod → Instant → Receiver
on_pod_updated r pod now =
    ensure_streams (mark_container_states (record_pod_uid_seen r pod.uid now) pod) pod

-- The body of the loop of onPodDeleted.
unfoldable pub delete_container : Receiver → Bool → Bytes → Receiver
delete_container r inferred key = record r {
  cancelled = elim (lookup key r.active_streams) [
    | none ↦ r.cancelled
    | some gen ↦ gen ∷ r.cancelled
  ];
  active_streams = remove key r.active_streams;
  terminated_containers = remove key r.terminated_containers;
  drained_containers = remove key r.drained_containers;
  cursors = if inferred then r.cursors else Store.forget r.cursors key;
}

delete_all : Receiver → Pod → Bool → List Container → Receiver
delete_all r pod inferred [] = r
delete_all r pod inferred (c ∷ cs) =
    delete_all (delete_container r inferred (key_of pod c.name)) pod inferred cs

-- onPodDeleted
unfoldable pub on_pod_deleted : Receiver → Pod → Bool → Receiver
unfolding delete_all
on_pod_deleted r pod inferred = delete_all r pod inferred (pod_containers pod)

-- cursorFor
unfoldable pub cursor_for : Receiver → Bytes → Cursor
cursor_for r key = Store.get r.cursors key

-- advanceCursor
unfoldable pub advance_cursor : Receiver → Bytes → ℕ → Cursor → Receiver
advance_cursor r key gen c = elim (lookup key r.active_streams) [
  | none ↦ r
  | some g ↦ if g == gen then record r { cursors = Store.advance r.cursors key c } else r
]

-- isContainerTerminal
unfoldable pub is_container_terminal : Receiver → Bytes → Bool
is_container_terminal r key = has key r.terminated_containers

-- getRestartCount
unfoldable pub get_restart_count : Receiver → Bytes → ℤ
get_restart_count r key = elim (lookup key r.restart_counts) [ none ↦ pos 0 | some n ↦ n ]

-- The call of Prune in pruneStaleCursors, at the time `now`, under the store's own lock
unfoldable pub prune_store : Receiver → Instant → Receiver × List Bytes
prune_store r now =
    let (store, pruned) = Store.prune r.cursors (now - stale_after) in
    (record r { cursors = store }, pruned)

-- The loop of pruneStaleCursors, under `r.mu`
pub drop_states : Receiver → List Bytes → Receiver
drop_states r [] = r
drop_states r (key ∷ keys) =
    drop_states
      (record r {
        restart_counts = remove key r.restart_counts;
        terminated_containers = remove key r.terminated_containers;
        drained_containers = remove key r.drained_containers;
      })
      keys

-- pruneStaleCursors, at the time `now`, where nothing comes between the two
unfoldable pub prune_stale_cursors : Receiver → Instant → Receiver
unfolding prune_store drop_states
prune_stale_cursors r now = let (r', pruned) = prune_store r now in drop_states r' pruned
