-- ===== src/Collector.antt =====
-- The parts put together, for one container: the collector starts, the pod is added, the container's
-- stream runs, and the collector shuts down; the next one starts on what was written.
pub mod Persisting
pub mod Restarts
pub mod Crashes
use k8spodlogreceiver.Prelude.{
  ℕ, zero, suc, ◌+◌, ◌-◌, ◌*◌, ◌/◌, ◌%◌, ◌≤◌, ◌<◌, ◌≡◌, refl, sym, ap, ◌∙◌, ◌≢◌, ◌↔◌, ◌⊎◌, inl, inr,
  Bool, true, false, not, ◌&&◌, ◌||◌, Option, none, some, List, [], ◌∷◌, ◌++◌, map, arith, ltb, leb,
  ◌==◌, if◌then◌else◌, ==_iff, ltb→lt, lt→ltb, leb→le, Bool-cases, Option-cases, is_some, length,
  take, drop, keep_if, All, length-append, length-take_le, length-take, length-drop,
  take-append-drop, keep_if-append, Eq, same, same_iff, same_refl, Bytes, bytes_eq,
}
use k8spodlogreceiver.Container.{new_container_stream, stream_container_logs}
use k8spodlogreceiver.Stream.{run, Round, Stream}
use k8spodlogreceiver.Cursor.Store.Persistence.{answer}
use k8spodlogreceiver.Instant.{Instant}
use k8spodlogreceiver.Connection.Tracks.{accepted_bodies}
use k8spodlogreceiver.Config.{Config}
use k8spodlogreceiver.Pod.{Pod}
use k8spodlogreceiver.Prelude.Maps.{lookup}
use k8spodlogreceiver.Receiver.{key_of, on_pod_added, Receiver}
use k8spodlogreceiver.Cursor.Store
use k8spodlogreceiver.Cursor.Store.{Read, Cursors}
use k8spodlogreceiver.Lifecycle.{storage_extension, Host, start, shutdown, new_process}

-- What one life of the collector meets: the host, but for the storage, the pod as it is added, the
-- time of that, and the rounds of the container's stream.
pub record Life : Type 0 where
  pub host : Host
  pub pod : Pod
  pub now : Instant
  pub rounds : List Round

-- The host with a storage extension `id` that holds `stored`.
unfoldable pub with_storage : Bytes → Read → Host → Host
with_storage id stored host = record host {
  extensions = (id, storage_extension (some stored)) ∷ host.extensions;
}

-- The receiver once it has started and the pod is there.
unfoldable pub with_pod : (Bytes → Option Cursors) → Config → Bytes → Read → Life → Receiver
unfolding with_storage
with_pod decode cfg id stored l =
    on_pod_added (start decode cfg (with_storage id stored l.host) new_process).0.receiver l.pod
      l.now

-- The generation of the stream that has the key.
unfoldable pub generation : Receiver → Bytes → ℕ
generation r key = elim (lookup key r.active_streams) [ none ↦ 0 | some g ↦ g ]

-- The container's stream, and the receiver behind it.
unfoldable pub streamed :
    (Bytes → Option Cursors) → Config → Bytes → Bytes → Read → Life → Stream × Receiver
unfolding with_pod generation
streamed decode cfg id name stored l =
    let r = with_pod decode cfg id stored l in
    let key = key_of l.pod name in
    stream_container_logs cfg r l.pod name key (generation r key) l.rounds

-- What the storage holds behind the shutdown.
unfoldable pub stored_by :
    (Cursors → Option Bytes)
    → (Bytes → Option Cursors)
    → Config
    → Bytes
    → Bytes
    → Read
    → Life
    → Read
unfolding streamed
stored_by encode decode cfg id name stored l =
    answer
      (shutdown encode
        (record (start decode cfg (with_storage id stored l.host) new_process).0 {
          receiver = (streamed decode cfg id name stored l).1;
        })
        []).written

-- The bodies that the pipeline has accepted over all the lives, and what the storage holds in the end.
unfoldable pub lives :
    (Cursors → Option Bytes)
    → (Bytes → Option Cursors)
    → Config
    → Bytes
    → Bytes
    → Read
    → List Life
    → List Bytes × Read
unfolding stored_by
lives encode decode cfg id name stored [] = ([], stored)
lives encode decode cfg id name stored (l ∷ ls) =
    let (bodies, end) =
      lives encode decode cfg id name (stored_by encode decode cfg id name stored l) ls in
    (accepted_bodies (streamed decode cfg id name stored l).0.sent ++ bodies, end)

-- What the storage holds after a periodic flush behind the life's rounds.
unfoldable pub flushed_by :
    (Cursors → Option Bytes)
    → (Bytes → Option Cursors)
    → Config
    → Bytes
    → Bytes
    → Read
    → Life
    → Read
unfolding streamed
flushed_by encode decode cfg id name stored l =
    answer (Store.flush encode (streamed decode cfg id name stored l).1.cursors)

-- What the pipeline has accepted when the collector is killed: `whole` is all that the stream meets
-- until then, of which the life's rounds are what it meets until the flush.
unfoldable pub brought_in :
    (Bytes → Option Cursors) → Config → Bytes → Bytes → Read → Life → List Round → List Bytes
unfolding with_pod
brought_in decode cfg id name stored l whole =
    let s =
      new_container_stream cfg (with_pod decode cfg id stored l) l.pod name (key_of l.pod name) in
    accepted_bodies (run s whole).0.sent

-- Lives that end without a shutdown: what each has brought in, and what the storage holds in the end.
unfoldable pub crashes :
    (Cursors → Option Bytes)
    → (Bytes → Option Cursors)
    → Config
    → Bytes
    → Bytes
    → Read
    → List (Life × List Round)
    → List (List Bytes) × Read
unfolding flushed_by brought_in
crashes encode decode cfg id name stored [] = ([], stored)
crashes encode decode cfg id name stored ((l, whole) ∷ ls) =
    let (bodies, end) =
      crashes encode decode cfg id name (flushed_by encode decode cfg id name stored l) ls in
    (brought_in decode cfg id name stored l whole ∷ bodies, end)
