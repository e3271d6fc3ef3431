-- ===== src/Collector/Persisting.antt =====
-- That a life keeps its storage client, and what it starts with.
use k8spodlogreceiver.Prelude.{
  ℕ, ◌≡◌, refl, ◌∙◌, true, false, some, List, [], ◌∷◌, arith, Option-cases, same_refl, Bytes,
  bytes_eq,
}
use k8spodlogreceiver.Lifecycle.Restart.{has_client-advance_cursor}
use k8spodlogreceiver.Receiver.Release.{owns}
use k8spodlogreceiver.Cursor.{Cursor}
use k8spodlogreceiver.Receiver.{advance_cursor}
use k8spodlogreceiver.Container.{publish, new_container_stream}
use k8spodlogreceiver.Collector.{Round, Pod, Receiver, generation, Host, with_storage}
use k8spodlogreceiver.Config.{Config}
use k8spodlogreceiver.Cursor.Store.{Read}
use k8spodlogreceiver.Prelude.Maps.{lookup, has}
use k8spodlogreceiver.Stream.{run}
use k8spodlogreceiver.Lifecycle.Restart.{has_client-release_stream}
use k8spodlogreceiver.Container.{stream_container_logs}
use k8spodlogreceiver.Lifecycle.{new_process}
use k8spodlogreceiver.Lifecycle.Failures.{is_live, held_in}

pub held_in-with_storage :
    (cfg : Config) (id : Bytes) (stored : Read) (host : Host)
    → cfg.storage_id ≡ some id
    → held_in cfg.storage_id (with_storage id stored host).extensions ≡ some stored
unfolding with_storage
held_in-with_storage cfg id stored host i = ground (arith, i, same_refl id)

pub not_live : is_live new_process.context ≡ false
unfolding new_process
not_live = refl

pub owns-generation :
    (r : Receiver) (key : Bytes)
    → has key r.active_streams ≡ true
    → owns r key (generation r key) ≡ true
unfolding generation
owns-generation r key h = ground (arith, h, Option-cases (lookup key r.active_streams))

has_client-publish :
    (cs : List Cursor) (r : Receiver) (key : Bytes) (gen : ℕ)
    → (publish r key gen cs).cursors.has_client ≡ r.cursors.has_client
unfolding publish
has_client-publish [] r key gen = refl
has_client-publish (c ∷ cs) r key gen =
    has_client-publish cs (advance_cursor r key gen c) key gen
    ∙ has_client-advance_cursor r key gen c

pub has_client-stream_container_logs :
    (cfg : Config) (r : Receiver) (pod : Pod) (name key : Bytes) (gen : ℕ) (is : List Round)
    → (stream_container_logs cfg r pod name key gen is).1.cursors.has_client ≡ r.cursors.has_client
unfolding stream_container_logs
has_client-stream_container_logs cfg r pod name key gen is = ground (
  arith,
  has_client-publish (run (new_container_stream cfg r pod name key) is).0.reports r key gen,
  has_client-release_stream
      (publish r key gen (run (new_container_stream cfg r pod name key) is).0.reports) key gen,
)
