-- ===== src/Lifecycle.antt =====
-- receiver.go: Start, Shutdown, startPodDiscovery, runCursorPruning and runCursorFlush, with
-- OpenStorage, RunFlushLoop and Close of internal/cursor/store.go. What client-go and the
-- collector's host answer is an input; the goroutines that are tracked in `r.wg` are a list.
use k8spodlogreceiver.Prelude.{
  ℕ, zero, suc, ◌+◌, ◌-◌, ◌*◌, ◌/◌, ◌%◌, ◌≤◌, ◌<◌, ◌≡◌, refl, sym, ap, ◌∙◌, ◌≢◌, ◌↔◌, ◌⊎◌, inl, inr,
  Bool, true, false, not, ◌&&◌, ◌||◌, Option, none, some, List, [], ◌∷◌, ◌++◌, map, arith, ltb, leb,
  ◌==◌, if◌then◌else◌, ==_iff, ltb→lt, lt→ltb, leb→le, Bool-cases, Option-cases, is_some, length,
  take, drop, keep_if, All, length-append, length-take_le, length-take, length-drop,
  take-append-drop, keep_if-append, Eq, same, same_iff, same_refl, Bytes, bytes_eq,
}
use k8spodlogreceiver.Instant.{Instant}
use k8spodlogreceiver.Prelude.Maps.{lookup}
use k8spodlogreceiver.Cursor.{Cursor}
use k8spodlogreceiver.StreamKey.{pod_uid_from_stream_key}
use k8spodlogreceiver.Cursor.Store.{failed, Store, Read, Cursors}
use k8spodlogreceiver.Config.{pod_resync_period_of, Config}
use k8spodlogreceiver.Receiver.{
  release_stream, on_pod_deleted, prune_stale_cursors, advance_cursor, on_pod_updated, new_receiver,
  Receiver, on_pod_added,
}
pub mod Failures
pub mod Starting
pub mod Restart
use k8spodlogreceiver.Prelude.Results.{Result, ok, err}
use k8spodlogreceiver.Cursor.Store
use k8spodlogreceiver.Discovery.Informers.{Handler, Settings, SetUp}
use k8spodlogreceiver.Discovery.Informers

-- An extension of the collector. A storage extension gives a client, which answers `stored` to the
-- read of the storage key, or an error.
pub data Extension : Type 0 where
  storage_extension : (stored : Option Read) → Extension
  other_extension : Extension

pub data Error : Type 0 where
  storage_not_configured not_storage : Bytes → Error
  client_refused : Error
  rest_config_refused http_client_refused clientset_refused : Error
  discovery_refused : Informers.Refusal → Error

-- ext.(storage.Extension), and GetClient
client_of : Bytes → Extension → Result Error (Option Read)
client_of id other_extension = err (not_storage id)
client_of id (storage_extension none) = err client_refused
client_of id (storage_extension (some stored)) = ok (some stored)

-- OpenStorage: the client, where `none` is nil
unfoldable pub open_storage : Option Bytes → List (Bytes × Extension) → Result Error (Option Read)
unfolding client_of
open_storage none extensions = ok none
open_storage (some id) extensions = elim (lookup id extensions) [
  | none ↦ err (storage_not_configured id)
  | some ext ↦ client_of id ext
]

-- What Start meets: the extensions, whether CreateRestConfig, HTTPClientFor and
-- NewForConfigAndClient return no error, and the set-up of the informers.
pub record Host : Type 0 where
  pub extensions : List (Bytes × Extension)
  pub rest_config : Bool
  pub http_client : Bool
  pub clientset : Bool
  pub set_up : Bytes → SetUp

-- The run context, and r.cancel, which is nil before it is made.
pub data Context : Type 0 where
  not_made live cancelled : Context

-- The goroutines of Start; those of the streams are in the receiver.
pub data Worker : Type 0 where
  discovers : Informers.Watcher → Worker
  prunes_cursors flushes_cursors : Worker

-- The fields of logsReceiver that Start and Shutdown set.
pub record Process : Type 0 where
  pub receiver : Receiver
  pub http_client : Bool  -- r.httpClient != nil
  pub clientset : Bool  -- r.clientset != nil
  pub context : Context
  pub workers : List Worker

-- newLogsReceiver
unfoldable pub new_process : Process
new_process = record {
  receiver = new_receiver false;
  http_client = false;
  clientset = false;
  context = not_made;
  workers = [];
}

-- The part of Start that puts the store in place.
unfoldable pub use_storage : (Bytes → Option Cursors) → Option Read → Process → Process
use_storage decode client p = record p {
  receiver = record p.receiver {
    cursors =
        Store.load decode (Store.new_store (is_some client) pod_uid_from_stream_key)
          (elim client [ none ↦ failed | some stored ↦ stored ]);
  };
}

-- The handler and the settings of startPodDiscovery
abbrev pub pod_handler : Handler
pod_handler = record {
  on_add = some on_pod_added;
  on_update = some on_pod_updated;
  on_delete = some on_pod_deleted;
}

abbrev pub settings_of : Config → Settings
settings_of cfg = record {
  namespaces = cfg.namespaces;
  label_selector = cfg.pod_label_selector;
  resync_period = pod_resync_period_of cfg;
}

-- The part of Start behind startPodDiscovery
unfoldable pub run_workers : List Informers.Watcher → Process → Process
run_workers workers p = record p {
  workers =
      map discovers workers
      ++ prunes_cursors ∷ (if Store.persists p.receiver.cursors then flushes_cursors ∷ [] else []);
}

-- startPodDiscovery, and the part of Start from the run context on
unfoldable pub start_discovery : Config → Host → Process → Process × Option Error
unfolding run_workers
start_discovery cfg host p = elim (Informers.start (settings_of cfg) pod_handler host.set_up) [
  | err e ↦ (record p { context = cancelled }, some (discovery_refused e))
  | ok workers ↦ (run_workers workers (record p { context = live }), none)
]

-- The part of Start behind the store
unfoldable pub connect : Config → Host → Process → Process × Option Error
unfolding start_discovery
connect cfg host p =
    if not host.rest_config
    then (p, some rest_config_refused)
    else if not host.http_client
    then (p, some http_client_refused)
    else if not host.clientset
    then (record p { http_client = true }, some clientset_refused)
    else start_discovery cfg host (record p { http_client = true; clientset = true })

-- Start: the receiver, and the error, if any
unfoldable pub start : (Bytes → Option Cursors) → Config → Host → Process → Process × Option Error
unfolding use_storage connect
start decode cfg host p = elim (open_storage cfg.storage_id host.extensions) [
  | err e ↦ (p, some e)
  | ok client ↦ connect cfg host (use_storage decode client p)
]

-- What the streams still do when their contexts are cancelled.
pub data Last : Type 0 where
  reports : Bytes → ℕ → Cursor → Last
  releases : Bytes → ℕ → Last

unfoldable pub wind_down : Receiver → List Last → Receiver
wind_down r [] = r
wind_down r (reports key gen c ∷ ls) = wind_down (advance_cursor r key gen c) ls
wind_down r (releases key gen ∷ ls) = wind_down (release_stream r key gen) ls

-- What Shutdown leaves: the receiver, the value written under the storage key, if any, whether the
-- storage client is closed, and whether the idle connections are.
pub record Stopped : Type 0 where
  pub process : Process
  pub written : Option Bytes
  pub storage_closed : Bool
  pub idle_closed : Bool

-- Shutdown, where the goroutines do `ls` before r.wg.Wait() returns
unfoldable pub shutdown : (Cursors → Option Bytes) → Process → List Last → Stopped
unfolding wind_down
shutdown encode p ls =
    let r = wind_down p.receiver ls in
    record {
      process = record p {
        receiver = r;
        context = elim p.context [ not_made ↦ not_made | _ ↦ cancelled ];
        workers = [];
      };
      written = Store.flush encode r.cursors;
      storage_closed = r.cursors.has_client;
      idle_closed = p.http_client;
    }

-- What the loops of the two tickers receive: a tick, with the time or the store at that moment, or
-- the end of the run context.
pub data Wake (A : Type 0) : Type 0 where
  tick : A → Wake A
  done : Wake A

-- runCursorPruning
unfoldable pub run_cursor_pruning : Receiver → List (Wake Instant) → Receiver
run_cursor_pruning r [] = r
run_cursor_pruning r (done ∷ ws) = r
run_cursor_pruning r (tick now ∷ ws) = run_cursor_pruning (prune_stale_cursors r now) ws

-- runCursorFlush and RunFlushLoop: what is written
unfoldable pub run_flush_loop : (Cursors → Option Bytes) → List (Wake Store) → List (Option Bytes)
run_flush_loop encode [] = []
run_flush_loop encode (done ∷ ws) = []
run_flush_loop encode (tick s ∷ ws) = Store.flush encode s ∷ run_flush_loop encode ws
