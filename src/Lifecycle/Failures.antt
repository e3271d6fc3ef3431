-- ===== src/Lifecycle/Failures.antt =====
-- The failures that Start meets, and what it leaves behind the store.
use k8spodlogreceiver.Prelude.{
  ◌≡◌, inl, inr, Bool, true, false, not, Option, none, some, List, [], ◌∷◌, ◌++◌, map, arith,
  if◌then◌else◌, Bool-cases, Option-cases, is_some, Bytes, bytes_eq,
}
use k8spodlogreceiver.Discovery.{watched_namespaces}
use k8spodlogreceiver.Cursor.Store.Persistence.{readable}
use k8spodlogreceiver.Config.{Config}
use k8spodlogreceiver.Cursor.Store.{Read, Cursors}
use k8spodlogreceiver.Lifecycle.{
  connect, pod_handler, Worker, Error, flushes_cursors, prunes_cursors, clientset_refused,
  other_extension, client_refused, http_client_refused, cancelled, settings_of, discovery_refused,
  not_made, rest_config_refused, not_storage, discovers, run_workers, storage_extension, Process,
  live, lookup, Host, start_discovery, storage_not_configured, Extension, Context,
}
use k8spodlogreceiver.Discovery.Informers
use k8spodlogreceiver.Discovery.Starting
use k8spodlogreceiver.Discovery.Starting.{first_refusal}
use k8spodlogreceiver.Cursor.Store

-- What the configured storage extension's client holds, if there is such a client.
abbrev pub held_by : Extension → Option Read
held_by other_extension = none
held_by (storage_extension stored) = stored

abbrev pub held_in : Option Bytes → List (Bytes × Extension) → Option Read
held_in none extensions = none
held_in (some id) extensions = elim (lookup id extensions) [ none ↦ none | some ext ↦ held_by ext ]

-- The positions that the storage holds: none where there is no storage or no readable value.
abbrev pub held : (Bytes → Option Cursors) → Option Read → Cursors
held decode none = []
held decode (some stored) = readable decode true stored

-- Why the storage cannot be used, if a storage is configured.
abbrev pub extension_failure : Bytes → Option Extension → Option Error
extension_failure id none = some (storage_not_configured id)
extension_failure id (some other_extension) = some (not_storage id)
extension_failure id (some (storage_extension none)) = some client_refused
extension_failure id (some (storage_extension (some stored))) = none

abbrev pub storage_failure : Option Bytes → List (Bytes × Extension) → Option Error
storage_failure none extensions = none
storage_failure (some id) extensions = extension_failure id (lookup id extensions)

-- Why pod discovery cannot be started: the first informer that is refused.
abbrev pub discovery_failure : Config → Host → Option Error
discovery_failure cfg host = elim (first_refusal host.set_up (watched_namespaces cfg.namespaces)) [
  | none ↦ none
  | some e ↦ some (discovery_refused e)
]

-- The first of the failures that there is.
abbrev pub first_of : List (Option Error) → Option Error
first_of [] = none
first_of (none ∷ fs) = first_of fs
first_of (some e ∷ fs) = some e

abbrev pub unless : Bool → Error → Option Error
unless true e = none
unless false e = some e

abbrev pub kube_failure : Config → Host → Option Error
kube_failure cfg host = first_of (
    unless host.rest_config rest_config_refused
    ∷ unless host.http_client http_client_refused
    ∷ unless host.clientset clientset_refused
    ∷ discovery_failure cfg host
    ∷ [])

abbrev pub failure : Config → Host → Option Error
failure cfg host =
    first_of (storage_failure cfg.storage_id host.extensions ∷ kube_failure cfg host ∷ [])

-- An informer for each watched namespace, the wait for their listing, the pruning, and, where there
-- is a storage client, the flushing.
abbrev pub all_workers : Config → Bool → List Worker
all_workers cfg persists =
    map discovers (Starting.all_workers (settings_of cfg))
    ++ prunes_cursors ∷ (if persists then flushes_cursors ∷ [] else [])

abbrev pub is_live : Context → Bool
is_live live = true
is_live not_made = false
is_live cancelled = false

-- What a start from `p` gives and leaves, by the failure that it meets.
pub record StartOutcome (cfg : Config) (persists : Bool) (p q : Process) (e f : Option Error)
    : Type 0 where
  pub fails : e ≡ f
  pub workers_are : q.workers ≡ elim f [ none ↦ all_workers cfg persists | some e ↦ p.workers ]
  pub runs : is_live q.context ≡ not (is_some f)

pub discovery_started :
    (cfg : Config) (host : Host)
    → Informers.start (settings_of cfg) pod_handler host.set_up
      ≡ Starting.outcome
          (first_refusal host.set_up (watched_namespaces cfg.namespaces))
          (Starting.all_workers (settings_of cfg))
discovery_started cfg host = Starting.start-failure (settings_of cfg) pod_handler host.set_up

start_discovery-StartOutcome :
    (cfg : Config) (host : Host) (p : Process)
    → let (q, e) = start_discovery cfg host p in
      StartOutcome cfg (Store.persists p.receiver.cursors) p q e (discovery_failure cfg host)
unfolding start_discovery run_workers
start_discovery-StartOutcome cfg host p = record {
  fails = ground (
    arith,
    discovery_started cfg host,
    Option-cases (first_refusal host.set_up (watched_namespaces cfg.namespaces)),
  );
  workers_are = ground (
    arith,
    discovery_started cfg host,
    Option-cases (first_refusal host.set_up (watched_namespaces cfg.namespaces)),
  );
  runs = ground (
    arith,
    discovery_started cfg host,
    Option-cases (first_refusal host.set_up (watched_namespaces cfg.namespaces)),
  );
}

pub connect-StartOutcome :
    (cfg : Config) (host : Host) (p : Process)
    → is_live p.context ≡ false
    → let (q, e) = connect cfg host p in
      StartOutcome cfg (Store.persists p.receiver.cursors) p q e (kube_failure cfg host)
unfolding connect
connect-StartOutcome cfg host p h = elim (Bool-cases host.rest_config) [
  | inr x ↦ ground (arith, x, h)
  | inl x ↦ elim (Bool-cases host.http_client) [
    | inr y ↦ ground (arith, x, y, h)
    | inl y ↦ elim (Bool-cases host.clientset) [
      | inr z ↦ ground (arith, x, y, z, h)
      | inl z ↦ ground (
        arith,
        x,
        y,
        z,
        start_discovery-StartOutcome cfg host (record p { http_client = true; clientset = true }),
      )
    ]
  ]
]
