-- ===== src/Lifecycle/Starting.antt =====
-- What Start leaves on every branch.
use k8spodlogreceiver.Prelude.{
  ◌≡◌, refl, sym, ap, ◌∙◌, inl, inr, true, false, not, Option, none, some, List, arith,
  Option-cases, is_some, Bytes, bytes_eq,
}
use k8spodlogreceiver.Cursor.Store.Persistence.{load_exact, DecodesToMaps, has_client-load}
use k8spodlogreceiver.Lifecycle.Failures.{
  connect-StartOutcome, kube_failure, StartOutcome, discovery_failure, held, discovery_started,
  is_live, held_in, storage_failure,
}
use k8spodlogreceiver.Receiver.{cursor_for}
use k8spodlogreceiver.Cursor.Store.{failed, Read, Cursors}
use k8spodlogreceiver.Lifecycle.{
  pod_uid_from_stream_key, storage_extension, lookup, Error, run_workers, Process, Host, Config,
  client_of, start_discovery, connect, Extension, use_storage, open_storage,
}
use k8spodlogreceiver.Discovery.Starting
use k8spodlogreceiver.Lifecycle.{start, other_extension, storage_extension}
use k8spodlogreceiver.Lifecycle.Failures.{failure}
use k8spodlogreceiver.Cursor.Store
use mathlib.Core.Path.{subst}

open_storage-exact :
    (id : Option Bytes) (extensions : List (Bytes × Extension))
    → open_storage id extensions
      ≡ Starting.outcome (storage_failure id extensions) (held_in id extensions)
unfolding open_storage client_of
open_storage-exact none extensions = refl
open_storage-exact (some id) extensions = elim (Option-cases (lookup id extensions)) [
  | inl e ↦ ground (arith, e)
  | inr (other_extension, e) ↦ ground (arith, e)
  | inr (storage_extension none, e) ↦ ground (arith, e)
  | inr (storage_extension (some r), e) ↦ ground (arith, e)
]

held-client :
    (id : Option Bytes) (extensions : List (Bytes × Extension))
    → storage_failure id extensions ≡ none
    → is_some (held_in id extensions) ≡ is_some id
held-client none extensions h = refl
held-client (some id) extensions h = elim (Option-cases (lookup id extensions)) [
  | inl e ↦ ground (arith, e, h)
  | inr (other_extension, e) ↦ ground (arith, e, h)
  | inr (storage_extension none, e) ↦ ground (arith, e, h)
  | inr (storage_extension (some r), e) ↦ ground (arith, e, h)
]

receiver-connect :
    (cfg : Config) (host : Host) (p : Process) → (connect cfg host p).0.receiver ≡ p.receiver
unfolding connect start_discovery run_workers
receiver-connect cfg host p =
    ground (arith, discovery_started cfg host, Option-cases (discovery_failure cfg host))

persists-use_storage :
    (decode : Bytes → Option Cursors) (client : Option Read) (p : Process)
    → Store.persists (use_storage decode client p).receiver.cursors ≡ is_some client
unfolding use_storage Store.persists Store.new_store
persists-use_storage decode client p = has_client-load decode _ _

cursor_for-use_storage :
    (decode : Bytes → Option Cursors) (client : Option Read) (p : Process) (key : Bytes)
    → DecodesToMaps decode
    → cursor_for (use_storage decode client p).receiver key
      ≡ Store.cursor_at key (held decode client)
unfolding use_storage cursor_for Store.new_store Store.get
cursor_for-use_storage decode none p key d =
    load_exact decode (Store.new_store false pod_uid_from_stream_key) failed key d
cursor_for-use_storage decode (some r) p key d =
    load_exact decode (Store.new_store true pod_uid_from_stream_key) r key d

-- The receiver after a start from `p` that gave `e`.
pub record Started (decode : Bytes → Option Cursors) (cfg : Config) (host : Host) (p q : Process)
    (e : Option Error) : Type 0 where
  pub outcome : StartOutcome cfg (is_some cfg.storage_id) p q e (failure cfg host)
  pub positions :
      (key : Bytes)
      → e ≡ none
      → cursor_for q.receiver key
        ≡ Store.cursor_at key (held decode (held_in cfg.storage_id host.extensions))
  pub persists_if : e ≡ none → Store.persists q.receiver.cursors ≡ is_some cfg.storage_id

start-connect :
    (decode : Bytes → Option Cursors) (cfg : Config) (host : Host) (p : Process)
    → storage_failure cfg.storage_id host.extensions ≡ none
    → start decode cfg host p
      ≡ connect cfg host (use_storage decode (held_in cfg.storage_id host.extensions) p)
unfolding start
start-connect decode cfg host p f =
    ground (arith, open_storage-exact cfg.storage_id host.extensions, f)

start-fails :
    (decode : Bytes → Option Cursors) (cfg : Config) (host : Host) (p : Process) (e : Error)
    → storage_failure cfg.storage_id host.extensions ≡ some e
    → start decode cfg host p ≡ (p, some e)
unfolding start
start-fails decode cfg host p e f =
    ground (arith, open_storage-exact cfg.storage_id host.extensions, f)

failure-kube :
    (cfg : Config) (host : Host)
    → storage_failure cfg.storage_id host.extensions ≡ none
    → failure cfg host ≡ kube_failure cfg host
failure-kube cfg host f = ground (arith, f, Option-cases (kube_failure cfg host))

workers-use_storage :
    (decode : Bytes → Option Cursors) (client : Option Read) (p : Process)
    → (use_storage decode client p).workers ≡ p.workers
unfolding use_storage
workers-use_storage decode client p = refl

context-use_storage :
    (decode : Bytes → Option Cursors) (client : Option Read) (p : Process)
    → (use_storage decode client p).context ≡ p.context
unfolding use_storage
context-use_storage decode client p = refl

connect-Started :
    (decode : Bytes → Option Cursors) (cfg : Config) (host : Host) (p : Process)
    → is_live p.context ≡ false
    → DecodesToMaps decode
    → storage_failure cfg.storage_id host.extensions ≡ none
    → let (q, e) =
        connect cfg host (use_storage decode (held_in cfg.storage_id host.extensions) p) in
      Started decode cfg host p q e
connect-Started decode cfg host p h d f = record {
  outcome = record {
    fails = o.fails ∙ sym (failure-kube cfg host f);
    workers_are =
        o.workers_are
        ∙ ground (
          arith,
          failure-kube cfg host f,
          persists-use_storage decode client p,
          workers-use_storage decode client p,
          held-client cfg.storage_id host.extensions f,
          Option-cases (kube_failure cfg host),
        );
    runs = o.runs ∙ sym (ap (λ x. not (is_some x)) (failure-kube cfg host f));
  };
  positions = λ key z.
      ap (λ r. cursor_for r key) (receiver-connect cfg host _)
      ∙ cursor_for-use_storage decode client p key d;
  persists_if = λ z.
      ap (λ r. Store.persists r.cursors) (receiver-connect cfg host _)
      ∙ persists-use_storage decode client p
      ∙ held-client cfg.storage_id host.extensions f;
}
  where
    client : Option Read
    client = held_in cfg.storage_id host.extensions

    o :
        let (q, e) = connect cfg host (use_storage decode client p) in
        StartOutcome cfg
          (Store.persists (use_storage decode client p).receiver.cursors)
          (use_storage decode client p)
          q
          e
          (kube_failure cfg host)
    o =
        connect-StartOutcome cfg host (use_storage decode client p)
          (ap is_live (context-use_storage decode client p) ∙ h)

-- Start of a receiver whose run context is not live, with a decoder of the stored text that yields
-- no key twice. The error is the first of those that the host gives rise to: the storage
-- extension's, the client configuration's, the HTTP client's, the clientset's, and that of the
-- first informer which cannot be set up. On an error, no goroutine is added and the run context is
-- not live. Else the run context is live, there are one informer for each watched namespace, the
-- wait for their listing, the pruning, and the flushing exactly where a storage is configured,
-- positions are persisted exactly there too, and every container stands where the storage holds it,
-- or at the zero cursor where it holds nothing readable.
pub start-Started :
    (decode : Bytes → Option Cursors) (cfg : Config) (host : Host) (p : Process)
    → is_live p.context ≡ false
    → DecodesToMaps decode
    → let (q, e) = start decode cfg host p in Started decode cfg host p q e
start-Started decode cfg host p h d =
    elim (Option-cases (storage_failure cfg.storage_id host.extensions)) [
      | inl f ↦
          subst (λ x. Started decode cfg host p x.0 x.1) (sym (start-connect decode cfg host p f))
            (connect-Started decode cfg host p h d f)
      | inr (x, f) ↦
          subst (λ y. Started decode cfg host p y.0 y.1) (sym (start-fails decode cfg host p x f))
            (record {
              outcome = ground (arith, f, h);
              positions = λ key z. absurd (ground (arith, z));
              persists_if = λ z. absurd (ground (arith, z));
            })
    ]
