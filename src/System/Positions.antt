-- ===== src/System/Positions.antt =====
-- What the receiver's methods leave of a container's position.
use k8spodlogreceiver.Prelude.{
  ℕ, ◌≡◌, refl, ap, ◌∙◌, ◌≢◌, ◌⊎◌, inr, Bool, true, false, Option, none, some, arith, same_iff,
  Bytes, bytes_eq,
}
use k8spodlogreceiver.Lifecycle.Failures.{held}
use k8spodlogreceiver.Collector.Persisting.{held_in-with_storage, not_live}
use k8spodlogreceiver.Lifecycle.Starting.{start-Started, Started}
use k8spodlogreceiver.Cursor.Store.Persistence.{readable, DecodesToMaps}
use k8spodlogreceiver.Cursor.Store.{Read, Cursors}
use k8spodlogreceiver.Instant.{Instant}
use k8spodlogreceiver.Cursor.Store
use k8spodlogreceiver.Lifecycle.{start, new_process, Host}
use k8spodlogreceiver.System.{with_storage, failure, Config, Other}
use k8spodlogreceiver.Receiver.Generations.{
  Step, ensures, releases, reports, marks, sees, deletes, prunes, drops,
}
use k8spodlogreceiver.Receiver.Pruning.{cursor_for-prune, cursors-drop_states}
use k8spodlogreceiver.Receiver.Positions.{cursors-mark_container_states, cursors-ensure_stream}
use k8spodlogreceiver.Receiver.Release.{release_stream_exact, advance_cursor_exact}
use k8spodlogreceiver.Receiver.Deletion.{on_pod_deleted-Deleted}
use k8spodlogreceiver.Cursor.{is_zero, zero_cursor, Cursor}
use k8spodlogreceiver.Pod.{Pod}
use k8spodlogreceiver.Receiver.{
  advance_cursor, on_pod_deleted, cursor_for, Receiver, record_pod_uid_seen,
}

-- Kept, or dropped.
abbrev pub KeptOrDropped : Bytes → Receiver → Receiver → Type 0
KeptOrDropped key r s = (cursor_for s key ≡ zero_cursor) ⊎ (cursor_for s key ≡ cursor_for r key)

position-same : (key : Bytes) (r s : Receiver) → s.cursors ≡ r.cursors → KeptOrDropped key r s
unfolding cursor_for
position-same key r s e = inr (ap (λ x. Store.get x key) e)

position-report :
    (key j : Bytes) (gen : ℕ) (c : Cursor) (r : Receiver)
    → j ≢ key
    → KeptOrDropped key r (advance_cursor r j gen c)
unfolding cursor_for
position-report key j gen c r d =
    inr (ground (arith, advance_cursor_exact r j key gen c, same_iff j key, d))

position-delete :
    (key : Bytes) (r : Receiver) (pod : Pod) (inferred : Bool)
    → KeptOrDropped key r (on_pod_deleted r pod inferred)
unfolding cursor_for
position-delete key r pod inferred =
    ground (arith, (on_pod_deleted-Deleted r pod inferred key).cursor)

position-see :
    (key : Bytes) (r : Receiver) (pod_uid : Bytes) (now : Instant)
    → KeptOrDropped key r (record_pod_uid_seen r pod_uid now)
unfolding record_pod_uid_seen cursor_for Store.mark_pod_seen Store.get
position-see key r pod_uid now = inr refl

-- No method of the receiver moves a container's position but the reports of its own streams.
pub position-Step :
    (key : Bytes) {r s : Receiver} (st : Step r s) → Other key st → KeptOrDropped key r s
position-Step key (ensures pod c h) o = position-same key _ _ (cursors-ensure_stream _ pod c)
position-Step key (releases j gen) o = position-same key _ _ (release_stream_exact _ j key gen).3
position-Step key (reports j gen c) o = position-report key j gen c _ o
position-Step key (marks pod) o = position-same key _ _ (cursors-mark_container_states _ pod)
position-Step key (sees pod_uid now) o = position-see key _ pod_uid now
position-Step key (deletes pod inferred) o = position-delete key _ pod inferred
position-Step key (prunes now) o = cursor_for-prune _ now key
position-Step key (drops keys) o = position-same key _ _ (cursors-drop_states keys _)

-- A report, from whichever stream, leaves the position or puts the report in its place.
pub position-advance_cursor :
    (key : Bytes) (r : Receiver) (gen : ℕ) (c : Cursor)
    → (cursor_for (advance_cursor r key gen c) key ≡ cursor_for r key)
      ⊎ ((is_zero c ≡ false) × (cursor_for (advance_cursor r key gen c) key ≡ c))
unfolding cursor_for
position-advance_cursor key r gen c = ground (arith, advance_cursor_exact r key key gen c)

-- A collector that starts without an error has the position that the storage holds.
pub position_in_new_life :
    (decode : Bytes → Option Cursors) (cfg : Config) (id key : Bytes) (disk : Read) (host : Host)
    → cfg.storage_id ≡ some id
    → DecodesToMaps decode
    → failure cfg (with_storage id disk host) ≡ none
    → cursor_for (start decode cfg (with_storage id disk host) new_process).0.receiver key
      ≡ Store.cursor_at key (readable decode true disk)
position_in_new_life decode cfg id key disk host i d f =
    started.positions key (started.outcome.fails ∙ f)
    ∙ ap (λ h. Store.cursor_at key (held decode h)) (held_in-with_storage cfg id disk host i)
  where
    started :
        let (p, e) = start decode cfg (with_storage id disk host) new_process in
        Started decode cfg (with_storage id disk host) new_process p e
    started = start-Started decode cfg (with_storage id disk host) new_process not_live d
