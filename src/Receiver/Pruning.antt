-- ===== src/Receiver/Pruning.antt =====
-- What the receiver drops with the cursors that expire.
use k8spodlogreceiver.Prelude.{
  ◌-◌, ◌≡◌, refl, ap, ◌∙◌, ◌⊎◌, Bool, not, ◌&&◌, none, List, [], ◌∷◌, arith, if◌then◌else◌, Bytes,
  bytes_eq,
}
use k8spodlogreceiver.Prelude.Maps.{remove, lookup, has, lookup-remove}
use k8spodlogreceiver.Instant.{Instant}
use k8spodlogreceiver.Cursor.{zero_cursor}
use k8spodlogreceiver.Cursor.Store
use k8spodlogreceiver.Cursor.Store.{Store, stale_after, member}
use k8spodlogreceiver.Cursor.Store.Expiry.{get-prune, IsMap, unseen_since, prune_exact}
use k8spodlogreceiver.Receiver.{prune_store, cursor_for, Receiver, drop_states, prune_stale_cursors}

-- What is left at the key `j`, if `gone` says whether its cursor was dropped.
pub record Dropped (r r' : Receiver) (gone : Bool) (j : Bytes) : Type 0 where
  pub terminated : has j r'.terminated_containers ≡ (not gone && has j r.terminated_containers)
  pub drained : has j r'.drained_containers ≡ (not gone && has j r.drained_containers)
  pub count : lookup j r'.restart_counts ≡ (if gone then none else lookup j r.restart_counts)
  pub streams : r'.active_streams ≡ r.active_streams
  pub store : r'.cursors ≡ r.cursors

Dropped-drop_states :
    (keys : List Bytes) (r : Receiver) (j : Bytes)
    → Dropped r (drop_states r keys) (member j keys) j
unfolding drop_states
Dropped-drop_states [] r j = record {
  terminated = refl;
  drained = refl;
  count = refl;
  streams = refl;
  store = refl;
}
Dropped-drop_states (key ∷ keys) r j =
    let d =
      Dropped-drop_states keys
        (record r {
          restart_counts = remove key r.restart_counts;
          terminated_containers = remove key r.terminated_containers;
          drained_containers = remove key r.drained_containers;
        })
        j in
    record {
      terminated = ground (arith, d.terminated, lookup-remove key j r.terminated_containers);
      drained = ground (arith, d.drained, lookup-remove key j r.drained_containers);
      count = ground (arith, d.count, lookup-remove key j r.restart_counts);
      streams = d.streams;
      store = d.store;
    }

-- The prune that runs every minute, at every container's key, in a receiver whose store has no key
-- twice: the cursor goes exactly if the container's pod was last seen more than two hours ago; where
-- there was one and it goes, the terminal mark, the drained mark and the restart count go with it,
-- and elsewhere they stay; a running stream is never touched.
pub prune_stale_cursors_exact :
    (r : Receiver) (now : Instant) (j : Bytes)
    → IsMap r.cursors
    → let r' = prune_stale_cursors r now in
      let unseen = unseen_since r.cursors (r.cursors.pod_uid_of j) (now - stale_after) in
      let gone = has j r.cursors.cursors && unseen in
      (Store.get r'.cursors j ≡ (if unseen then zero_cursor else Store.get r.cursors j))
      × (has j r'.terminated_containers ≡ (not gone && has j r.terminated_containers))
      × (has j r'.drained_containers ≡ (not gone && has j r.drained_containers))
      × (lookup j r'.restart_counts ≡ (if gone then none else lookup j r.restart_counts))
      × (r'.active_streams ≡ r.active_streams)
unfolding prune_stale_cursors prune_store
prune_stale_cursors_exact r now j m =
    let p = prune_exact r.cursors (now - stale_after) j j m in
    let d =
      Dropped-drop_states (Store.prune r.cursors (now - stale_after)).1
        (record r { cursors = (Store.prune r.cursors (now - stale_after)).0 }) j in
    (
      ap (λ s. Store.get s j) d.store ∙ p.0,
      d.terminated ∙ ap (λ b. not b && has j r.terminated_containers) p.1,
      d.drained ∙ ap (λ b. not b && has j r.drained_containers) p.1,
      d.count ∙ ap (λ b. if b then none else lookup j r.restart_counts) p.1,
      d.streams,
    )

-- Whatever the store holds, the prune keeps a position or drops it.
pub cursor_for-prune :
    (r : Receiver) (now : Instant) (j : Bytes)
    → (cursor_for (prune_store r now).0 j ≡ zero_cursor)
      ⊎ (cursor_for (prune_store r now).0 j ≡ cursor_for r j)
unfolding prune_store cursor_for
cursor_for-prune r now j = get-prune r.cursors (now - stale_after) j

pub cursors-drop_states :
    (keys : List Bytes) (r : Receiver) → (drop_states r keys).cursors ≡ r.cursors
cursors-drop_states keys r = (Dropped-drop_states keys r []).store

pub streams-drop_states :
    (keys : List Bytes) (r : Receiver) → (drop_states r keys).active_streams ≡ r.active_streams
streams-drop_states keys r = (Dropped-drop_states keys r []).streams
