-- ===== src/Receiver/Apart.antt =====
-- What the other goroutines and the other pods' events leave of a running stream's key.
use k8spodlogreceiver.Prelude.{
  ℕ, ◌+◌, ◌-◌, ◌%◌, ◌≡◌, refl, ap, ◌∙◌, ◌≢◌, ◌⊎◌, inl, inr, Bool, true, false, ◌&&◌, List, arith,
  if◌then◌else◌, same, same_iff, Bytes, bytes_eq,
}
use k8spodlogreceiver.Cursor.Store.Advance.{later_of}
use k8spodlogreceiver.Receiver.Pruning.{cursors-drop_states, streams-drop_states}
use k8spodlogreceiver.Cursor.Store.Expiry.{prune_exact, unseen_since, IsMap}
use k8spodlogreceiver.Receiver.Deletion.{on_pod_deleted-Deleted, is_key_of}
use k8spodlogreceiver.Receiver.Positions.{cursors-ensure_stream, cursors-mark_container_states}
use k8spodlogreceiver.Receiver.Generations.{streams-mark_container_states}
use k8spodlogreceiver.Receiver.Release.{
  advance_cursor_exact, streams-advance_cursor, owned, release_stream_exact, owns,
}
use k8spodlogreceiver.Prelude.Maps.{lookup, lookup-put}
use k8spodlogreceiver.Cursor.Store
use k8spodlogreceiver.Cursor.Store.{stale_after}
use k8spodlogreceiver.Receiver.{
  drop_states, prune_store, u64_mod, on_pod_deleted, key_of, record_pod_uid_seen, Instant,
  mark_container_states, Container, Pod, release_stream, advance_cursor, Cursor, Receiver,
  cursor_for, ensure_stream, start_stream,
}

-- A step of another stream, or of another pod's event, or one that does not concern a stream that
-- runs: the events of its own pod but the deletion, and a prune that finds the pod alive.
pub data Elsewhere (key : Bytes) (gen : ℕ) (r : Receiver) : Receiver → Type 0 where
  reports :
      (j : Bytes) (g : ℕ) (c : Cursor)
      → (j ≢ key) ⊎ (g ≢ gen)
      → Elsewhere key gen r (advance_cursor r j g c)
  releases :
      (j : Bytes) (g : ℕ) → (j ≢ key) ⊎ (g ≢ gen) → Elsewhere key gen r (release_stream r j g)
  ensures : (pod : Pod) (c : Container) → Elsewhere key gen r (ensure_stream r pod c)
  marks : (pod : Pod) → Elsewhere key gen r (mark_container_states r pod)
  sees : (pod_uid : Bytes) (now : Instant) → Elsewhere key gen r (record_pod_uid_seen r pod_uid now)
  deletes :
      (pod : Pod) (inferred : Bool)
      → is_key_of pod key ≡ false
      → Elsewhere key gen r (on_pod_deleted r pod inferred)
  prunes :
      (now : Instant)
      → IsMap r.cursors
      → unseen_since r.cursors (r.cursors.pod_uid_of key) (now - stale_after) ≡ false
      → Elsewhere key gen r (prune_store r now).0
  drops : (keys : List Bytes) → Elsewhere key gen r (drop_states r keys)

-- The stream still owns the key, and the key's position is the same.
pub record Untouched (key : Bytes) (gen : ℕ) (r s : Receiver) : Type 0 where
  pub owner : owns s key gen ≡ true
  pub position : cursor_for s key ≡ cursor_for r key

Untouched-same :
    (key : Bytes) (gen : ℕ) (r s : Receiver)
    → owns r key gen ≡ true
    → s.active_streams ≡ r.active_streams
    → s.cursors ≡ r.cursors
    → Untouched key gen r s
unfolding cursor_for
Untouched-same key gen r s o a c = record {
  owner = ap (owned key gen) a ∙ o;
  position = ap (λ x. Store.get x key) c;
}

not_mine :
    (key j : Bytes) (gen g : ℕ) (r : Receiver)
    → owns r key gen ≡ true
    → (j ≢ key) ⊎ (g ≢ gen)
    → (owns r j g && same j key) ≡ false
not_mine key j gen g r o (inl d) = ground (arith, same_iff j key, d)
not_mine key j gen g r o (inr d) =
    ground (arith, same_iff j key, d, o, ap (λ k. lookup k r.active_streams) {x = j} {y = key})

Untouched-report :
    (key j : Bytes) (gen g : ℕ) (r : Receiver) (c : Cursor)
    → owns r key gen ≡ true
    → (j ≢ key) ⊎ (g ≢ gen)
    → Untouched key gen r (advance_cursor r j g c)
unfolding cursor_for
Untouched-report key j gen g r c o d = record {
  owner = ap (owned key gen) (streams-advance_cursor r j g c) ∙ o;
  position =
      advance_cursor_exact r j key g c
      ∙ ap (λ b. if b then later_of (Store.get r.cursors key) c else Store.get r.cursors key)
          (not_mine key j gen g r o d);
}

Untouched-release :
    (key j : Bytes) (gen g : ℕ) (r : Receiver)
    → owns r key gen ≡ true
    → (j ≢ key) ⊎ (g ≢ gen)
    → Untouched key gen r (release_stream r j g)
unfolding cursor_for
Untouched-release key j gen g r o d =
    let x = release_stream_exact r j key g in
    record {
      owner = ground (arith, x.0, not_mine key j gen g r o d, o);
      position = ap (λ s. Store.get s key) x.3;
    }

Untouched-ensure :
    (key : Bytes) (gen : ℕ) (r : Receiver) (pod : Pod) (c : Container)
    → owns r key gen ≡ true
    → Untouched key gen r (ensure_stream r pod c)
unfolding ensure_stream start_stream cursor_for
Untouched-ensure key gen r pod c o = record {
  owner = ground (
    arith,
    o,
    lookup-put (key_of pod c.name) key ((r.next_stream_gen + 1) % u64_mod) r.active_streams,
    same_iff (key_of pod c.name) key,
    ap (λ k. lookup k r.active_streams) {x = key_of pod c.name} {y = key},
  );
  position = ap (λ s. Store.get s key) (cursors-ensure_stream r pod c);
}

Untouched-see :
    (key : Bytes) (gen : ℕ) (r : Receiver) (u : Bytes) (now : Instant)
    → owns r key gen ≡ true
    → Untouched key gen r (record_pod_uid_seen r u now)
unfolding record_pod_uid_seen cursor_for Store.mark_pod_seen Store.get
Untouched-see key gen r u now o = record { owner = o; position = refl }

Untouched-delete :
    (key : Bytes) (gen : ℕ) (r : Receiver) (pod : Pod) (inferred : Bool)
    → owns r key gen ≡ true
    → is_key_of pod key ≡ false
    → Untouched key gen r (on_pod_deleted r pod inferred)
unfolding cursor_for
Untouched-delete key gen r pod inferred o d =
    let x = on_pod_deleted-Deleted r pod inferred key in
    record { owner = ground (arith, x.stream, d, o); position = ground (arith, x.cursor, d) }

Untouched-prune :
    (key : Bytes) (gen : ℕ) (r : Receiver) (now : Instant)
    → owns r key gen ≡ true
    → IsMap r.cursors
    → unseen_since r.cursors (r.cursors.pod_uid_of key) (now - stale_after) ≡ false
    → Untouched key gen r (prune_store r now).0
unfolding cursor_for prune_store
Untouched-prune key gen r now o m d =
    let x = prune_exact r.cursors (now - stale_after) key key m in
    record { owner = o; position = ground (arith, x.0, d) }

pub Untouched-Elsewhere :
    {key : Bytes} {gen : ℕ} {r s : Receiver}
    → owns r key gen ≡ true
    → Elsewhere key gen r s
    → Untouched key gen r s
Untouched-Elsewhere o (reports j g c d) = Untouched-report _ j _ g _ c o d
Untouched-Elsewhere o (releases j g d) = Untouched-release _ j _ g _ o d
Untouched-Elsewhere o (ensures pod c) = Untouched-ensure _ _ _ pod c o
Untouched-Elsewhere o (marks pod) =
    Untouched-same _ _ _ _ o (streams-mark_container_states _ pod)
      (cursors-mark_container_states _ pod)
Untouched-Elsewhere o (sees u now) = Untouched-see _ _ _ u now o
Untouched-Elsewhere o (deletes pod inferred d) = Untouched-delete _ _ _ pod inferred o d
Untouched-Elsewhere o (prunes now m d) = Untouched-prune _ _ _ now o m d
Untouched-Elsewhere o (drops keys) =
    Untouched-same _ _ _ _ o (streams-drop_states keys _) (cursors-drop_states keys _)
