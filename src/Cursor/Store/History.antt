-- ===== src/Cursor/Store/History.antt =====
-- Histories of calls on a store.
use k8spodlogreceiver.Prelude.{
  ◌≡◌, ◌≢◌, true, none, List, [], ◌∷◌, arith, All, same_iff, Bytes, bytes_eq,
}
use k8spodlogreceiver.Cursor.Store.Expiry.{
  IsMap-prune, Unique-remove, has-prune, Unique-put, prune_exact, uid-prune, IsMap,
}
use k8spodlogreceiver.Prelude.Maps.{lookup, has, lookup-put, lookup-remove}
use k8spodlogreceiver.Cursor.{Instant, Cursor}
use k8spodlogreceiver.Cursor.Store.{Store, advance, forget, mark_pod_seen, prune}

pub data Call : Type 0 where
  advances : Bytes → Cursor → Call
  forgets : Bytes → Call
  sees : Bytes → Instant → Call
  prunes : Instant → Call

unfoldable pub step : Store → Call → Store
step s (advances key c) = advance s key c
step s (forgets key) = forget s key
step s (sees pod_uid now) = mark_pod_seen s pod_uid now
step s (prunes cutoff) = (prune s cutoff).0

unfoldable pub run : Store → List Call → Store
run s [] = s
run s (c ∷ cs) = run (step s c) cs

pub step-IsMap : (s : Store) (c : Call) → IsMap s → IsMap (step s c)
unfolding step advance forget mark_pod_seen
step-IsMap s (advances key c) h = ground (arith, Unique-put key c s.cursors h.cursors_unique)
step-IsMap s (forgets key) h = record {
  cursors_unique = Unique-remove key s.cursors h.cursors_unique;
  pods_unique = h.pods_unique;
}
step-IsMap s (sees u now) h = record {
  cursors_unique = h.cursors_unique;
  pods_unique = Unique-put u now s.last_seen_pods h.pods_unique;
}
step-IsMap s (prunes cutoff) h = IsMap-prune s cutoff h

-- The call neither reports the pod `u` nor forgets the container `key`.
abbrev pub Ignores : Bytes → Bytes → Call → Type 0
Ignores key u (advances k c) = Unit
Ignores key u (forgets k) = k ≢ key
Ignores key u (sees v now) = v ≢ u
Ignores key u (prunes cutoff) = Unit

-- The pod `u` of the container `key` has never been reported, and the container has a cursor.
pub record NeverSeen (key u : Bytes) (s : Store) : Type 0 where
  pub of_pod : s.pod_uid_of key ≡ u
  pub unseen : lookup u s.last_seen_pods ≡ none
  pub held : has key s.cursors ≡ true
  pub is_map : IsMap s

step-NeverSeen :
    (key u : Bytes) (s : Store) (c : Call)
    → Ignores key u c
    → NeverSeen key u s
    → NeverSeen key u (step s c)
unfolding step advance forget mark_pod_seen
step-NeverSeen key u s (advances k c) i h = record {
  of_pod = ground (arith, h.of_pod);
  unseen = ground (arith, h.unseen);
  held = ground (arith, h.held, lookup-put k key c s.cursors, same_iff k key);
  is_map = step-IsMap s (advances k c) h.is_map;
}
step-NeverSeen key u s (forgets k) i h = record {
  of_pod = h.of_pod;
  unseen = h.unseen;
  held = ground (arith, h.held, lookup-remove k key s.cursors, same_iff k key);
  is_map = step-IsMap s (forgets k) h.is_map;
}
step-NeverSeen key u s (sees v now) i h = record {
  of_pod = h.of_pod;
  unseen = ground (arith, h.unseen, lookup-put v u now s.last_seen_pods, same_iff v u);
  held = h.held;
  is_map = step-IsMap s (sees v now) h.is_map;
}
step-NeverSeen key u s (prunes cutoff) i h = record {
  of_pod = rw uid-prune h.of_pod;
  unseen = ground (arith, h.unseen, prune_exact s cutoff key u h.is_map);
  held = ground (arith, h.unseen, h.held, h.of_pod, has-prune s cutoff key h.is_map);
  is_map = IsMap-prune s cutoff h.is_map;
}

-- In a store in which no key stands twice, the cursor of a container whose pod the store has never
-- been told of, such as one restored from storage, stays for ever: whatever cutoffs the prunes of
-- a history take, it is still held after it, unless the history reports the pod or forgets the
-- container.
pub never_expires :
    (key u : Bytes) (s : Store) (cs : List Call)
    → NeverSeen key u s
    → All (Ignores key u) cs
    → NeverSeen key u (run s cs)
unfolding run
never_expires key u s [] h i = h
never_expires key u s (c ∷ cs) h i =
    never_expires key u (step s c) cs (step-NeverSeen key u s c i.0 h) i.1
