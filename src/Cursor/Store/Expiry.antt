-- ===== src/Cursor/Store/Expiry.antt =====
-- What Prune drops and what it keeps, over any history of calls.
use k8spodlogreceiver.Prelude.{
  ◌≡◌, refl, ap, ◌⊎◌, Bool, false, not, ◌&&◌, none, some, List, [], ◌∷◌, arith, if◌then◌else◌,
  keep_if, same_iff, Bytes, bytes_eq,
}
use k8spodlogreceiver.Prelude.Maps.{
  lookup, has, put, remove, retain, keys, lookup-retain, lookup-remove,
}
use k8spodlogreceiver.Cursor.{zero_cursor, Bool, List, Instant}
use k8spodlogreceiver.Cursor.Store.{
  get, prune, prune_stale, earlier, keep_if, Bytes, Store, stale_pods, fresh_pods, member,
}

-- No key stands twice: what a Go map guarantees of itself.
abbrev pub Unique {ℓ} : {V : Type ℓ} → List (Bytes × V) → Type 0
Unique [] = Unit
Unique ((k, v) ∷ m) = (has k m ≡ false) × Unique m

pub record IsMap (s : Store) : Type 0 where
  pub cursors_unique : Unique s.cursors
  pub pods_unique : Unique s.last_seen_pods

-- The pod was last seen before the cutoff.
abbrev pub unseen_since : Store → Bytes → Instant → Bool
unseen_since s pod_uid cutoff = elim (lookup pod_uid s.last_seen_pods) [
  | none ↦ false
  | some t ↦ earlier t cutoff
]

pub Unique-remove {ℓ} :
    {V : Type ℓ} (k : Bytes) (m : List (Bytes × V)) → Unique m → Unique (remove k m)
unfolding remove
Unique-remove k [] u = tt
Unique-remove k ((j, v) ∷ m) u = ground (arith, Unique-remove k m u.1, lookup-remove k j m)

pub Unique-put {ℓ} :
    {V : Type ℓ} (k : Bytes) (v : V) (m : List (Bytes × V)) → Unique m → Unique (put k v m)
unfolding put
Unique-put k v m u = (ground (arith, lookup-remove k k m, same_iff k k), Unique-remove k m u)

Unique-retain {ℓ} :
    {V : Type ℓ} (p : Bytes → Bool) (m : List (Bytes × V)) → Unique m → Unique (retain p m)
unfolding retain
Unique-retain p [] u = tt
Unique-retain p ((j, v) ∷ m) u = ground (arith, Unique-retain p m u.1, lookup-retain p j m)

lookup-fresh_pods :
    (cutoff : Instant) (u : Bytes) (m : List (Bytes × Instant))
    → Unique m
    → lookup u (fresh_pods cutoff m)
      ≡ elim (lookup u m) [ none ↦ none | some t ↦ if earlier t cutoff then none else some t ]
unfolding fresh_pods
lookup-fresh_pods cutoff u [] h = refl
lookup-fresh_pods cutoff u ((j, t) ∷ m) h =
    ground
      (arith, lookup-fresh_pods cutoff u m h.1, same_iff j u, ap (λ k. has k m) {x = j} {y = u})

Unique-fresh_pods :
    (cutoff : Instant) (m : List (Bytes × Instant)) → Unique m → Unique (fresh_pods cutoff m)
unfolding fresh_pods
Unique-fresh_pods cutoff [] h = tt
Unique-fresh_pods cutoff ((j, t) ∷ m) h =
    ground (arith, Unique-fresh_pods cutoff m h.1, lookup-fresh_pods cutoff j m h.1)

member-stale_pods :
    (cutoff : Instant) (u : Bytes) (m : List (Bytes × Instant))
    → Unique m
    → member u (stale_pods cutoff m)
      ≡ elim (lookup u m) [ none ↦ false | some t ↦ earlier t cutoff ]
unfolding stale_pods
member-stale_pods cutoff u [] h = refl
member-stale_pods cutoff u ((j, t) ∷ m) h =
    ground
      (arith, member-stale_pods cutoff u m h.1, same_iff j u, ap (λ k. has k m) {x = j} {y = u})

member-keep_if-keys {ℓ} :
    {V : Type ℓ} (p : Bytes → Bool) (k : Bytes) (m : List (Bytes × V))
    → member k (keep_if p (keys m)) ≡ (has k m && p k)
member-keep_if-keys p k [] = refl
member-keep_if-keys p k ((j, v) ∷ m) =
    ground (arith, member-keep_if-keys p k m, same_iff j k, ap p {x = j} {y = k})

get-prune_stale :
    (s : Store) (us : List Bytes) (key : Bytes)
    → get (prune_stale s us).0 key
      ≡ (if member (s.pod_uid_of key) us then zero_cursor else get s key)
unfolding prune_stale get
get-prune_stale s [] key = refl
get-prune_stale s (u ∷ us) key =
    ground (arith, lookup-retain (λ k. not (member (s.pod_uid_of k) (u ∷ us))) key s.cursors)

has-prune_stale :
    (s : Store) (us : List Bytes) (key : Bytes)
    → has key (prune_stale s us).0.cursors
      ≡ (has key s.cursors && not (member (s.pod_uid_of key) us))
unfolding prune_stale
has-prune_stale s [] key = ground arith
has-prune_stale s (u ∷ us) key =
    ground (arith, lookup-retain (λ k. not (member (s.pod_uid_of k) (u ∷ us))) key s.cursors)

member-prune_stale :
    (s : Store) (us : List Bytes) (key : Bytes)
    → member key (prune_stale s us).1 ≡ (has key s.cursors && member (s.pod_uid_of key) us)
unfolding prune_stale
member-prune_stale s [] key = ground arith
member-prune_stale s (u ∷ us) key =
    member-keep_if-keys (λ k. member (s.pod_uid_of k) (u ∷ us)) key s.cursors

last_seen-prune_stale :
    (s : Store) (us : List Bytes) → (prune_stale s us).0.last_seen_pods ≡ s.last_seen_pods
unfolding prune_stale
last_seen-prune_stale s [] = refl
last_seen-prune_stale s (u ∷ us) = refl

pub uid-prune : (s : Store) (cutoff : Instant) → (prune s cutoff).0.pod_uid_of ≡ s.pod_uid_of
unfolding prune
uid-prune s cutoff = go (stale_pods cutoff s.last_seen_pods)
  where
    go :
        (us : List Bytes)
        → (prune_stale
            (record s { last_seen_pods = fresh_pods cutoff s.last_seen_pods })
            us).0.pod_uid_of
          ≡ s.pod_uid_of
    go [] = refl
    go (u ∷ us) = refl

-- A prune keeps a position or drops it.
pub get-prune :
    (s : Store) (cutoff : Instant) (key : Bytes)
    → (get (prune s cutoff).0 key ≡ zero_cursor) ⊎ (get (prune s cutoff).0 key ≡ get s key)
unfolding prune get
get-prune s cutoff key = ground (
  arith,
  get-prune_stale (record s { last_seen_pods = fresh_pods cutoff s.last_seen_pods })
      (stale_pods cutoff s.last_seen_pods) key,
)

-- Prune on a store in which no key stands twice, for every container and every pod: the cursor is
-- dropped exactly when the container's pod was last seen before the cutoff; a key is reported
-- exactly when its cursor was held and is dropped; and just the pods last seen before the cutoff
-- are forgotten.
pub prune_exact :
    (s : Store) (cutoff : Instant) (key u : Bytes)
    → IsMap s
    → (get (prune s cutoff).0 key
        ≡ (if unseen_since s (s.pod_uid_of key) cutoff then zero_cursor else get s key))
      × (member key (prune s cutoff).1
          ≡ (has key s.cursors && unseen_since s (s.pod_uid_of key) cutoff))
      × (lookup u (prune s cutoff).0.last_seen_pods
          ≡ (if unseen_since s u cutoff then none else lookup u s.last_seen_pods))
unfolding prune
prune_exact s cutoff key u h = (
  rw (get-prune_stale, member-stale_pods cutoff (s.pod_uid_of key) s.last_seen_pods h.pods_unique)
      (unfold get in refl),
  rw member-prune_stale
      (rw (member-stale_pods cutoff (s.pod_uid_of key) s.last_seen_pods h.pods_unique) refl),
  rw last_seen-prune_stale
      (ground (arith, lookup-fresh_pods cutoff u s.last_seen_pods h.pods_unique)),
)

IsMap-prune_stale : (s : Store) (us : List Bytes) → IsMap s → IsMap (prune_stale s us).0
unfolding prune_stale
IsMap-prune_stale s [] h = h
IsMap-prune_stale s (u ∷ us) h = record {
  cursors_unique = Unique-retain _ s.cursors h.cursors_unique;
  pods_unique = h.pods_unique;
}

pub IsMap-prune : (s : Store) (cutoff : Instant) → IsMap s → IsMap (prune s cutoff).0
unfolding prune
IsMap-prune s cutoff h = IsMap-prune_stale _ (stale_pods cutoff s.last_seen_pods) (record {
  cursors_unique = h.cursors_unique;
  pods_unique = Unique-fresh_pods cutoff s.last_seen_pods h.pods_unique;
})

-- Which containers still have an entry.
pub has-prune :
    (s : Store) (cutoff : Instant) (key : Bytes)
    → IsMap s
    → has key (prune s cutoff).0.cursors
      ≡ (has key s.cursors && not (unseen_since s (s.pod_uid_of key) cutoff))
unfolding prune
has-prune s cutoff key h =
    rw has-prune_stale
      (rw (member-stale_pods cutoff (s.pod_uid_of key) s.last_seen_pods h.pods_unique) refl)
