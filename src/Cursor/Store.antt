-- ===== src/Cursor/Store.antt =====
-- internal/cursor/store.go: the set of cursors, one per container, its expiry and persistence.
-- Each method holds the store's mutex from its first access to its last, so a call is one step.
-- `time.Now()` is an argument, and logging is left out.
pub mod Advance
pub mod Expiry
pub mod History
pub mod Persistence
pub mod Refines
use k8spodlogreceiver.Prelude.{
  ℕ, zero, suc, ◌+◌, ◌-◌, ◌*◌, ◌/◌, ◌%◌, ◌≤◌, ◌<◌, ◌≡◌, refl, sym, ap, ◌∙◌, ◌≢◌, ◌↔◌, ◌⊎◌, inl, inr,
  Bool, true, false, not, ◌&&◌, ◌||◌, Option, none, some, List, [], ◌∷◌, ◌++◌, map, arith, ltb, leb,
  ◌==◌, if◌then◌else◌, ==_iff, ltb→lt, lt→ltb, leb→le, Bool-cases, Option-cases, is_some, length,
  take, drop, keep_if, All, length-append, length-take_le, length-take, length-drop,
  take-append-drop, keep_if-append, Eq, same, same_iff, same_refl, Bytes, bytes_eq,
}
use k8spodlogreceiver.Prelude.Maps.{lookup, has, put, remove, retain, keys}
use k8spodlogreceiver.Instant.{Instant, earlier}
use k8spodlogreceiver.Cursor.{[], false, ◌∷◌, List, Bool, Cursor, zero_cursor, is_zero, after}

abbrev pub Cursors : Type 0
Cursors = List (Bytes × Cursor)

pub record Store : Type 0 where
  pub has_client : Bool  -- client != nil
  pub pod_uid_of : Bytes → Bytes
  pub cursors : Cursors
  pub last_seen_pods : List (Bytes × Instant)

-- flushInterval, StaleAfter and PruneInterval, in nanoseconds
abbrev pub flush_interval : ℕ
flush_interval = 30 * 1000000000

abbrev pub stale_after : ℕ
stale_after = 2 * 3600 * 1000000000

abbrev pub prune_interval : ℕ
prune_interval = 60 * 1000000000

-- NewStore
unfoldable pub new_store : Bool → (Bytes → Bytes) → Store
new_store has_client pod_uid_of = record {
  has_client = has_client;
  pod_uid_of = pod_uid_of;
  cursors = [];
  last_seen_pods = [];
}

-- Persists
unfoldable pub persists : Store → Bool
persists s = s.has_client

-- s.cursors[key], the zero cursor where the key is missing
abbrev pub cursor_at : Bytes → Cursors → Cursor
cursor_at key m = elim (lookup key m) [ none ↦ zero_cursor | some c ↦ c ]

-- Get
unfoldable pub get : Store → Bytes → Cursor
get s key = cursor_at key s.cursors

-- Advance
unfoldable pub advance : Store → Bytes → Cursor → Store
unfolding get
advance s key c =
    if is_zero c
    then s
    else if after c (get s key)
    then record s { cursors = put key c s.cursors }
    else s

-- Forget
unfoldable pub forget : Store → Bytes → Store
forget s key = record s { cursors = remove key s.cursors }

-- MarkPodSeen, at the time `now`
unfoldable pub mark_pod_seen : Store → Bytes → Instant → Store
mark_pod_seen s pod_uid now = record s { last_seen_pods = put pod_uid now s.last_seen_pods }

-- The first loop of Prune: the pods last seen before the cutoff, and the ones that stay.
stale_pods : Instant → List (Bytes × Instant) → List Bytes
stale_pods cutoff [] = []
stale_pods cutoff ((pod_uid, last_seen) ∷ m) =
    let rest = stale_pods cutoff m in if earlier last_seen cutoff then pod_uid ∷ rest else rest

fresh_pods : Instant → List (Bytes × Instant) → List (Bytes × Instant)
fresh_pods cutoff [] = []
fresh_pods cutoff ((pod_uid, last_seen) ∷ m) =
    let rest = fresh_pods cutoff m in
    if earlier last_seen cutoff then rest else (pod_uid, last_seen) ∷ rest

abbrev pub member : Bytes → List Bytes → Bool
member a [] = false
member a (b ∷ bs) = same b a || member a bs

prune_stale : Store → List Bytes → Store × List Bytes
prune_stale s [] = (s, [])
prune_stale s (u ∷ us) = (
  record s { cursors = retain (λ key. not (member (s.pod_uid_of key) (u ∷ us))) s.cursors },
  keep_if (λ key. member (s.pod_uid_of key) (u ∷ us)) (keys s.cursors),
)

-- Prune: the store, and the keys that it dropped
unfoldable pub prune : Store → Instant → Store × List Bytes
unfolding stale_pods fresh_pods prune_stale
prune s cutoff =
    prune_stale (record s { last_seen_pods = fresh_pods cutoff s.last_seen_pods })
      (stale_pods cutoff s.last_seen_pods)

-- What the storage client answers to a read.
pub data Read : Type 0 where
  failed : Read
  value : Bytes → Read

-- for k, v := range stored { s.cursors[k] = v }
merge : Cursors → Cursors → Cursors
merge [] m = m
merge ((k, v) ∷ stored) m = merge stored (put k v m)

merge_decoded : Store → Option Cursors → Store
merge_decoded s none = s
merge_decoded s (some stored) = record s { cursors = merge stored s.cursors }

-- `decode` is `json.Unmarshal` into a map of cursors; `none` is its error.
load_raw : (Bytes → Option Cursors) → Store → Read → Store
load_raw decode s failed = s
load_raw decode s (value []) = s
load_raw decode s (value (b ∷ bs)) = merge_decoded s (decode (b ∷ bs))

-- Load, where the client answers `read` to the read of the storage key
unfoldable pub load : (Bytes → Option Cursors) → Store → Read → Store
unfolding load_raw merge_decoded merge
load decode s read = if s.has_client then load_raw decode s read else s

-- Flush: what is written under the storage key, if anything; `encode` is `json.Marshal`
unfoldable pub flush : (Cursors → Option Bytes) → Store → Option Bytes
flush encode s = if s.has_client then encode s.cursors else none

-- Size
unfoldable pub size : Store → ℕ
size s = length s.cursors
