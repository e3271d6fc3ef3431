-- ===== src/Cursor/Store/Persistence.antt =====
-- What a restart reads back.
use k8spodlogreceiver.Prelude.{
  ℕ, ◌≡◌, refl, ap, ◌∙◌, inl, inr, Bool, true, false, Option, none, some, [], ◌∷◌, arith,
  Option-cases, same_iff, Bytes, bytes_eq,
}
use k8spodlogreceiver.Prelude.Maps.{lookup, put, lookup-put}
use k8spodlogreceiver.Cursor.Store.{
  merge_decoded, load_raw, has, Store, Cursors, Read, failed, value, new_store, get, load, flush,
  merge,
}
use k8spodlogreceiver.Cursor.Store.Expiry.{Unique}

lookup-merge :
    (stored m : Cursors) (key : Bytes)
    → Unique stored
    → lookup key (merge stored m)
      ≡ elim (lookup key stored) [ none ↦ lookup key m | some c ↦ some c ]
unfolding merge
lookup-merge [] m key h = refl
lookup-merge ((k, v) ∷ stored) m key h = ground (
  arith,
  lookup-merge stored (put k v m) key h.1,
  lookup-put k key v m,
  same_iff k key,
  ap (λ j. has j stored) {x = k} {y = key},
)

-- The cursors that a read of the storage yields: none where there is no client, the read failed,
-- there is no value yet, or the value is unreadable.
abbrev pub readable : (Bytes → Option Cursors) → Bool → Read → Cursors
readable decode false r = []
readable decode true failed = []
readable decode true (value []) = []
readable decode true (value (b ∷ bs)) = elim (decode (b ∷ bs)) [ none ↦ [] | some m ↦ m ]

abbrev pub DecodesToMaps : (Bytes → Option Cursors) → Type 0
DecodesToMaps decode = (raw : Bytes) (m : Cursors) → decode raw ≡ some m → Unique m

load-readable :
    (decode : Bytes → Option Cursors) (s : Store) (b : Bool) (r : Read) (key : Bytes)
    → s.has_client ≡ b
    → DecodesToMaps decode
    → get (load decode s r) key
      ≡ elim (lookup key (readable decode b r)) [ none ↦ get s key | some c ↦ c ]
unfolding get load
load-readable decode s false r key e d = ground arith
load-readable decode s true failed key e d = ground arith
load-readable decode s true (value []) key e d = ground arith
load-readable decode s true (value (b ∷ bs)) key e d = elim (Option-cases (decode (b ∷ bs))) [
  | inl n ↦ ground arith
  | inr (m, h) ↦ ground (arith, lookup-merge m s.cursors key (d (b ∷ bs) m h))
]

pub has_client-load :
    (decode : Bytes → Option Cursors) (s : Store) (r : Read)
    → (load decode s r).has_client ≡ s.has_client
unfolding load load_raw merge_decoded
has_client-load decode s failed = ground arith
has_client-load decode s (value []) = ground arith
has_client-load decode s (value (b ∷ bs)) = ground (arith, Option-cases (decode (b ∷ bs)))

-- With a decoder of the stored text that yields no key twice: Load never loses a position that the
-- storage does not speak of, and never fails: a stored cursor replaces the one in memory, and
-- where there is no client, no value or no readable value, every position stays.
pub load_exact :
    (decode : Bytes → Option Cursors) (s : Store) (r : Read) (key : Bytes)
    → DecodesToMaps decode
    → get (load decode s r) key
      ≡ elim (lookup key (readable decode s.has_client r)) [ none ↦ get s key | some c ↦ c ]
load_exact decode s r key d = load-readable decode s s.has_client r key refl d

-- What the storage answers after a flush that is followed by a restart.
abbrev pub answer : Option Bytes → Read
answer none = value []
answer (some raw) = value raw

-- The documented behaviour of `json.Marshal` and `json.Unmarshal` on a set of cursors: it is
-- written as some text, which is read back as a map with the same entries.
pub record RoundTrips (encode : Cursors → Option Bytes) (decode : Bytes → Option Cursors)
    (m : Cursors) : Type 0 where
  pub raw_head : ℕ
  pub raw_tail : Bytes
  pub encoded : encode m ≡ some (raw_head ∷ raw_tail)
  pub read_back : Cursors
  pub decoded : decode (raw_head ∷ raw_tail) ≡ some read_back
  pub same_entries : (key : Bytes) → lookup key read_back ≡ lookup key m

-- With a storage client, and text that reads back as the map that was written: a collector that
-- starts after a flush resumes every container where the flushed store stood.
pub load-flush :
    (encode : Cursors → Option Bytes) (decode : Bytes → Option Cursors) (s : Store)
    (pod_uid_of : Bytes → Bytes) (key : Bytes)
    → s.has_client ≡ true
    → DecodesToMaps decode
    → RoundTrips encode decode s.cursors
    → get (load decode (new_store true pod_uid_of) (answer (flush encode s))) key ≡ get s key
unfolding flush new_store get
load-flush encode decode s pod_uid_of key c d t =
    load_exact decode (new_store true pod_uid_of) (answer (flush encode s)) key d
    ∙ ground (arith, c, t.encoded, t.decoded, t.same_entries key)
