-- ===== src/Cursor/Store/Advance.antt =====
-- What Advance leaves of a position.
use k8spodlogreceiver.Prelude.{
  ◌≡◌, ap, false, arith, if◌then◌else◌, same, same_iff, Bytes, bytes_eq,
}
use k8spodlogreceiver.Cursor.Order.{after_strict_order}
use k8spodlogreceiver.Prelude.Maps.{lookup, lookup-put}
use k8spodlogreceiver.Cursor.{false, if◌then◌else◌, Cursor, is_zero, after}
use k8spodlogreceiver.Cursor.Store.{same, Bytes, Store, get, advance}

-- The later of two positions, the first if it is not passed; a position that is not set does not count.
abbrev pub later_of : Cursor → Cursor → Cursor
later_of old c = if is_zero c then old else if after c old then c else old

pub get-advance :
    (s : Store) (key j : Bytes) (c : Cursor)
    → get (advance s key c) j ≡ (if same key j then later_of (get s j) c else get s j)
unfolding get advance
get-advance s key j c = ground (
  arith,
  lookup-put key j c s.cursors,
  same_iff key j,
  ap (λ k. lookup k s.cursors) {x = key} {y = j},
)

pub after_irrefl : (a : Cursor) → after a a ≡ false
after_irrefl a = (after_strict_order a a a).0
