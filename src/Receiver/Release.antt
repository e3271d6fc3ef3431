-- ===== src/Receiver/Release.antt =====
-- What releaseStream and advanceCursor do, by the generation that owns the key.
use k8spodlogreceiver.Prelude.{
  ℕ, ◌≡◌, Bool, false, ◌&&◌, ◌||◌, none, some, arith, ◌==◌, if◌then◌else◌, same, Bytes, bytes_eq,
}
use k8spodlogreceiver.Prelude.Maps.{lookup, has, lookup-remove, lookup-put}
use k8spodlogreceiver.Cursor.{Cursor}
use k8spodlogreceiver.Cursor.Store
use k8spodlogreceiver.Cursor.Store.{Store}
use k8spodlogreceiver.Cursor.Store.Advance.{later_of, get-advance}
use k8spodlogreceiver.Receiver.{Receiver, Handles, release_stream, advance_cursor}

-- The stream of this generation is the one that the key belongs to.
abbrev pub owns : Receiver → Bytes → ℕ → Bool
owns r key gen = elim (lookup key r.active_streams) [ none ↦ false | some g ↦ g == gen ]

-- A finished stream, at every key: the entry goes exactly if the stream still owns it, and then,
-- and only then, the container is marked drained if it is marked terminal, for whatever reason the
-- stream ended; the other keys, the terminal marks and the cursors stay as they are.
pub release_stream_exact :
    (r : Receiver) (key j : Bytes) (gen : ℕ)
    → let r' = release_stream r key gen in
      (lookup j r'.active_streams
        ≡ (if owns r key gen && same key j then none else lookup j r.active_streams))
      × (has j r'.drained_containers ≡ (
          (owns r key gen && (has key r.terminated_containers && same key j))
          || has j r.drained_containers))
      × (r'.terminated_containers ≡ r.terminated_containers)
      × (r'.cursors ≡ r.cursors)
unfolding release_stream
release_stream_exact r key j gen = (
  ground (arith, lookup-remove key j r.active_streams),
  ground (arith, lookup-put key j tt r.drained_containers),
  ground arith,
  ground arith,
)

-- A progress report, at every key: it counts exactly if the reporting stream still owns its key, and
-- then moves that key's cursor forward or leaves it.
pub advance_cursor_exact :
    (r : Receiver) (key j : Bytes) (gen : ℕ) (c : Cursor)
    → Store.get (advance_cursor r key gen c).cursors j ≡ (
        if owns r key gen && same key j
        then later_of (Store.get r.cursors j) c
        else Store.get r.cursors j)
unfolding advance_cursor
advance_cursor_exact r key j gen c = ground (arith, get-advance r.cursors key j c)

pub streams-advance_cursor :
    (r : Receiver) (key : Bytes) (gen : ℕ) (c : Cursor)
    → (advance_cursor r key gen c).active_streams ≡ r.active_streams
unfolding advance_cursor
streams-advance_cursor r key gen c = ground arith

-- `owns`, by the entries.
abbrev pub owned : Bytes → ℕ → Handles → Bool
owned key gen m = elim (lookup key m) [ none ↦ false | some g ↦ g == gen ]
