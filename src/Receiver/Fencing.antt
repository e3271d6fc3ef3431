-- ===== src/Receiver/Fencing.antt =====
-- What a stream that lost its key can still do.
use k8spodlogreceiver.Prelude.{ℕ, ◌≤◌, ◌≡◌, ◌≢◌, Bool, true, some, arith, Bytes, bytes_eq}
use k8spodlogreceiver.Prelude.Maps.{lookup}
use k8spodlogreceiver.Pod.{Pod}
use k8spodlogreceiver.Cursor.{Cursor}
use k8spodlogreceiver.Receiver.{Receiver, release_stream, advance_cursor, on_pod_deleted}
use k8spodlogreceiver.Receiver.Deletion.{on_pod_deleted-Deleted, is_key_of}
use k8spodlogreceiver.Receiver.Generations.{
  Reach, here, next, Moves, shrinks, adds, Moves-Step, WellFormed,
}

-- The stream of generation `g` was started, and the key is not its own, or not any more.
pub record Fenced (key : Bytes) (g : ℕ) (r : Receiver) : Type 0 where
  pub was_started : g ≤ r.next_stream_gen
  pub not_owner : lookup key r.active_streams ≢ some g

Fenced-Moves : {r s : Receiver} (key : Bytes) (g : ℕ) → Moves r s → Fenced key g r → Fenced key g s
Fenced-Moves key g (shrinks e f) w = record {
  was_started = omega (arith, e, w.was_started);
  not_owner = λ h. w.not_owner (f key g h);
}
Fenced-Moves {r} {s} key g (adds k e f) w = record {
  was_started = omega (arith, e, w.was_started);
  not_owner = λ h. ground (arith, f key, w.was_started, w.not_owner);
}

Fenced-Reach : {r s : Receiver} (key : Bytes) (g : ℕ) → Fenced key g r → Reach r s → Fenced key g s
Fenced-Reach key g w here = w
Fenced-Reach key g w (next p st) = Fenced-Moves key g (Moves-Step st) (Fenced-Reach key g w p)

Fenced-report :
    (key : Bytes) (g : ℕ) (r : Receiver) (c : Cursor)
    → Fenced key g r
    → advance_cursor r key g c ≡ r
unfolding advance_cursor
Fenced-report key g r c w = ground (arith, w.not_owner)

Fenced-release : (key : Bytes) (g : ℕ) (r : Receiver) → Fenced key g r → release_stream r key g ≡ r
unfolding release_stream
Fenced-release key g r w = ground (arith, w.not_owner)

-- In a well-formed receiver, as every reachable one is: a stream whose container's pod is deleted
-- while the stream runs, the deletion reported or inferred. In every later interleaving that hands
-- out fewer than 2^64 generations, one where the same pod is added again and a new stream takes the
-- key over included, neither a late progress report of the old stream nor its cleanup changes
-- anything.
pub deleted_stream_harmless :
    (r s : Receiver) (pod : Pod) (inferred : Bool) (key : Bytes) (g : ℕ) (c : Cursor)
    → WellFormed r
    → lookup key r.active_streams ≡ some g
    → is_key_of pod key ≡ true
    → Reach (on_pod_deleted r pod inferred) s
    → (advance_cursor s key g c ≡ s) × (release_stream s key g ≡ s)
deleted_stream_harmless r s pod inferred key g c w own mine p =
    (Fenced-report key g s c late, Fenced-release key g s late)
  where
    gone : Fenced key g (on_pod_deleted r pod inferred)
    gone = record {
      was_started =
          omega
            (arith, (on_pod_deleted-Deleted r pod inferred key).generation, w.handed_out key g own);
      not_owner = λ h. ground (arith, (on_pod_deleted-Deleted r pod inferred key).stream);
    }

    late : Fenced key g s
    late = Fenced-Reach key g gone p
