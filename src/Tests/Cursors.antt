-- ===== src/Tests/Cursors.antt =====
-- Cursors, filters and the cursor store on concrete inputs.
use k8spodlogreceiver.Prelude.{
  ℕ, ◌≡◌, refl, inr, true, false, Option, none, some, [], ◌∷◌, ◌++◌, arith, if◌then◌else◌, take,
  same, Bytes, bytes_eq,
}
use k8spodlogreceiver.Instant.{Instant}
use k8spodlogreceiver.Cursor.Store.Refines.{run-replay, entry}
use k8spodlogreceiver.Cursor.Json.{legacy_position, Decoder, unmarshal_json}
use k8spodlogreceiver.Prelude.Int.{pos, inc, dec}
use k8spodlogreceiver.Logline.Line.{Line, parse_leading_timestamp}
use k8spodlogreceiver.Cursor.{Cursor, zero_cursor, record_line, record_all}
use k8spodlogreceiver.Cursor.Filter.{new_filter, keep, keep_all}
use k8spodlogreceiver.Cursor.Counting.{untimed}
use k8spodlogreceiver.Cursor.Resume.{resume_exact}
use k8spodlogreceiver.Cursor.Store.{Store, Cursors, get, prune}
use k8spodlogreceiver.Cursor.Store.Expiry.{Unique, IsMap, prune_exact}
use k8spodlogreceiver.Cursor.Store.History.{forgets, sees, prunes, run, NeverSeen, never_expires}

abbrev first : Line
first = record { body = b'a' ∷ []; timestamp = 5 }

abbrev second_line : Line
second_line = record { body = b'b' ∷ []; timestamp = 5 }

abbrev third : Line
third = record { body = b'c' ∷ []; timestamp = 7 }

-- A body that follows the first space, and a line whose head is no timestamp.
abbrev parse_five : Bytes → Option ℕ
parse_five s = if same s (b'5' ∷ []) then some 5 else none

parse_with_timestamp :
    parse_leading_timestamp parse_five (b'5' ∷ b' ' ∷ b'a' ∷ b' ' ∷ b'b' ∷ [])
    ≡ record { body = b'a' ∷ b' ' ∷ b'b' ∷ []; timestamp = 5 }
unfolding parse_leading_timestamp
parse_with_timestamp = refl

parse_without_timestamp :
    parse_leading_timestamp parse_five (b'x' ∷ b' ' ∷ b'a' ∷ [])
    ≡ record { body = b'x' ∷ b' ' ∷ b'a' ∷ []; timestamp = 0 }
unfolding parse_leading_timestamp
parse_without_timestamp = refl

cursor_of_two :
    record_all zero_cursor (first ∷ second_line ∷ []) ≡ record { ts = 5; delivered = pos 2 }
unfolding record_all record_line inc
cursor_of_two = refl

replay_dropped :
    keep_all (new_filter (record { ts = 5; delivered = pos 2 })) (first ∷ second_line ∷ third ∷ [])
    ≡ third ∷ []
unfolding keep_all keep new_filter dec
replay_dropped = refl

abbrev early : Line
early = record { body = b'z' ∷ []; timestamp = 3 }

resume_exact_example :
    keep_all
      (new_filter (record_all zero_cursor (early ∷ first ∷ second_line ∷ [])))
      (first ∷ second_line ∷ third ∷ [])
    ≡ untimed (first ∷ second_line ∷ []) ++ third ∷ []
unfolding record_all record_line inc
resume_exact_example =
    resume_exact (early ∷ []) (first ∷ second_line ∷ []) (third ∷ []) (omega arith)
      (omega arith, tt) (inr (omega arith), tt)

-- Two containers of the pods `p` and `q`; `p` was last seen at 10, `q` at 90.
abbrev pod_of : Bytes → Bytes
pod_of key = take 1 key

abbrev key_p : Bytes
key_p = b'p' ∷ b'1' ∷ []

abbrev key_q : Bytes
key_q = b'q' ∷ b'1' ∷ []

abbrev two_pods : Store
two_pods = record {
  has_client = true;
  pod_uid_of = pod_of;
  cursors =
      (key_p, record { ts = 5; delivered = pos 2 })
      ∷ (key_q, record { ts = 6; delivered = pos 1 })
      ∷ [];
  last_seen_pods = (b'p' ∷ [], 10) ∷ (b'q' ∷ [], 90) ∷ [];
}

two_pods-IsMap : IsMap two_pods
two_pods-IsMap = record { cursors_unique = (refl, (refl, tt)); pods_unique = (refl, (refl, tt)) }

prune_runs : (prune two_pods 50).1 ≡ key_p ∷ []
unfolding prune
prune_runs = refl

prune_exact_example : get (prune two_pods 50).0 key_p ≡ zero_cursor
prune_exact_example = (prune_exact two_pods 50 key_p (b'q' ∷ []) two_pods-IsMap).0

-- A cursor restored for a pod that is never reported.
abbrev restored : Store
restored = record {
  has_client = true;
  pod_uid_of = pod_of;
  cursors = (key_p, record { ts = 5; delivered = pos 2 }) ∷ [];
  last_seen_pods = [];
}

never_expires_example : NeverSeen key_p (b'p' ∷ []) (run restored (prunes 1000 ∷ prunes 2000 ∷ []))
never_expires_example =
    never_expires key_p (b'p' ∷ []) restored (prunes 1000 ∷ prunes 2000 ∷ [])
      (record {
        of_pod = refl;
        unseen = refl;
        held = refl;
        is_map = record { cursors_unique = (refl, tt); pods_unique = tt };
      })
      (tt, (tt, tt))

-- A coding of cursor sets by one byte, enough to read `two_pods` back.
abbrev encode : Cursors → Option Bytes
encode m = some (b'1' ∷ [])

abbrev decode : Bytes → Option Cursors
decode raw = if same raw (b'1' ∷ []) then some two_pods.cursors else none

decode_maps : (raw : Bytes) (m : Cursors) → decode raw ≡ some m → Unique m
decode_maps raw m h = ground (arith, two_pods-IsMap.cursors_unique)

run-replay_example :
    entry key_p (run two_pods (sees (b'p' ∷ []) 95 ∷ prunes 92 ∷ forgets key_p ∷ []))
    ≡ record { position = zero_cursor; last_seen = some 95 }
run-replay_example =
    run-replay key_p two_pods (sees (b'p' ∷ []) 95 ∷ prunes 92 ∷ forgets key_p ∷ []) two_pods-IsMap

-- A decoder of one time, and none of the two fields.
abbrev one_time : Decoder Instant
one_time raw = (5, true)

abbrev no_fields : Decoder Cursor
no_fields raw = (zero_cursor, false)

legacy_position_example :
    keep_all
      (new_filter (unmarshal_json one_time no_fields zero_cursor (b'"' ∷ b'5' ∷ b'"' ∷ [])).0)
      (first ∷ second_line ∷ third ∷ [])
    ≡ first ∷ second_line ∷ third ∷ []
legacy_position_example =
    legacy_position one_time no_fields zero_cursor (b'5' ∷ b'"' ∷ []) 5
      (first ∷ second_line ∷ third ∷ []) refl (omega arith, (omega arith, (omega arith, tt)))
      ((omega arith, (omega arith, tt)), ((omega arith, tt), (tt, tt)))
