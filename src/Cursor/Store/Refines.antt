-- ===== src/Cursor/Store/Refines.antt =====
-- The store as a family of independent entries, one for each container.
use k8spodlogreceiver.Prelude.{
  ◌≡◌, refl, ap, ◌∙◌, Bool, false, Option, none, some, List, [], ◌∷◌, arith, if◌then◌else◌,
  Option-cases, same, Bytes, bytes_eq,
}
use k8spodlogreceiver.Prelude.Maps.{lookup-put, lookup-remove}
use k8spodlogreceiver.Cursor.Store.Expiry.{prune_exact, IsMap, uid-prune}
use k8spodlogreceiver.Cursor.Store.Advance.{get-advance, later_of}
use k8spodlogreceiver.Cursor.Store
use mathlib.Core.Path.{ap₂}
use k8spodlogreceiver.Cursor.Store.{zero_cursor, earlier, lookup, Cursor, Instant, Store}
use k8spodlogreceiver.Cursor.Store.History.{
  step-IsMap, Call, step, run, advances, forgets, sees, prunes,
}

-- What the store promises of a container: its position, and when its pod was last reported.
pub record Entry : Type 0 where
  pub position : Cursor
  pub last_seen : Option Instant

abbrev pub stale : Option Instant → Instant → Bool
stale none cutoff = false
stale (some t) cutoff = earlier t cutoff

-- What a call does to the entry of the container `key` of the pod `u`.
abbrev pub entry_step : Bytes → Bytes → Entry → Call → Entry
entry_step key u x (advances k c) =
    if same k key then record x { position = later_of x.position c } else x
entry_step key u x (forgets k) = if same k key then record x { position = zero_cursor } else x
entry_step key u x (sees v now) = if same v u then record x { last_seen = some now } else x
entry_step key u x (prunes cutoff) =
    if stale x.last_seen cutoff then record { position = zero_cursor; last_seen = none } else x

abbrev pub replay : Bytes → Bytes → Entry → List Call → Entry
replay key u x [] = x
replay key u x (c ∷ cs) = replay key u (entry_step key u x c) cs

-- The entry of the container `key` in a store.
abbrev pub entry : Bytes → Store → Entry
entry key s = record {
  position = Store.get s key;
  last_seen = lookup (s.pod_uid_of key) s.last_seen_pods;
}

uid-step : (s : Store) (c : Call) → (step s c).pod_uid_of ≡ s.pod_uid_of
unfolding step Store.advance Store.forget Store.mark_pod_seen
uid-step s (advances k c) = ground arith
uid-step s (forgets k) = refl
uid-step s (sees v now) = refl
uid-step s (prunes cutoff) = uid-prune s cutoff

abbrev entry_of : Cursor → Option Instant → Entry
entry_of c t = record { position = c; last_seen = t }

seen-advance :
    (key : Bytes) (s : Store) (k : Bytes) (c : Cursor)
    → (entry key (Store.advance s k c)).last_seen ≡ (entry key s).last_seen
unfolding Store.advance
seen-advance key s k c = ground arith

get-forget :
    (key : Bytes) (s : Store) (k : Bytes)
    → Store.get (Store.forget s k) key ≡ (if same k key then zero_cursor else Store.get s key)
unfolding Store.get Store.forget
get-forget key s k = ground (arith, lookup-remove k key s.cursors)

seen-prune :
    (key : Bytes) (s : Store) (cutoff : Instant)
    → IsMap s
    → (entry key (Store.prune s cutoff).0).last_seen
      ≡ (if stale (entry key s).last_seen cutoff then none else (entry key s).last_seen)
seen-prune key s cutoff h =
    ap (λ f. lookup (f key) (Store.prune s cutoff).0.last_seen_pods) (uid-prune s cutoff)
    ∙ (prune_exact s cutoff key (s.pod_uid_of key) h).2
    ∙ ground (arith, Option-cases (lookup (s.pod_uid_of key) s.last_seen_pods))

get-prune :
    (key : Bytes) (s : Store) (cutoff : Instant)
    → IsMap s
    → Store.get (Store.prune s cutoff).0 key
      ≡ (if stale (entry key s).last_seen cutoff then zero_cursor else Store.get s key)
get-prune key s cutoff h =
    (prune_exact s cutoff key (s.pod_uid_of key) h).0
    ∙ ground (arith, Option-cases (lookup (s.pod_uid_of key) s.last_seen_pods))

step-entry :
    (key : Bytes) (s : Store) (c : Call)
    → IsMap s
    → entry key (step s c) ≡ entry_step key (s.pod_uid_of key) (entry key s) c
unfolding step Store.mark_pod_seen Store.forget Store.get
step-entry key s (advances k c) h =
    ap₂ entry_of (get-advance s k key c) (seen-advance key s k c) ∙ ground arith
step-entry key s (forgets k) h = ap₂ entry_of (get-forget key s k) refl ∙ ground arith
step-entry key s (sees v now) h =
    ap₂ entry_of refl (lookup-put v (s.pod_uid_of key) now s.last_seen_pods) ∙ ground arith
step-entry key s (prunes cutoff) h =
    ap₂ entry_of (get-prune key s cutoff h) (seen-prune key s cutoff h) ∙ ground arith

-- From a store in which no key stands twice, any history of calls leaves of each container just what
-- replaying it on that container's own entry leaves: an advance counts at its own key only and never
-- rewinds, a forgotten container and one whose pod was last reported before a prune's cutoff stand
-- at the zero cursor, and a container whose pod was never reported is not pruned.
pub run-replay :
    (key : Bytes) (s : Store) (cs : List Call)
    → IsMap s
    → entry key (run s cs) ≡ replay key (s.pod_uid_of key) (entry key s) cs
unfolding run
run-replay key s [] h = refl
run-replay key s (c ∷ cs) h =
    run-replay key (step s c) cs (step-IsMap s c h)
    ∙ ap₂ (λ u x. replay key u x cs) (ap (λ f. f key) (uid-step s c)) (step-entry key s c h)
