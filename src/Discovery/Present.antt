-- ===== src/Discovery/Present.antt =====
-- Which streams run, by the pods that the informers hold.
use k8spodlogreceiver.Prelude.{
  Any, ℕ, ◌≡◌, refl, sym, ap, ◌∙◌, ◌⊎◌, inl, inr, Bool, true, false, not, none, some, List, [], ◌∷◌,
  arith, Bool-cases, keep_if, All, same, Bytes, bytes_eq,
}
use mathlib.Core.Path.{subst}
use k8spodlogreceiver.Receiver.Accounts.{
  Accounted-same, Accounted-ends, Accounted-deletes, Accounted-updates, Accounted-starts, Accounted,
  is_started,
}
use k8spodlogreceiver.Receiver.Apart.{drops}
use k8spodlogreceiver.Receiver.{release_stream, on_pod_added, on_pod_updated}
use k8spodlogreceiver.Discovery.{
  on_pod_deleted, is_tombstone, deliver, delete_func, pod_from, Object, update_func, pod_object,
  add_func,
}
use k8spodlogreceiver.Receiver.Release.{release_stream_exact}
use k8spodlogreceiver.Instant.{Instant}
use k8spodlogreceiver.Receiver.Reviving.{streams-on_pod_updated, offered}
use k8spodlogreceiver.Pod.{pod_containers, Container, Pod}
use k8spodlogreceiver.Prelude.Maps.{has}
use k8spodlogreceiver.Receiver.Generations.{
  SameStreams-drop_states, SameStreams-marks, SameStreams-advance, drops, SameStreams, Step,
  ensures, releases, reports, marks, sees, deletes, prunes, SameStreams-prune,
}
use k8spodlogreceiver.Receiver.Deletion.{member, is_key_of, is_key_among, on_pod_deleted-Deleted}
use k8spodlogreceiver.Receiver.{on_pod_updated, record_pod_uid_seen, new_receiver, Receiver}

-- The methods of the receiver that neither start nor end a stream, and that no informer calls.
abbrev pub InBetween : {r s : Receiver} → Step r s → Type 0
InBetween (ensures pod c h) = ⊥
InBetween (releases j g) = ⊥
InBetween (reports j g c) = Unit
InBetween (marks pod) = Unit
InBetween (sees pod_uid now) = Unit
InBetween (deletes pod inferred) = ⊥
InBetween (prunes now) = Unit
InBetween (drops keys) = Unit

-- Two versions of a pod with the same container keys: what the API server keeps of a pod for life.
abbrev pub SameKeys : Pod → Pod → Type 0
SameKeys p q = (j : Bytes) → is_key_of p j ≡ is_key_of q j

-- The pods that the informers have shown, by an addition or an update, and have not shown the deletion of
-- since, the generations whose streams have ended, and the receiver, to whose handlers the events have
-- gone, among the steps of streams and tickers.
pub data Watched : List Pod → List ℕ → Receiver → Type 0 where
  starts : (has_client : Bool) → Watched [] [] (new_receiver has_client)
  adds :
      {ps : List Pod} {es : List ℕ} {r : Receiver} (pod : Pod) (now : Instant)
      → Watched ps es r
      → Watched (pod ∷ ps) es (add_func r (pod_object pod) now)
  updates :
      {ps : List Pod} {es : List ℕ} {r : Receiver} (pod : Pod) (now : Instant)
      → Watched ps es r
      → Watched (pod ∷ ps) es (update_func r (pod_object pod) now)
  removes :
      {ps : List Pod} {es : List ℕ} {r : Receiver} (obj : Object) (pod : Pod)
      → pod_from obj ≡ some pod
      → All (λ q. (same q.uid pod.uid ≡ false) ⊎ SameKeys q pod) ps
      → Watched ps es r
      → Watched (keep_if (λ q. not (same q.uid pod.uid)) ps) es (delete_func r obj)
  ends :
      {ps : List Pod} {es : List ℕ} {r : Receiver} (key : Bytes) (gen : ℕ)
      → Watched ps es r
      → Watched ps (gen ∷ es) (release_stream r key gen)
  steps :
      {ps : List Pod} {es : List ℕ} {r s : Receiver} (st : Step r s)
      → InBetween st
      → Watched ps es r
      → Watched ps es s

-- Every entry is one of a container of a pod that is held.
abbrev pub NoOrphan : List Pod → Receiver → Type 0
NoOrphan ps r = (j : Bytes) → has j r.active_streams ≡ true → Any (λ q. is_key_of q j ≡ true) ps

offered-is_key :
    (cs : List Container) (pod : Pod) (j : Bytes)
    → offered pod cs j ≡ true
    → is_key_among pod cs j ≡ true
offered-is_key [] pod j h = h
offered-is_key (c ∷ cs) pod j h = ground (arith, h, offered-is_key cs pod j)

-- What an added or updated pod starts is its own.
started_is_own :
    (r : Receiver) (pod : Pod) (now : Instant) (j : Bytes)
    → has j (on_pod_updated r pod now).active_streams ≡ true
    → (has j r.active_streams ≡ true) ⊎ (is_key_of pod j ≡ true)
started_is_own r pod now j h =
    ground (arith, h, streams-on_pod_updated r pod now j, offered-is_key (pod_containers pod) pod j)

Any-kept :
    (ps : List Pod) (pod : Pod) (j : Bytes)
    → All (λ q. (same q.uid pod.uid ≡ false) ⊎ SameKeys q pod) ps
    → is_key_of pod j ≡ false
    → Any (λ q. is_key_of q j ≡ true) ps
    → Any (λ q. is_key_of q j ≡ true) (keep_if (λ q. not (same q.uid pod.uid)) ps)
Any-kept [] pod j a n h = h
Any-kept (q ∷ ps) pod j a n (inl e) = elim a.0 [
  | inl d ↦ rw d (inl e)
  | inr s ↦ absurd (ground (arith, e, n, s j))
]
Any-kept (q ∷ ps) pod j a n (inr h) = elim (Bool-cases (same q.uid pod.uid)) [
  | inl d ↦ rw d (Any-kept ps pod j a.1 n h)
  | inr d ↦ rw d (inr (Any-kept ps pod j a.1 n h))
]

-- The steps in between leave the streams as they are.
SameStreams-InBetween : {r s : Receiver} (st : Step r s) → InBetween st → SameStreams r s
unfolding record_pod_uid_seen
SameStreams-InBetween (ensures pod c h) n = absurd n
SameStreams-InBetween (releases k g) n = absurd n
SameStreams-InBetween {r} (reports k g c) n = SameStreams-advance r k g c
SameStreams-InBetween {r} (marks pod) n = SameStreams-marks r pod
SameStreams-InBetween (sees u now) n = (refl, refl, refl, refl)
SameStreams-InBetween (deletes pod inferred) n = absurd n
SameStreams-InBetween {r} (prunes now) n = SameStreams-prune r now
SameStreams-InBetween {r} (drops keys) n = SameStreams-drop_states keys r

NoOrphan-adds :
    (ps : List Pod) (r : Receiver) (pod : Pod) (now : Instant)
    → NoOrphan ps r
    → NoOrphan (pod ∷ ps) (add_func r (pod_object pod) now)
unfolding add_func deliver on_pod_added on_pod_updated
NoOrphan-adds ps r pod now n j h = elim (started_is_own r pod now j h) [
  | inl e ↦ inr (n j e)
  | inr e ↦ inl e
]

NoOrphan-updates :
    (ps : List Pod) (r : Receiver) (pod : Pod) (now : Instant)
    → NoOrphan ps r
    → NoOrphan (pod ∷ ps) (update_func r (pod_object pod) now)
unfolding update_func deliver
NoOrphan-updates ps r pod now n j h = elim (started_is_own r pod now j h) [
  | inl e ↦ inr (n j e)
  | inr e ↦ inl e
]

delete_func_lem :
    (r : Receiver) (obj : Object) (pod : Pod)
    → pod_from obj ≡ some pod
    → delete_func r obj ≡ on_pod_deleted r pod (is_tombstone obj)
unfolding delete_func deliver
delete_func_lem r obj pod e =
    ap (λ o. elim o [ none ↦ r | some p ↦ on_pod_deleted r p (is_tombstone obj) ]) e

NoOrphan-removes :
    (ps : List Pod) (r : Receiver) (obj : Object) (pod : Pod)
    → pod_from obj ≡ some pod
    → All (λ q. (same q.uid pod.uid ≡ false) ⊎ SameKeys q pod) ps
    → NoOrphan ps r
    → NoOrphan (keep_if (λ q. not (same q.uid pod.uid)) ps) (delete_func r obj)
NoOrphan-removes ps r obj pod e a n j h =
    let x = (on_pod_deleted-Deleted r pod (is_tombstone obj) j).stream in
    let k = ap (λ s. has j s.active_streams) (sym (delete_func_lem r obj pod e)) ∙ h in
    Any-kept ps pod j a (ground (arith, k, x)) (n j (ground (arith, k, x)))

NoOrphan-starts : (has_client : Bool) → NoOrphan [] (new_receiver has_client)
unfolding new_receiver
NoOrphan-starts b j h = absurd (ground (arith, h))

Watched-NoOrphan : {ps : List Pod} {es : List ℕ} {r : Receiver} → Watched ps es r → NoOrphan ps r
Watched-NoOrphan (starts b) = NoOrphan-starts b
Watched-NoOrphan (adds pod now w) = NoOrphan-adds _ _ pod now (Watched-NoOrphan w)
Watched-NoOrphan (updates pod now w) = NoOrphan-updates _ _ pod now (Watched-NoOrphan w)
Watched-NoOrphan (removes obj pod e a w) = NoOrphan-removes _ _ obj pod e a (Watched-NoOrphan w)
Watched-NoOrphan (ends {r = r} key gen w) =
    λ j h. Watched-NoOrphan w j (ground (arith, h, (release_stream_exact r key j gen).0))
Watched-NoOrphan (steps st n w) =
    λ j h. Watched-NoOrphan w j (ap (has j) (sym (SameStreams-InBetween st n).0) ∙ h)

Accounted-adds :
    (es : List ℕ) (r : Receiver) (pod : Pod) (now : Instant)
    → Accounted es r
    → Accounted es (add_func r (pod_object pod) now)
unfolding add_func deliver on_pod_added on_pod_updated
Accounted-adds es r pod now a = Accounted-updates es r pod now a

Accounted-shown :
    (es : List ℕ) (r : Receiver) (pod : Pod) (now : Instant)
    → Accounted es r
    → Accounted es (update_func r (pod_object pod) now)
unfolding update_func deliver
Accounted-shown es r pod now a = Accounted-updates es r pod now a

Watched-Accounted : {ps : List Pod} {es : List ℕ} {r : Receiver} → Watched ps es r → Accounted es r
Watched-Accounted (starts b) = Accounted-starts b
Watched-Accounted (adds pod now w) = Accounted-adds _ _ pod now (Watched-Accounted w)
Watched-Accounted (updates pod now w) = Accounted-shown _ _ pod now (Watched-Accounted w)
Watched-Accounted {es = es} (removes {r = r} obj pod e a w) =
    subst (Accounted es) (sym (delete_func_lem r obj pod e))
      (Accounted-deletes es r pod (is_tombstone obj) (Watched-Accounted w))
Watched-Accounted (ends {r = r} key gen w) = Accounted-ends _ r key gen (Watched-Accounted w)
Watched-Accounted {es = es} {r = s} (steps {r = r} st n w) =
    Accounted-same es r s (SameStreams-InBetween st n) (Watched-Accounted w)

-- From a new receiver on, whatever pods the informers add, update, also from one UID to another, and remove,
-- by a deletion that was reported or by a tombstone, and whatever else happens in between (ends and
-- reports of streams, prunes), where the versions of one pod have the same container keys: every
-- stream that was started, that has not ended and whose cancel function has not been called, is one of
-- a container of a pod that the informers have shown and have not shown the deletion of since. So a
-- pod's deletion tells all its streams to stop, where no other pod that is shown has the same keys.
-- An update to a pod of another UID is not a deletion of the old one.
pub running_of_held :
    {ps : List Pod} {es : List ℕ} {r : Receiver} (j : Bytes) (g : ℕ)
    → Watched ps es r
    → is_started j g r.started ≡ true
    → member g r.cancelled ≡ false
    → member g es ≡ false
    → Any (λ q. is_key_of q j ≡ true) ps
running_of_held {r = r} j g w s c e =
    Watched-NoOrphan w j (ground (arith, Watched-Accounted w j g s, c, e))
