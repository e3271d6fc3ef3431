-- ===== src/Receiver/Accounts.antt =====
-- What becomes of the streams that the receiver starts.
use k8spodlogreceiver.Prelude.{
  ℕ, ◌+◌, ◌%◌, ◌≡◌, sym, ap, ◌∙◌, inl, inr, Bool, true, false, ◌&&◌, ◌||◌, List, [], ◌∷◌, arith,
  ◌==◌, Bool-cases, same, same_iff, Bytes, bytes_eq,
}
use k8spodlogreceiver.Instant.{Instant}
use k8spodlogreceiver.Prelude.Maps.{lookup-put, has, lookup}
use k8spodlogreceiver.Pod.{pod_containers, Pod, Container}
use mathlib.Core.Path.{ap₂, subst}
use k8spodlogreceiver.Receiver.Generations.{SameStreams, SameStreams-marks, ensure_cases}
use k8spodlogreceiver.Receiver.Release.{owned, release_stream_exact}
use k8spodlogreceiver.Receiver.Deletion.{
  member, member-append_l, member-append_r, on_pod_deleted-Deleted,
}
use k8spodlogreceiver.Receiver.{
  mark_container_states, u64_mod, key_of, record_pod_uid_seen, release_stream, Receiver,
  new_receiver, ensure_stream, start_stream, ensure_all, ensure_streams, on_pod_deleted,
  on_pod_updated,
}

-- The stream was started for the key, under this generation.
abbrev pub is_started : Bytes → ℕ → List (Bytes × ℕ) → Bool
is_started j g [] = false
is_started j g ((k, h) ∷ xs) = (same k j && h == g) || is_started j g xs

-- A stream that was started has its entry, or its cancel function has been called, or it has ended.
abbrev pub Accounted : List ℕ → Receiver → Type 0
Accounted ended r =
    (j : Bytes) (g : ℕ)
    → is_started j g r.started ≡ true
    → owned j g r.active_streams || (member g r.cancelled || member g ended) ≡ true

pub Accounted-starts : (has_client : Bool) → Accounted [] (new_receiver has_client)
unfolding new_receiver
Accounted-starts b j g h = absurd (ground (arith, h))

pub Accounted-same :
    (ended : List ℕ) (r s : Receiver) → SameStreams r s → Accounted ended r → Accounted ended s
Accounted-same ended r s e a j g h =
    ap₂ (λ m cs. owned j g m || (member g cs || member g ended)) e.0 e.3
    ∙ a j g (ap (is_started j g) (sym e.2) ∙ h)

Accounted-start :
    (ended : List ℕ) (r : Receiver) (key : Bytes)
    → has key r.active_streams ≡ false
    → Accounted ended r
    → Accounted ended (start_stream r key)
unfolding start_stream
Accounted-start ended r key n a j g h =
    let gen = (r.next_stream_gen + 1) % u64_mod in
    elim (Bool-cases (same key j)) [
      | inl e ↦ ground (
        arith,
        e,
        h,
        n,
        a j g,
        lookup-put key j gen r.active_streams,
        ap (λ k. lookup k r.active_streams) ((same_iff key j).0 e),
      )
      | inr e ↦ ground (arith, e, h, a j g, lookup-put key j gen r.active_streams)
    ]

ensure_stream-running :
    (r : Receiver) (pod : Pod) (c : Container)
    → has (key_of pod c.name) r.active_streams ≡ true
    → ensure_stream r pod c ≡ r
unfolding ensure_stream
ensure_stream-running r pod c e = ground (arith, e)

Accounted-ensure :
    (ended : List ℕ) (r : Receiver) (pod : Pod) (c : Container)
    → Accounted ended r
    → Accounted ended (ensure_stream r pod c)
Accounted-ensure ended r pod c a = elim (Bool-cases (has (key_of pod c.name) r.active_streams)) [
  | inl e ↦ subst (Accounted ended) (sym (ensure_stream-running r pod c e)) a
  | inr e ↦ elim (ensure_cases r pod c) [
    | inl s ↦ subst (Accounted ended) (sym s) a
    | inr s ↦ subst (Accounted ended) (sym s) (Accounted-start ended r (key_of pod c.name) e a)
  ]
]

Accounted-ensure_all :
    (cs : List Container) (ended : List ℕ) (r : Receiver) (pod : Pod)
    → Accounted ended r
    → Accounted ended (ensure_all r pod cs)
unfolding ensure_all
Accounted-ensure_all [] ended r pod a = a
Accounted-ensure_all (c ∷ cs) ended r pod a =
    Accounted-ensure_all cs ended (ensure_stream r pod c) pod (Accounted-ensure ended r pod c a)

pub Accounted-updates :
    (ended : List ℕ) (r : Receiver) (pod : Pod) (now : Instant)
    → Accounted ended r
    → Accounted ended (on_pod_updated r pod now)
unfolding on_pod_updated ensure_streams record_pod_uid_seen
Accounted-updates ended r pod now a =
    let seen = record_pod_uid_seen r pod.uid now in
    let marked = mark_container_states seen pod in
    Accounted-ensure_all (pod_containers pod) ended marked pod
      (Accounted-same ended seen marked (SameStreams-marks seen pod) a)

release_keeps :
    (r : Receiver) (key : Bytes) (gen : ℕ)
    → ((release_stream r key gen).started ≡ r.started)
      × ((release_stream r key gen).cancelled ≡ r.cancelled)
unfolding release_stream
release_keeps r key gen = (ground arith, ground arith)

pub Accounted-ends :
    (ended : List ℕ) (r : Receiver) (key : Bytes) (gen : ℕ)
    → Accounted ended r
    → Accounted (gen ∷ ended) (release_stream r key gen)
Accounted-ends ended r key gen a j g h = ground (
  arith,
  a j g (ap (is_started j g) (sym (release_keeps r key gen).0) ∙ h),
  (release_keeps r key gen).1,
  (release_stream_exact r key j gen).0,
  ap (λ k. lookup k r.active_streams) {x = key} {y = j},
  same_iff key j,
)

pub Accounted-deletes :
    (ended : List ℕ) (r : Receiver) (pod : Pod) (inferred : Bool)
    → Accounted ended r
    → Accounted ended (on_pod_deleted r pod inferred)
Accounted-deletes ended r pod inferred a j g h =
    let d = on_pod_deleted-Deleted r pod inferred j in
    subst
      (λ cs.
        owned j g (on_pod_deleted r pod inferred).active_streams || (member g cs || member g ended)
        ≡ true)
      (sym d.cancelled)
      (ground (
        arith,
        a j g (ap (is_started j g) (sym d.started) ∙ h),
        d.stream,
        d.stopped,
        member-append_l g d.calls r.cancelled,
        member-append_r g d.calls r.cancelled,
      ))
