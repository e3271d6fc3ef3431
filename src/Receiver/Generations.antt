-- ===== src/Receiver/Generations.antt =====
-- Streams and the receiver's methods interleave: a step relation, one step for each critical
-- section of `r.mu`, and what the generations guarantee in every interleaving.
use k8spodlogreceiver.Prelude.{
  ℕ, ◌+◌, ◌%◌, ◌≤◌, ◌<◌, ◌≡◌, refl, sym, ap, ◌∙◌, ◌⊎◌, inl, inr, Bool, some, List, [], ◌∷◌, arith,
  if◌then◌else◌, Bool-cases, same, same_iff, Bytes, bytes_eq,
}
use k8spodlogreceiver.Receiver.Release.{release_stream_exact}
use k8spodlogreceiver.Prelude.Maps.{lookup, has, lookup-put}
use k8spodlogreceiver.Instant.{Instant}
use k8spodlogreceiver.Pod.{container_has_started, Pod, Container, ContainerStatus}
use k8spodlogreceiver.Cursor.{Cursor}
use k8spodlogreceiver.Receiver.{
  prune_store, Receiver, key_of, u64_mod, new_receiver, start_stream, ensure_stream, release_stream,
  advance_cursor, mark_container_states, mark_regular, mark_init, record_pod_uid_seen,
  on_pod_deleted, drop_states,
}
use k8spodlogreceiver.Receiver.Deletion.{on_pod_deleted-Deleted}

-- `ensures` is one round of ensureStreams' loop; it is limited to the first 2^64 - 1 streams.
pub data Step (r : Receiver) : Receiver → Type 0 where
  ensures :
      (pod : Pod) (c : Container) → r.next_stream_gen + 1 < u64_mod → Step r (ensure_stream r pod c)
  releases : (key : Bytes) (gen : ℕ) → Step r (release_stream r key gen)
  reports : (key : Bytes) (gen : ℕ) (c : Cursor) → Step r (advance_cursor r key gen c)
  marks : (pod : Pod) → Step r (mark_container_states r pod)
  sees : (pod_uid : Bytes) (now : Instant) → Step r (record_pod_uid_seen r pod_uid now)
  deletes : (pod : Pod) (inferred : Bool) → Step r (on_pod_deleted r pod inferred)
  prunes : (now : Instant) → Step r (prune_store r now).0
  drops : (keys : List Bytes) → Step r (drop_states r keys)

pub data Reach (r : Receiver) : Receiver → Type 0 where
  here : Reach r r
  next : {s t : Receiver} → Reach r s → Step s t → Reach r t

-- The streams part of the state.
abbrev pub SameStreams : Receiver → Receiver → Type 0
SameStreams r s =
    (s.active_streams ≡ r.active_streams)
    × (s.next_stream_gen ≡ r.next_stream_gen)
    × (s.started ≡ r.started)
    × (s.cancelled ≡ r.cancelled)

-- How the entries may change: some go, or one comes under the next generation.
pub data Moves (r s : Receiver) : Type 0 where
  shrinks :
      s.next_stream_gen ≡ r.next_stream_gen
      → ((j : Bytes) (g : ℕ)
          → lookup j s.active_streams ≡ some g
          → lookup j r.active_streams ≡ some g)
      → Moves r s
  adds :
      (key : Bytes)
      → s.next_stream_gen ≡ r.next_stream_gen + 1
      → ((j : Bytes)
          → lookup j s.active_streams
            ≡ (if same key j then some (r.next_stream_gen + 1) else lookup j r.active_streams))
      → Moves r s

Moves-same : (r s : Receiver) → SameStreams r s → Moves r s
Moves-same r s e = shrinks e.1 (λ j g h. ap (lookup j) (sym e.0) ∙ h)

SameStreams-mark_regular :
    (cs : List ContainerStatus) (r : Receiver) (pod : Pod) → SameStreams r (mark_regular r pod cs)
unfolding mark_regular
SameStreams-mark_regular [] r pod = (refl, refl, refl, refl)
SameStreams-mark_regular (c ∷ cs) r pod = SameStreams-mark_regular cs _ pod

SameStreams-mark_init :
    (cs : List ContainerStatus) (r : Receiver) (pod : Pod) → SameStreams r (mark_init r pod cs)
unfolding mark_init
SameStreams-mark_init [] r pod = (refl, refl, refl, refl)
SameStreams-mark_init (c ∷ cs) r pod = SameStreams-mark_init cs _ pod

pub SameStreams-drop_states :
    (keys : List Bytes) (r : Receiver) → SameStreams r (drop_states r keys)
unfolding drop_states
SameStreams-drop_states [] r = (refl, refl, refl, refl)
SameStreams-drop_states (k ∷ keys) r = SameStreams-drop_states keys _

SameStreams-trans : (r s t : Receiver) → SameStreams r s → SameStreams s t → SameStreams r t
SameStreams-trans r s t p q = (q.0 ∙ p.0, q.1 ∙ p.1, q.2 ∙ p.2, q.3 ∙ p.3)

pub ensure_cases :
    (r : Receiver) (pod : Pod) (c : Container)
    → (ensure_stream r pod c ≡ r) ⊎ (ensure_stream r pod c ≡ start_stream r (key_of pod c.name))
unfolding ensure_stream
ensure_cases r pod c = elim (Bool-cases (container_has_started pod c.name)) [
  | inr e ↦ inl (rw (e, ensure_stream))
  | inl e ↦ elim (Bool-cases (has (key_of pod c.name) r.active_streams)) [
    | inl a ↦ inl (rw (e, ensure_stream) (rw (a, ensure_stream)))
    | inr a ↦ elim (Bool-cases (has (key_of pod c.name) r.drained_containers)) [
      | inl d ↦ inl (rw (e, ensure_stream) (rw (a, ensure_stream) (rw (d, ensure_stream))))
      | inr d ↦ inr (rw (e, ensure_stream) (rw (a, ensure_stream) (rw (d, ensure_stream))))
    ]
  ]
]

Moves-start :
    (r : Receiver) (key : Bytes) → r.next_stream_gen + 1 < u64_mod → Moves r (start_stream r key)
unfolding start_stream
Moves-start r key h =
    adds key (omega arith)
      (λ j. ground (arith, lookup-put key j ((r.next_stream_gen + 1) % u64_mod) r.active_streams))

Moves-ensure :
    (r : Receiver) (pod : Pod) (c : Container)
    → r.next_stream_gen + 1 < u64_mod
    → Moves r (ensure_stream r pod c)
Moves-ensure r pod c h = elim (ensure_cases r pod c) [
  | inl e ↦ rw e (Moves-same r r (refl, refl, refl, refl))
  | inr e ↦ rw e (Moves-start r (key_of pod c.name) h)
]

next_gen-release :
    (r : Receiver) (key : Bytes) (gen : ℕ)
    → (release_stream r key gen).next_stream_gen ≡ r.next_stream_gen
unfolding release_stream
next_gen-release r key gen = ground arith

Moves-release : (r : Receiver) (key : Bytes) (gen : ℕ) → Moves r (release_stream r key gen)
Moves-release r key gen =
    shrinks (next_gen-release r key gen) (λ j g h. ground (arith, release_stream_exact r key j gen))

pub SameStreams-advance :
    (r : Receiver) (key : Bytes) (gen : ℕ) (c : Cursor) → SameStreams r (advance_cursor r key gen c)
unfolding advance_cursor
SameStreams-advance r key gen c = (ground arith, ground arith, ground arith, ground arith)

pub SameStreams-prune : (r : Receiver) (now : Instant) → SameStreams r (prune_store r now).0
unfolding prune_store
SameStreams-prune r now = (refl, refl, refl, refl)

Moves-delete :
    (r : Receiver) (pod : Pod) (inferred : Bool) → Moves r (on_pod_deleted r pod inferred)
Moves-delete r pod inferred =
    shrinks ((on_pod_deleted-Deleted r pod inferred []).generation)
      (λ j g h. ground (arith, (on_pod_deleted-Deleted r pod inferred j).stream))

pub SameStreams-marks : (r : Receiver) (pod : Pod) → SameStreams r (mark_container_states r pod)
unfolding mark_container_states
SameStreams-marks r pod =
    let s = mark_regular r pod pod.container_statuses in
    SameStreams-trans r s (mark_init s pod pod.init_container_statuses)
      (SameStreams-mark_regular pod.container_statuses r pod)
      (SameStreams-mark_init pod.init_container_statuses s pod)

pub Moves-Step : {r s : Receiver} → Step r s → Moves r s
unfolding record_pod_uid_seen
Moves-Step {r} (ensures pod c h) = Moves-ensure r pod c h
Moves-Step {r} (releases key gen) = Moves-release r key gen
Moves-Step {r} (reports key gen c) = Moves-same r _ (SameStreams-advance r key gen c)
Moves-Step {r} (marks pod) = Moves-same r _ (SameStreams-marks r pod)
Moves-Step {r} (sees u now) = Moves-same r _ (refl, refl, refl, refl)
Moves-Step {r} (deletes pod inferred) = Moves-delete r pod inferred
Moves-Step {r} (prunes now) = Moves-same r _ (SameStreams-prune r now)
Moves-Step {r} (drops keys) = Moves-same r _ (SameStreams-drop_states keys r)

-- No entry has a generation that was not handed out yet, and no two keys share one.
pub record WellFormed (r : Receiver) : Type 0 where
  pub handed_out : (j : Bytes) (g : ℕ) → lookup j r.active_streams ≡ some g → g ≤ r.next_stream_gen
  pub distinct :
      (j k : Bytes) (g : ℕ)
      → lookup j r.active_streams ≡ some g
      → lookup k r.active_streams ≡ some g
      → j ≡ k

WellFormed-Moves : {r s : Receiver} → Moves r s → WellFormed r → WellFormed s
WellFormed-Moves (shrinks e f) w = record {
  handed_out = λ j g h. omega (arith, e, w.handed_out j g (f j g h));
  distinct = λ j k g h i. w.distinct j k g (f j g h) (f k g i);
}
WellFormed-Moves {r} {s} (adds key e f) w = record {
  handed_out = λ j g h. ground (arith, e, f j, w.handed_out j g, same_iff key j);
  distinct = λ j k g h i. ground (
    arith,
    f j,
    f k,
    w.handed_out j g,
    w.handed_out k g,
    w.distinct j k g,
    same_iff key j,
    same_iff key k,
  );
}

WellFormed-new : (has_client : Bool) → WellFormed (new_receiver has_client)
unfolding new_receiver
WellFormed-new b = record {
  handed_out = λ j g h. absurd (ground arith);
  distinct = λ j k g h i. absurd (ground arith);
}

WellFormed-Reach : {r s : Receiver} → WellFormed r → Reach r s → WellFormed s
WellFormed-Reach w here = w
WellFormed-Reach w (next p st) = WellFormed-Moves (Moves-Step st) (WellFormed-Reach w p)

-- In every interleaving of pod events, resyncs, prunes, and the reports and the ends of streams that
-- starts from a new receiver, and hands out fewer than 2^64 generations, each running stream's entry
-- has a generation that was handed out, and two keys never have the same generation.
pub Reach-WellFormed :
    (has_client : Bool) (r : Receiver) → Reach (new_receiver has_client) r → WellFormed r
Reach-WellFormed b r p = WellFormed-Reach (WellFormed-new b) p

pub streams-mark_container_states :
    (r : Receiver) (pod : Pod) → (mark_container_states r pod).active_streams ≡ r.active_streams
unfolding mark_container_states
streams-mark_container_states r pod =
    (SameStreams-mark_init pod.init_container_statuses _ pod).0
    ∙ (SameStreams-mark_regular pod.container_statuses r pod).0
