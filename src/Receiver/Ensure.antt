-- ===== src/Receiver/Ensure.antt =====
-- What ensureStreams starts, and that a resync changes nothing that is in place.
use k8spodlogreceiver.Prelude.{
  ◌+◌, ◌%◌, ◌≡◌, refl, ap, ◌∙◌, inl, inr, Bool, true, false, not, ◌&&◌, ◌||◌, List, [], ◌∷◌, arith,
  Bool-cases, All, same, same_iff, same_refl, Bytes, bytes_eq,
}
use k8spodlogreceiver.Prelude.Maps.{has, lookup-put}
use k8spodlogreceiver.Pod.{Pod, Container, pod_containers, container_has_started}
use k8spodlogreceiver.Receiver.{
  u64_mod, Receiver, key_of, start_stream, ensure_stream, ensure_all, ensure_streams,
}

-- Nothing is left to start for the container: it has not started, or it has a stream, or it was
-- drained.
abbrev pub settled : Receiver → Pod → Container → Bool
settled r pod c =
    not (container_has_started pod c.name)
    || (has (key_of pod c.name) r.active_streams || has (key_of pod c.name) r.drained_containers)

abbrev pub AllSettled : Receiver → Pod → List Container → Type 0
AllSettled r pod = All (λ c. settled r pod c ≡ true)

ensure_settled :
    (r : Receiver) (pod : Pod) (c : Container) → settled r pod c ≡ true → ensure_stream r pod c ≡ r
unfolding ensure_stream
ensure_settled r pod c h = ground arith

has-start_stream :
    (r : Receiver) (key j : Bytes)
    → has j (start_stream r key).active_streams ≡ (same key j || has j r.active_streams)
unfolding start_stream
has-start_stream r key j =
    ground (arith, lookup-put key j ((r.next_stream_gen + 1) % u64_mod) r.active_streams)

ensure_unsettled :
    (r : Receiver) (pod : Pod) (c : Container)
    → settled r pod c ≡ false
    → ensure_stream r pod c ≡ start_stream r (key_of pod c.name)
unfolding ensure_stream
ensure_unsettled r pod c h = ground arith

drained-start_stream :
    (r : Receiver) (key : Bytes) → (start_stream r key).drained_containers ≡ r.drained_containers
unfolding start_stream
drained-start_stream r key = refl

drained-ensure_stream :
    (r : Receiver) (pod : Pod) (c : Container)
    → (ensure_stream r pod c).drained_containers ≡ r.drained_containers
unfolding ensure_stream start_stream
drained-ensure_stream r pod c = ground arith

-- The container has started, its key is `j`, and it was not drained.
abbrev pub wants : Receiver → Pod → Container → Bytes → Bool
wants r pod c j =
    container_has_started pod c.name
    && (same (key_of pod c.name) j && not (has j r.drained_containers))

has-ensure_stream :
    (r : Receiver) (pod : Pod) (c : Container) (j : Bytes)
    → has j (ensure_stream r pod c).active_streams ≡ (has j r.active_streams || wants r pod c j)
has-ensure_stream r pod c j = elim (Bool-cases (settled r pod c)) [
  | inl h ↦ rw (ensure_settled r pod c h) (
      ground (
        arith,
        same_iff (key_of pod c.name) j,
        ap (λ k. has k r.active_streams) {x = key_of pod c.name} {y = j},
        ap (λ k. has k r.drained_containers) {x = key_of pod c.name} {y = j},
      ))
  | inr h ↦ rw (ensure_unsettled r pod c h) (
      ground (
        arith,
        has-start_stream r (key_of pod c.name) j,
        same_iff (key_of pod c.name) j,
        ap (λ k. has k r.drained_containers) {x = key_of pod c.name} {y = j},
      ))
]

-- One of the containers has started, has the key `j`, and was not drained.
abbrev pub wanted : Receiver → Pod → List Container → Bytes → Bool
wanted r pod [] j = false
wanted r pod (c ∷ cs) j = wants r pod c j || wanted r pod cs j

wanted-ensure_stream :
    (cs : List Container) (r : Receiver) (pod : Pod) (c : Container) (j : Bytes)
    → wanted (ensure_stream r pod c) pod cs j ≡ wanted r pod cs j
wanted-ensure_stream [] r pod c j = refl
wanted-ensure_stream (d ∷ cs) r pod c j =
    ground (arith, wanted-ensure_stream cs r pod c j, drained-ensure_stream r pod c)

has-ensure_all :
    (cs : List Container) (r : Receiver) (pod : Pod) (j : Bytes)
    → has j (ensure_all r pod cs).active_streams ≡ (has j r.active_streams || wanted r pod cs j)
unfolding ensure_all
has-ensure_all [] r pod j = ground arith
has-ensure_all (c ∷ cs) r pod j = ground (
  arith,
  has-ensure_all cs (ensure_stream r pod c) pod j,
  has-ensure_stream r pod c j,
  wanted-ensure_stream cs r pod c j,
)

drained-ensure_all :
    (cs : List Container) (r : Receiver) (pod : Pod)
    → (ensure_all r pod cs).drained_containers ≡ r.drained_containers
unfolding ensure_all
drained-ensure_all [] r pod = refl
drained-ensure_all (c ∷ cs) r pod =
    drained-ensure_all cs (ensure_stream r pod c) pod ∙ drained-ensure_stream r pod c

-- After ensureStreams, exactly these containers have a stream: those that had one, and those of the
-- pod that have started and were not drained.
pub ensure_streams_exact :
    (r : Receiver) (pod : Pod) (j : Bytes)
    → has j (ensure_streams r pod).active_streams
      ≡ (has j r.active_streams || wanted r pod (pod_containers pod) j)
unfolding ensure_streams
ensure_streams_exact r pod j = has-ensure_all (pod_containers pod) r pod j

settled_of_wanted :
    (cs : List Container) (r s : Receiver) (pod : Pod)
    → ((j : Bytes) → wanted r pod cs j ≡ true → has j s.active_streams ≡ true)
    → s.drained_containers ≡ r.drained_containers
    → AllSettled s pod cs
settled_of_wanted [] r s pod f e = tt
settled_of_wanted (c ∷ cs) r s pod f e = (
  ground
      (arith, f (key_of pod c.name), same_refl (key_of pod c.name), ap (has (key_of pod c.name)) e),
  settled_of_wanted cs r s pod (λ j w. f j (ground (arith, w))) e,
)

ensure_all_settled :
    (cs : List Container) (r : Receiver) (pod : Pod) → AllSettled r pod cs → ensure_all r pod cs ≡ r
unfolding ensure_all
ensure_all_settled [] r pod h = refl
ensure_all_settled (c ∷ cs) r pod h =
    ap (λ s. ensure_all s pod cs) (ensure_settled r pod c h.0) ∙ ensure_all_settled cs r pod h.1

-- A second ensureStreams for the same pod starts nothing, hands out no generation and changes no
-- entry.
ensure_streams_idempotent :
    (r : Receiver) (pod : Pod) → ensure_streams (ensure_streams r pod) pod ≡ ensure_streams r pod
unfolding ensure_streams
ensure_streams_idempotent r pod =
    ensure_all_settled (pod_containers pod) (ensure_all r pod (pod_containers pod)) pod (
      settled_of_wanted (pod_containers pod) r (ensure_all r pod (pod_containers pod)) pod
        (λ j w. ground (arith, has-ensure_all (pod_containers pod) r pod j))
        (drained-ensure_all (pod_containers pod) r pod))
