-- ===== src/Receiver/Reviving.antt =====
-- What the next pod event or resync makes of a container whose stream has ended.
use k8spodlogreceiver.Prelude.{
  ℕ, ◌≡◌, refl, ap, ◌∙◌, Bool, true, false, not, ◌&&◌, ◌||◌, List, [], ◌∷◌, arith, same, same_refl,
  Bytes, bytes_eq,
}
use k8spodlogreceiver.Receiver.Generations.{streams-mark_container_states}
use k8spodlogreceiver.Receiver.Release.{release_stream_exact, owns}
use k8spodlogreceiver.Receiver.Ensure.{ensure_streams_exact, wanted}
use mathlib.Core.Path.{ap₂}
use k8spodlogreceiver.Receiver.{
  release_stream, pod_containers, has, key_of, container_has_started, Instant, record_pod_uid_seen,
  on_pod_updated, Receiver, Pod, Container, ContainerStatus, mark_container_states, mark_regular,
  mark_status, mark_init,
}

-- The pod has a container with the key `j`, and it has started.
abbrev pub offered : Pod → List Container → Bytes → Bool
offered pod [] j = false
offered pod (c ∷ cs) j =
    (container_has_started pod c.name && same (key_of pod c.name) j) || offered pod cs j

wanted-offered :
    (cs : List Container) (r : Receiver) (pod : Pod) (j : Bytes)
    → wanted r pod cs j ≡ (offered pod cs j && not (has j r.drained_containers))
wanted-offered [] r pod j = refl
wanted-offered (c ∷ cs) r pod j = ground (arith, wanted-offered cs r pod j)

drained-mark_regular :
    (cs : List ContainerStatus) (r : Receiver) (pod : Pod)
    → (mark_regular r pod cs).drained_containers ≡ r.drained_containers
unfolding mark_regular mark_status
drained-mark_regular [] r pod = refl
drained-mark_regular (c ∷ cs) r pod = drained-mark_regular cs _ pod

drained-mark_init :
    (cs : List ContainerStatus) (r : Receiver) (pod : Pod)
    → (mark_init r pod cs).drained_containers ≡ r.drained_containers
unfolding mark_init mark_status
drained-mark_init [] r pod = refl
drained-mark_init (c ∷ cs) r pod = drained-mark_init cs _ pod

drained-mark_container_states :
    (r : Receiver) (pod : Pod)
    → (mark_container_states r pod).drained_containers ≡ r.drained_containers
unfolding mark_container_states
drained-mark_container_states r pod =
    drained-mark_init pod.init_container_statuses _ pod
    ∙ drained-mark_regular pod.container_statuses r pod

-- After a pod update, in whatever state the receiver is: exactly these containers have a stream, those
-- that had one, and those of the pod that have started and are not marked drained.
pub streams-on_pod_updated :
    (r : Receiver) (pod : Pod) (now : Instant) (j : Bytes)
    → has j (on_pod_updated r pod now).active_streams ≡ (
        has j r.active_streams
        || (offered pod (pod_containers pod) j && not (has j r.drained_containers)))
unfolding on_pod_updated record_pod_uid_seen
streams-on_pod_updated r pod now j =
    let seen = record_pod_uid_seen r pod.uid now in
    let marked = mark_container_states seen pod in
    ensure_streams_exact marked pod j
    ∙ ap (λ b. has j marked.active_streams || b) (wanted-offered (pod_containers pod) marked pod j)
    ∙ ap₂ (λ a d. has j a || (offered pod (pod_containers pod) j && not (has j d)))
        (streams-mark_container_states seen pod) (drained-mark_container_states seen pod)

-- The stream that owns a container's key ends, for whatever reason, and then a pod update or a resync
-- delivers the container's pod, with the container started. If the container was not marked drained
-- before, it has a stream again exactly if it was not marked terminal when the stream ended, whatever
-- the update now says of it: a stream that gave up is revived, and one of a finished container is
-- not, be its log read to the end or not.
pub stream_after_release :
    (r : Receiver) (pod : Pod) (key : Bytes) (gen : ℕ) (now : Instant)
    → owns r key gen ≡ true
    → has key r.drained_containers ≡ false
    → offered pod (pod_containers pod) key ≡ true
    → has key (on_pod_updated (release_stream r key gen) pod now).active_streams
      ≡ not (has key r.terminated_containers)
stream_after_release r pod key gen now o d f =
    let x = release_stream_exact r key key gen in
    streams-on_pod_updated (release_stream r key gen) pod now key
    ∙ ground (arith, x.0, x.1, o, d, f, same_refl key)
