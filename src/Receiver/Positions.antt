-- ===== src/Receiver/Positions.antt =====
-- A pod's addition moves no position.
use k8spodlogreceiver.Prelude.{◌≡◌, refl, ap, ◌∙◌, List, [], ◌∷◌, arith, Bytes, bytes_eq}
use k8spodlogreceiver.Instant.{Instant}
use k8spodlogreceiver.Pod.{Pod, Container, ContainerStatus, pod_containers}
use k8spodlogreceiver.Cursor.Store
use k8spodlogreceiver.Receiver.{
  cursor_for, Receiver, on_pod_added, ensure_stream, ensure_all, ensure_streams, start_stream,
  mark_status, mark_regular, mark_init, mark_container_states, record_pod_uid_seen,
}

pub cursors-ensure_stream :
    (r : Receiver) (pod : Pod) (c : Container) → (ensure_stream r pod c).cursors ≡ r.cursors
unfolding ensure_stream start_stream
cursors-ensure_stream r pod c = ground arith

cursors-ensure_all :
    (cs : List Container) (r : Receiver) (pod : Pod) → (ensure_all r pod cs).cursors ≡ r.cursors
unfolding ensure_all
cursors-ensure_all [] r pod = refl
cursors-ensure_all (c ∷ cs) r pod =
    cursors-ensure_all cs (ensure_stream r pod c) pod ∙ cursors-ensure_stream r pod c

cursors-mark_regular :
    (cs : List ContainerStatus) (r : Receiver) (pod : Pod)
    → (mark_regular r pod cs).cursors ≡ r.cursors
unfolding mark_regular mark_status
cursors-mark_regular [] r pod = refl
cursors-mark_regular (c ∷ cs) r pod = cursors-mark_regular cs _ pod

cursors-mark_init :
    (cs : List ContainerStatus) (r : Receiver) (pod : Pod)
    → (mark_init r pod cs).cursors ≡ r.cursors
unfolding mark_init mark_status
cursors-mark_init [] r pod = refl
cursors-mark_init (c ∷ cs) r pod = cursors-mark_init cs _ pod

pub cursors-on_pod_added :
    (r : Receiver) (pod : Pod) (now : Instant)
    → (on_pod_added r pod now).cursors ≡ Store.mark_pod_seen r.cursors pod.uid now
unfolding on_pod_added ensure_streams mark_container_states record_pod_uid_seen
cursors-on_pod_added r pod now =
    cursors-ensure_all (pod_containers pod) _ pod
    ∙ cursors-mark_init pod.init_container_statuses _ pod
    ∙ cursors-mark_regular pod.container_statuses _ pod

pub cursor_for-on_pod_added :
    (r : Receiver) (pod : Pod) (now : Instant) (key : Bytes)
    → cursor_for (on_pod_added r pod now) key ≡ cursor_for r key
unfolding cursor_for
cursor_for-on_pod_added r pod now key =
    ap (λ s. Store.get s key) (cursors-on_pod_added r pod now)
    ∙ unfold Store.get Store.mark_pod_seen in refl

pub has_client-on_pod_added :
    (r : Receiver) (pod : Pod) (now : Instant)
    → (on_pod_added r pod now).cursors.has_client ≡ r.cursors.has_client
has_client-on_pod_added r pod now =
    ap (λ s. s.has_client) (cursors-on_pod_added r pod now) ∙ unfold Store.mark_pod_seen in refl

pub cursors-mark_container_states :
    (r : Receiver) (pod : Pod) → (mark_container_states r pod).cursors ≡ r.cursors
unfolding mark_container_states
cursors-mark_container_states r pod =
    cursors-mark_init pod.init_container_statuses _ pod
    ∙ cursors-mark_regular pod.container_statuses _ pod
