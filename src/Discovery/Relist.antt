-- ===== src/Discovery/Relist.antt =====
-- What an informer's events do to the positions.
use k8spodlogreceiver.Prelude.{◌≡◌, ◌∙◌, true, false, arith, if◌then◌else◌, Bytes, bytes_eq}
use k8spodlogreceiver.Instant.{Instant}
use k8spodlogreceiver.Pod.{Pod}
use k8spodlogreceiver.Cursor.{zero_cursor}
use k8spodlogreceiver.Receiver.{Receiver, on_pod_deleted, cursor_for}
use k8spodlogreceiver.Receiver.Positions.{cursor_for-on_pod_added}
use k8spodlogreceiver.Receiver.Deletion.{on_pod_deleted-Deleted, is_key_of}
use k8spodlogreceiver.Discovery.{pod_object, tombstone, pod_from, deliver, add_func, delete_func}

cursor_for-add_func :
    (r : Receiver) (pod : Pod) (now : Instant) (key : Bytes)
    → cursor_for (add_func r (pod_object pod) now) key ≡ cursor_for r key
unfolding add_func deliver pod_from
cursor_for-add_func r pod now key = cursor_for-on_pod_added r pod now key

-- A pod that an informer reports as gone and then adds again, as after a broken watch or with a
-- deletion that the API server reported. Where the deletion comes as a tombstone, every container resumes
-- where it stood; where the API server reported it, the pod's containers start anew and
-- all the others resume where they stood.
pub relist_positions :
    (r : Receiver) (pod : Pod) (now : Instant) (key : Bytes)
    → let gone = delete_func r (pod_object pod) in
      let broken = delete_func r (tombstone (pod_object pod)) in
      (cursor_for (add_func broken (pod_object pod) now) key ≡ cursor_for r key)
      × (cursor_for (add_func gone (pod_object pod) now) key
          ≡ (if is_key_of pod key then zero_cursor else cursor_for r key))
unfolding delete_func deliver pod_from
relist_positions r pod now key = (
  cursor_for-add_func (on_pod_deleted r pod true) pod now key
      ∙ unfold cursor_for in ground (arith, (on_pod_deleted-Deleted r pod true key).cursor),
  cursor_for-add_func (on_pod_deleted r pod false) pod now key
      ∙ unfold cursor_for in ground (arith, (on_pod_deleted-Deleted r pod false key).cursor),
)
