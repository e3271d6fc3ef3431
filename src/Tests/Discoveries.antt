-- ===== src/Tests/Discoveries.antt =====
-- What informers deliver, on concrete objects.
use k8spodlogreceiver.Prelude.{
  Any, ◌≡◌, refl, ap, inr, true, not, none, [], ◌∷◌, if◌then◌else◌, keep_if, same, bytes_eq,
}
use k8spodlogreceiver.Receiver.Accounts.{is_started}
use k8spodlogreceiver.Discovery.{deliver}
use k8spodlogreceiver.Receiver.{
  Receiver, ensure_streams, mark_container_states, record_pod_uid_seen, delete_container,
}
use k8spodlogreceiver.StreamKey.{stream_key}
use k8spodlogreceiver.Prelude.Maps.{put}
use k8spodlogreceiver.Pod.{pod_containers, container_has_started}
use k8spodlogreceiver.Receiver.{ensure_stream, on_pod_added, on_pod_deleted}
use k8spodlogreceiver.Discovery.Present.{starts, adds, removes, running_of_held, Watched}
use k8spodlogreceiver.Cursor.{zero_cursor}
use k8spodlogreceiver.Receiver.{new_receiver, cursor_for}
use k8spodlogreceiver.Receiver.Deletion.{member, is_key_of}
use k8spodlogreceiver.Discovery.{
  pod_object, tombstone, other_object, pod_from, add_func, delete_func, watched_namespaces,
  loggable_namespaces,
}
use k8spodlogreceiver.Discovery.Relist.{relist_positions}
use k8spodlogreceiver.Tests.Receivers.{pod, streaming, key}

all_namespaces :
    loggable_namespaces (watched_namespaces []) ≡ (b'<' ∷ b'a' ∷ b'l' ∷ b'l' ∷ b'>' ∷ []) ∷ []
unfolding loggable_namespaces watched_namespaces
all_namespaces = refl

no_pod : pod_from (tombstone other_object) ≡ none
unfolding pod_from
no_pod = refl

relist_positions_example :
    let gone = delete_func streaming (pod_object pod) in
    let broken = delete_func streaming (tombstone (pod_object pod)) in
    (cursor_for (add_func broken (pod_object pod) 9) key ≡ cursor_for streaming key)
    × (cursor_for (add_func gone (pod_object pod) 9) key
        ≡ (if is_key_of pod key then zero_cursor else cursor_for streaming key))
relist_positions_example = relist_positions streaming pod 9 key

-- The pod is added; its watch breaks, and a tombstone takes it away again.
abbrev taken : Receiver
taken = delete_func (add_func (new_receiver true) (pod_object pod) 9) (tombstone (pod_object pod))

taken_away : Watched (keep_if (λ q. not (same q.uid pod.uid)) (pod ∷ [])) [] taken
unfolding pod_from
taken_away =
    removes (tombstone (pod_object pod)) pod refl (inr (λ j. refl), tt) (adds pod 9 (starts true))

-- It is added again: its first stream was told to stop, its second runs.
abbrev again : Receiver
again = add_func taken (pod_object pod) 20

runs_again : is_started key 2 again.started ≡ true
unfolding new_receiver ensure_stream container_has_started stream_key put pod_containers add_func
    delete_func pod_from on_pod_added on_pod_deleted deliver ensure_streams mark_container_states
    record_pod_uid_seen delete_container
runs_again = refl

first_stopped : again.cancelled ≡ 1 ∷ []
unfolding new_receiver ensure_stream container_has_started stream_key put pod_containers add_func
    delete_func pod_from on_pod_added on_pod_deleted deliver ensure_streams mark_container_states
    record_pod_uid_seen delete_container
first_stopped = refl

running_of_held_example :
    Any (λ q. is_key_of q key ≡ true) (pod ∷ keep_if (λ q. not (same q.uid pod.uid)) (pod ∷ []))
running_of_held_example =
    running_of_held key 2 (adds pod 20 taken_away) runs_again (ap (member 2) first_stopped) refl
