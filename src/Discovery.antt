-- ===== src/Discovery.antt =====
-- internal/poddiscovery/discovery.go: what the informers deliver, and the receiver's handlers that
-- startPodDiscovery of receiver.go gives them. The informers themselves are client-go's.
pub mod Present
pub mod Relist
pub mod Informers
pub mod Starting
use k8spodlogreceiver.Prelude.{
  ℕ, zero, suc, ◌+◌, ◌-◌, ◌*◌, ◌/◌, ◌%◌, ◌≤◌, ◌<◌, ◌≡◌, refl, sym, ap, ◌∙◌, ◌≢◌, ◌↔◌, ◌⊎◌, inl, inr,
  Bool, true, false, not, ◌&&◌, ◌||◌, Option, none, some, List, [], ◌∷◌, ◌++◌, map, arith, ltb, leb,
  ◌==◌, if◌then◌else◌, ==_iff, ltb→lt, lt→ltb, leb→le, Bool-cases, Option-cases, is_some, length,
  take, drop, keep_if, All, length-append, length-take_le, length-take, length-drop,
  take-append-drop, keep_if-append, Eq, same, same_iff, same_refl, Bytes, bytes_eq,
}
use k8spodlogreceiver.Instant.{Instant}
use k8spodlogreceiver.Pod.{Pod}
use k8spodlogreceiver.Receiver.{Receiver, on_pod_added, on_pod_updated, on_pod_deleted}

-- What an informer hands a handler: a pod, a tombstone (cache.DeletedFinalStateUnknown) with the last
-- cached state, or something else.
pub data Object : Type 0 where
  pod_object : Pod → Object
  tombstone : Object → Object
  other_object : Object

-- obj.(*corev1.Pod)
abbrev pub as_pod : Object → Option Pod
as_pod (pod_object pod) = some pod
as_pod (tombstone obj) = none
as_pod other_object = none

-- podFrom
unfoldable pub pod_from : Object → Option Pod
pod_from (tombstone obj) = as_pod obj
pod_from (pod_object pod) = some pod
pod_from other_object = none

abbrev pub is_tombstone : Object → Bool
is_tombstone (tombstone obj) = true
is_tombstone (pod_object pod) = false
is_tombstone other_object = false

-- deliver: something that is no pod is dropped.
unfoldable pub deliver : Receiver → Object → (Pod → Receiver) → Receiver
unfolding pod_from
deliver r obj to = elim (pod_from obj) [ none ↦ r | some pod ↦ to pod ]

-- AddFunc, UpdateFunc and DeleteFunc, at the time `now`
unfoldable pub add_func : Receiver → Object → Instant → Receiver
add_func r obj now = deliver r obj (λ pod. on_pod_added r pod now)

unfoldable pub update_func : Receiver → Object → Instant → Receiver
update_func r obj now = deliver r obj (λ pod. on_pod_updated r pod now)

unfoldable pub delete_func : Receiver → Object → Receiver
delete_func r obj = deliver r obj (λ pod. on_pod_deleted r pod (is_tombstone obj))

-- metav1.NamespaceAll is the empty string.
abbrev pub namespace_all : Bytes
namespace_all = []

-- The namespaces that Start watches.
unfoldable pub watched_namespaces : List Bytes → List Bytes
watched_namespaces [] = namespace_all ∷ []
watched_namespaces (n ∷ ns) = n ∷ ns

-- loggableNamespaces
unfoldable pub loggable_namespaces : List Bytes → List Bytes
loggable_namespaces [] = []
loggable_namespaces (n ∷ ns) =
    (if same n namespace_all then b'<' ∷ b'a' ∷ b'l' ∷ b'l' ∷ b'>' ∷ [] else n)
    ∷ loggable_namespaces ns
