-- ===== src/Pod.antt =====
-- The parts of a Kubernetes pod that the receiver reads, and what receiver.go computes from them.
use k8spodlogreceiver.Prelude.{
  ◌≡◌, refl, Bool, true, false, not, ◌||◌, Option, none, some, List, [], ◌∷◌, ◌++◌, arith,
  if◌then◌else◌, is_some, same, Bytes, bytes_eq,
}
use k8spodlogreceiver.Prelude.Int.{ℤ, pos, eq_ℤ}

-- corev1.RestartPolicy, a string: `other_policy` is any other value, as a defaulted pod never has.
pub data RestartPolicy : Type 0 where
  always on_failure never other_policy : RestartPolicy

-- corev1.ContainerRestartPolicy, by the values that the API server admits
pub data OwnPolicy : Type 0 where
  own_always own_on_failure own_never : OwnPolicy

pub record Container : Type 0 where
  pub name : Bytes
  pub own_policy : Option OwnPolicy

-- corev1.ContainerStatus: a state that is present is not nil.
pub record ContainerStatus : Type 0 where
  pub name : Bytes
  pub restart_count : ℤ  -- int32
  pub running_now : Bool
  pub terminated : Option ℤ  -- the exit code
  pub last_terminated : Bool

pub record Pod : Type 0 where
  pub namespace : Bytes
  pub name : Bytes
  pub uid : Bytes
  pub node_name : Bytes
  pub restart_policy : RestartPolicy
  pub init_containers : List Container
  pub containers : List Container
  pub container_statuses : List ContainerStatus
  pub init_container_statuses : List ContainerStatus

-- podContainers
unfoldable pub pod_containers : Pod → List Container
pod_containers pod = pod.init_containers ++ pod.containers

-- The inner loop of containerHasStarted: `none` where no status has the name.
started_in : List ContainerStatus → Bytes → Option Bool
started_in [] name = none
started_in (cs ∷ rest) name =
    let later = started_in rest name in
    if same cs.name name
    then some (cs.running_now || (is_some cs.terminated || cs.last_terminated))
    else later

-- containerHasStarted
unfoldable pub container_has_started : Pod → Bytes → Bool
unfolding started_in
container_has_started pod name = elim (started_in pod.container_statuses name) [
  | some b ↦ b
  | none ↦ elim (started_in pod.init_container_statuses name) [ some b ↦ b | none ↦ false ]
]

-- The switch at the end of containerIsTerminal.
policy_is_terminal : RestartPolicy → ℤ → Bool
policy_is_terminal never code = true
policy_is_terminal on_failure code = eq_ℤ code (pos 0)
policy_is_terminal _ code = false

abbrev is_never : RestartPolicy → Bool
is_never never = true
is_never _ = false

-- containerIsTerminal for a container that has terminated with the code `code`
terminated_for_good : RestartPolicy → ℤ → Bool → Option OwnPolicy → Bool
terminated_for_good policy code is_init (some own_always) = false
terminated_for_good policy code is_init own =
    if is_init then eq_ℤ code (pos 0) || is_never policy else policy_is_terminal policy code

-- containerIsTerminal
unfoldable pub container_is_terminal :
    RestartPolicy → ContainerStatus → Bool → Option OwnPolicy → Bool
unfolding terminated_for_good policy_is_terminal
container_is_terminal policy cs is_init own = elim cs.terminated [
  | none ↦ false
  | some code ↦ terminated_for_good policy code is_init own
]

own_policy_in : List Container → Bytes → Option OwnPolicy
own_policy_in [] name = none
own_policy_in (c ∷ cs) name =
    let later = own_policy_in cs name in if same c.name name then c.own_policy else later

-- initContainerRestartPolicy
unfoldable pub init_container_restart_policy : Pod → Bytes → Option OwnPolicy
unfolding own_policy_in
init_container_restart_policy pod name = own_policy_in pod.init_containers name

-- Whether the kubelet starts another instance after an exit with this code, by the policy that holds:
-- one of the container's own overrides the pod's. No own policy: an init container is restarted
-- until it succeeds, unless the pod's policy is Never; a regular one as the pod's policy says.
abbrev pub restarts_after : RestartPolicy → ℤ → Bool → Option OwnPolicy → Bool
restarts_after policy code is_init (some own_always) = true
restarts_after policy code is_init (some own_on_failure) = not (eq_ℤ code (pos 0))
restarts_after policy code is_init (some own_never) = false
restarts_after never code is_init none = false
restarts_after always code false none = true
restarts_after always code true none = not (eq_ℤ code (pos 0))
restarts_after on_failure code is_init none = not (eq_ℤ code (pos 0))
restarts_after other_policy code false none = true
restarts_after other_policy code true none = not (eq_ℤ code (pos 0))

-- The own policy that markContainerStates hands to containerIsTerminal.
abbrev pub own_passed : Bool → Option OwnPolicy → Option OwnPolicy
own_passed is_init own = if is_init then own else none

-- With a policy of its own, which overrides the pod's, the test goes wrong: a regular container of a pod with
-- the policy Never whose own policy is Always is terminal after an exit with any code, though it is
-- started again, and one of a pod with the policy Always whose own policy is Never never is.
own_policy_ignored :
    (cs : ContainerStatus) (code : ℤ)
    → cs.terminated ≡ some code
    → (container_is_terminal never cs false (own_passed false (some own_always)) ≡ true)
      × (restarts_after never code false (some own_always) ≡ true)
      × (container_is_terminal always cs false (own_passed false (some own_never)) ≡ false)
      × (restarts_after always code false (some own_never) ≡ false)
unfolding container_is_terminal
own_policy_ignored cs code e = (ground (arith, e), refl, ground (arith, e), refl)
