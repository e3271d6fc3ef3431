-- ===== src/Discovery/Starting.antt =====
-- When Discovery.Start fails, and what runs when it does not.
use k8spodlogreceiver.Prelude.{
  ◌≡◌, refl, inl, inr, not, Option, none, some, List, [], ◌∷◌, ◌++◌, map, arith, if◌then◌else◌,
  Option-cases, Bytes, bytes_eq,
}
use k8spodlogreceiver.Discovery.{watched_namespaces}
use k8spodlogreceiver.Discovery.Informers.{
  awaits_sync, runs_informer, event_handler_refused, handler_incomplete, incomplete,
  watch_error_handler_refused, transform_refused, Informer, Watcher, Handler, SetUp, Settings,
  Refusal, build_informers, start, new_informer,
}
use k8spodlogreceiver.Prelude.Results.{Result, ok, err}

-- What a set-up is refused for, the first step first.
abbrev pub refusal : SetUp → Option Refusal
refusal s =
    if not s.transform_set
    then some transform_refused
    else if not s.watch_error_handler_set
    then some watch_error_handler_refused
    else if not s.event_handler_added
    then some event_handler_refused
    else none

abbrev pub first_refusal : (Bytes → SetUp) → List Bytes → Option Refusal
first_refusal set_up [] = none
first_refusal set_up (n ∷ ns) = elim (refusal (set_up n)) [
  | none ↦ first_refusal set_up ns
  | some e ↦ some e
]

-- What Start fails with, if it does.
abbrev pub failure : Settings → Handler → (Bytes → SetUp) → Option Refusal
failure cfg h set_up =
    if incomplete h
    then some handler_incomplete
    else first_refusal set_up (watched_namespaces cfg.namespaces)

abbrev pub informer_of : Settings → Bytes → Informer
informer_of cfg namespace = record {
  namespace = namespace;
  label_selector = cfg.label_selector;
  resync_period = cfg.resync_period;
}

-- One informer for each watched namespace, and the wait for all of them.
abbrev pub all_workers : Settings → List Watcher
all_workers cfg =
    let informers = map (informer_of cfg) (watched_namespaces cfg.namespaces) in
    map runs_informer informers ++ awaits_sync informers ∷ []

abbrev pub outcome {ℓ κ} : {E : Type ℓ} {A : Type κ} → Option E → A → Result E A
outcome none a = ok a
outcome (some e) a = err e

new_informer-refusal :
    (cfg : Settings) (set_up : Bytes → SetUp) (n : Bytes)
    → new_informer cfg set_up n ≡ outcome (refusal (set_up n)) (informer_of cfg n)
unfolding new_informer
new_informer-refusal cfg set_up n = ground arith

build_informers-refusal :
    (ns : List Bytes) (cfg : Settings) (set_up : Bytes → SetUp)
    → build_informers cfg set_up ns ≡ outcome (first_refusal set_up ns) (map (informer_of cfg) ns)
unfolding build_informers
build_informers-refusal [] cfg set_up = refl
build_informers-refusal (n ∷ ns) cfg set_up = elim (Option-cases (refusal (set_up n))) [
  | inl e ↦ ground (
    arith,
    e,
    new_informer-refusal cfg set_up n,
    build_informers-refusal ns cfg set_up,
    Option-cases (first_refusal set_up ns),
  )
  | inr (x, e) ↦ ground (arith, e, new_informer-refusal cfg set_up n)
]

-- Start fails if the handler lacks a function or the set-up of some namespace's informer is refused,
-- and then leaves nothing running; else it runs one informer for each watched namespace, in order, and the
-- wait for their initial listing.
pub start-failure :
    (cfg : Settings) (h : Handler) (set_up : Bytes → SetUp)
    → start cfg h set_up ≡ outcome (failure cfg h set_up) (all_workers cfg)
unfolding start
start-failure cfg h set_up =
    ground (arith, build_informers-refusal (watched_namespaces cfg.namespaces) cfg set_up)
