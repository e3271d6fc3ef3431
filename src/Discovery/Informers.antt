-- ===== src/Discovery/Informers.antt =====
-- internal/poddiscovery/discovery.go: Discovery.Start, newInformer, cachedPods and logWatchError.
-- An informer is client-go's: what it answers to the calls that set it up is an input, and the
-- goroutines that Start leaves are a list.
use k8spodlogreceiver.Prelude.{
  ℕ, ◌+◌, Bool, not, ◌||◌, Option, List, [], ◌∷◌, ◌++◌, map, if◌then◌else◌, is_some, length, Bytes,
  bytes_eq,
}
use k8spodlogreceiver.Discovery.{Instant, Pod, watched_namespaces}
use k8spodlogreceiver.Receiver.{Receiver}
use k8spodlogreceiver.Prelude.Int.{ℤ}
use k8spodlogreceiver.Prelude.Results.{Result, ok, err, ◌>>=◌}

-- Config
pub record Settings : Type 0 where
  pub namespaces : List Bytes
  pub label_selector : Bytes
  pub resync_period : ℤ

-- Handler; a nil function is `none`.
pub record Handler : Type 0 where
  pub on_add : Option (Receiver → Pod → Instant → Receiver)
  pub on_update : Option (Receiver → Pod → Instant → Receiver)
  pub on_delete : Option (Receiver → Pod → Bool → Receiver)

pub data Refusal : Type 0 where
  handler_incomplete : Refusal
  transform_refused watch_error_handler_refused event_handler_refused : Refusal

-- Whether SetTransform, SetWatchErrorHandlerWithContext and AddEventHandler return no error.
pub record SetUp : Type 0 where
  pub transform_set : Bool
  pub watch_error_handler_set : Bool
  pub event_handler_added : Bool

-- What an informer lists, watches and re-delivers.
pub record Informer : Type 0 where
  pub namespace : Bytes
  pub label_selector : Bytes
  pub resync_period : ℤ

-- The goroutines of Start.
pub data Watcher : Type 0 where
  runs_informer : Informer → Watcher
  awaits_sync : List Informer → Watcher

-- newInformer
unfoldable pub new_informer : Settings → (Bytes → SetUp) → Bytes → Result Refusal Informer
new_informer cfg set_up namespace =
    if not (set_up namespace).transform_set
    then err transform_refused
    else if not (set_up namespace).watch_error_handler_set
    then err watch_error_handler_refused
    else if not (set_up namespace).event_handler_added
    then err event_handler_refused
    else ok (record {
      namespace = namespace;
      label_selector = cfg.label_selector;
      resync_period = cfg.resync_period;
    })

-- The loop of Start that builds the informers.
unfoldable pub build_informers :
    Settings → (Bytes → SetUp) → List Bytes → Result Refusal (List Informer)
build_informers cfg set_up [] = ok []
build_informers cfg set_up (n ∷ ns) = do
  informer ← new_informer cfg set_up n
  informers ← build_informers cfg set_up ns
  ok (informer ∷ informers)

-- d.handler.OnAdd == nil || d.handler.OnUpdate == nil || d.handler.OnDelete == nil
abbrev pub incomplete : Handler → Bool
incomplete h = not (is_some h.on_add) || (not (is_some h.on_update) || not (is_some h.on_delete))

-- Start: the goroutines that it leaves
unfoldable pub start : Settings → Handler → (Bytes → SetUp) → Result Refusal (List Watcher)
unfolding build_informers
start cfg h set_up = if incomplete h then err handler_incomplete else do
  informers ← build_informers cfg set_up (watched_namespaces cfg.namespaces)
  ok (map runs_informer informers ++ awaits_sync informers ∷ [])

-- cachedPods, of the keys in each informer's cache
unfoldable pub cached_pods : List (List Bytes) → ℕ
cached_pods [] = 0
cached_pods (ks ∷ rest) = length ks + cached_pods rest

pub data Loudness : Type 0 where
  silent debug warn : Loudness

-- logWatchError, by what errors.Is and apierrors say of the error
unfoldable pub log_watch_error : (canceled expired gone : Bool) → Loudness
log_watch_error canceled expired gone =
    if canceled then silent else if expired || gone then debug else warn
