-- ===== src/Tests/Lifecycles.antt =====
-- Starts and shutdowns on concrete hosts.
use k8spodlogreceiver.Prelude.{
  ◌≡◌, refl, true, Option, none, some, List, [], ◌∷◌, arith, Bytes, bytes_eq,
}
use k8spodlogreceiver.Prelude.Int.{negsuc, pos}
use k8spodlogreceiver.Lifecycle.Restart.{restart_resumes}
use k8spodlogreceiver.Tests.Containers.{small_batches}
use k8spodlogreceiver.Cursor.Store.Persistence.{answer, RoundTrips, DecodesToMaps}
use k8spodlogreceiver.Discovery.Informers.{SetUp}
use k8spodlogreceiver.Cursor.Store.{value, Cursors}
use k8spodlogreceiver.Tests.Receivers.{streaming, key}
use k8spodlogreceiver.Config.{Config}
use k8spodlogreceiver.Receiver.{cursor_for}
use k8spodlogreceiver.Lifecycle.Starting.{start-Started, Started}
use k8spodlogreceiver.Cursor.Store
use k8spodlogreceiver.Config.{Config, create_default_config}
use k8spodlogreceiver.Discovery.{watched_namespaces}
use k8spodlogreceiver.Cursor.{after}
use k8spodlogreceiver.Prelude.Maps.{put}
use k8spodlogreceiver.Pod.{pod_containers, container_has_started}
use k8spodlogreceiver.Receiver.{release_stream, advance_cursor, ensure_stream, cursor_for}
use k8spodlogreceiver.Lifecycle.{
  storage_not_configured, storage_extension, open_storage, Host, Last, Process, start, shutdown,
  new_process, wind_down, reports, releases,
}
use k8spodlogreceiver.Lifecycle.Failures.{held_in, failure}

-- One cursor as text: its time, its count, and the key.
abbrev pub encode_one : Cursors → Option Bytes
encode_one [] = none
encode_one ((k, c) ∷ m) = elim c.delivered [ pos d ↦ some (c.ts ∷ d ∷ k) | negsuc d ↦ none ]

abbrev pub decode_one : Bytes → Option Cursors
decode_one [] = none
decode_one (t ∷ []) = none
decode_one (t ∷ d ∷ k) = some ((k, record { ts = t; delivered = pos d }) ∷ [])

pub decode_one_maps : DecodesToMaps decode_one
decode_one_maps [] m e = absurd (ground arith)
decode_one_maps (t ∷ []) m e = absurd (ground arith)
decode_one_maps (t ∷ d ∷ k) m e = ground arith

abbrev pub storage_id : Bytes
storage_id = b's' ∷ []

abbrev pub stored_config : Config
stored_config = record small_batches { storage_id = some storage_id }

abbrev willing : SetUp
willing = record {
  transform_set = true;
  watch_error_handler_set = true;
  event_handler_added = true;
}

-- A host without extensions on which all else succeeds.
abbrev pub bare_host : Host
bare_host = record {
  extensions = [];
  rest_config = true;
  http_client = true;
  clientset = true;
  set_up = λ namespace. willing;
}

no_extension :
    (start decode_one stored_config bare_host new_process).1
    ≡ some (storage_not_configured storage_id)
unfolding start open_storage
no_extension = refl

-- The storage holds the position of the one container.
abbrev stored_text : Bytes
stored_text = 5 ∷ 1 ∷ key

abbrev storing_host : Host
storing_host = record bare_host {
  extensions = (storage_id, storage_extension (some (value stored_text))) ∷ [];
}

start-Started_example :
    let (q, e) = start decode_one stored_config storing_host new_process in
    Started decode_one stored_config storing_host new_process q e
start-Started_example =
    start-Started decode_one stored_config storing_host new_process (unfold new_process in refl)
      decode_one_maps

-- A collector with one stream, which reports once more before it ends.
abbrev one_running : Process
unfolding new_process
one_running = record new_process { receiver = streaming }

abbrev last_report : List Last
last_report = reports key 1 (record { ts = 5; delivered = pos 1 }) ∷ releases key 1 ∷ []

written_back :
    RoundTrips encode_one decode_one (wind_down one_running.receiver last_report).cursors.cursors
unfolding wind_down streaming release_stream advance_cursor one_running pod_containers ensure_stream
    container_has_started put Store.advance after Store.new_store
written_back = record {
  raw_head = 5;
  raw_tail = 1 ∷ key;
  encoded = refl;
  read_back = (key, record { ts = 5; delivered = pos 1 }) ∷ [];
  decoded = refl;
  same_entries = λ j. refl;
}

with_client : one_running.receiver.cursors.has_client ≡ true
unfolding one_running streaming pod_containers ensure_stream container_has_started Store.new_store
with_client = refl

stored_back :
    held_in stored_config.storage_id storing_host.extensions
    ≡ some (answer (shutdown encode_one one_running last_report).written)
unfolding wind_down streaming release_stream advance_cursor one_running pod_containers ensure_stream
    container_has_started put Store.advance after Store.new_store shutdown Store.flush
stored_back = refl

pub starts : failure stored_config storing_host ≡ none
unfolding small_batches create_default_config watched_namespaces
starts = refl

restart_resumes_example :
    cursor_for (start decode_one stored_config storing_host new_process).0.receiver key
    ≡ cursor_for (wind_down one_running.receiver last_report) key
restart_resumes_example =
    restart_resumes encode_one decode_one stored_config storing_host one_running last_report key
      with_client decode_one_maps written_back starts stored_back
