-- ===== src/Lifecycle/Restart.antt =====
-- What a collector that shuts down hands to the one that starts next.
use k8spodlogreceiver.Prelude.{
  ℕ, ◌≡◌, refl, sym, ap, ◌∙◌, true, Option, none, some, List, [], ◌∷◌, arith, Bytes, bytes_eq,
}
use k8spodlogreceiver.Lifecycle.Starting.{start-Started, Started}
use k8spodlogreceiver.Receiver.{cursor_for, advance_cursor, release_stream}
use k8spodlogreceiver.Cursor.Store.Persistence.{
  load-flush, load_exact, answer, readable, RoundTrips, DecodesToMaps,
}
use k8spodlogreceiver.Receiver.Release.{release_stream_exact}
use k8spodlogreceiver.Cursor.Store.{Store, Cursors}
use k8spodlogreceiver.Cursor.Store
use k8spodlogreceiver.Lifecycle.{
  Cursor, pod_uid_from_stream_key, Process, releases, Host, reports, Config, Last, Receiver,
  new_process, start, shutdown, wind_down,
}
use k8spodlogreceiver.Lifecycle.Failures.{held, held_in, failure}

pub has_client-advance_cursor :
    (r : Receiver) (key : Bytes) (gen : ℕ) (c : Cursor)
    → (advance_cursor r key gen c).cursors.has_client ≡ r.cursors.has_client
unfolding advance_cursor Store.advance
has_client-advance_cursor r key gen c = ground arith

pub has_client-release_stream :
    (r : Receiver) (key : Bytes) (gen : ℕ)
    → (release_stream r key gen).cursors.has_client ≡ r.cursors.has_client
has_client-release_stream r key gen = ap (λ s. s.has_client) (release_stream_exact r key key gen).3

has_client-wind_down :
    (ls : List Last) (r : Receiver) → (wind_down r ls).cursors.has_client ≡ r.cursors.has_client
unfolding wind_down
has_client-wind_down [] r = refl
has_client-wind_down (reports key gen c ∷ ls) r =
    has_client-wind_down ls (advance_cursor r key gen c) ∙ has_client-advance_cursor r key gen c
has_client-wind_down (releases key gen ∷ ls) r =
    has_client-wind_down ls (release_stream r key gen) ∙ has_client-release_stream r key gen

-- What is read back from a flush.
pub cursor_at-flush :
    (encode : Cursors → Option Bytes) (decode : Bytes → Option Cursors) (s : Store) (key : Bytes)
    → s.has_client ≡ true
    → DecodesToMaps decode
    → RoundTrips encode decode s.cursors
    → Store.cursor_at key (readable decode true (answer (Store.flush encode s))) ≡ Store.get s key
unfolding Store.flush Store.new_store Store.get
cursor_at-flush encode decode s key c d t =
    sym (
      load_exact decode (Store.new_store true pod_uid_from_stream_key)
        (answer (Store.flush encode s)) key d)
    ∙ load-flush encode decode s pod_uid_from_stream_key key c d t

-- A receiver with a storage client that is shut down, whatever its streams still report until they
-- have ended, and a new one that starts without an error on a storage that holds what Shutdown wrote,
-- where the written text reads back as the same map: every container resumes exactly where the
-- last report of its stream left it.
pub restart_resumes :
    (encode : Cursors → Option Bytes) (decode : Bytes → Option Cursors) (cfg : Config) (host : Host)
    (p : Process) (ls : List Last) (key : Bytes)
    → p.receiver.cursors.has_client ≡ true
    → DecodesToMaps decode
    → RoundTrips encode decode (wind_down p.receiver ls).cursors.cursors
    → failure cfg host ≡ none
    → held_in cfg.storage_id host.extensions ≡ some (answer (shutdown encode p ls).written)
    → cursor_for (start decode cfg host new_process).0.receiver key
      ≡ cursor_for (wind_down p.receiver ls) key
unfolding shutdown new_process
restart_resumes encode decode cfg host p ls key c d t f e =
    started.positions key (started.outcome.fails ∙ f)
    ∙ ap (λ h. Store.cursor_at key (held decode h)) e
    ∙ unfold cursor_for in
      cursor_at-flush encode decode (wind_down p.receiver ls).cursors key
        (has_client-wind_down ls p.receiver ∙ c) d t
  where
    started :
        let (q, e) = start decode cfg host new_process in Started decode cfg host new_process q e
    started = start-Started decode cfg host new_process refl d
