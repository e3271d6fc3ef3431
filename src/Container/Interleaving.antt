-- ===== src/Container/Interleaving.antt =====
-- A container's stream among all the other goroutines.
use k8spodlogreceiver.Prelude.{
  ℕ, ◌+◌, ◌<◌, ◌≡◌, refl, sym, ap, ◌∙◌, true, List, [], ◌∷◌, length, All, Bytes, bytes_eq,
}
use mathlib.Core.Path.{subst}
use k8spodlogreceiver.Container.{new_container_stream}
use k8spodlogreceiver.Stream.Delivery.{ServedRounds}
use k8spodlogreceiver.Prelude.Int.{max_int}
use k8spodlogreceiver.Connection.Reports.{last_from}
use k8spodlogreceiver.Cursor.Serving.{Ascending, Timed}
use k8spodlogreceiver.Connection.Rising.{Rising}
use k8spodlogreceiver.Pod.{Pod}
use k8spodlogreceiver.Receiver.Release.{streams-advance_cursor, owned, owns}
use k8spodlogreceiver.Cursor.{Cursor}
use k8spodlogreceiver.Config.{Config}
use k8spodlogreceiver.Receiver.{cursor_for, advance_cursor, Receiver}
use k8spodlogreceiver.Logline.Line.{Line}
use k8spodlogreceiver.Container.Handover.{
  Continued, Stored, cursor_for-report, container-Leads, Leads-Continued,
}
use k8spodlogreceiver.Receiver.Apart.{Elsewhere, Untouched-Elsewhere}
use k8spodlogreceiver.Stream.{Round, run}

-- The reports `cs` of the stream, in order, with any steps of others before, between and behind them.
pub data Interleaved (key : Bytes) (gen : ℕ) : Receiver → List Cursor → Receiver → Type 0 where
  here : {r : Receiver} → Interleaved key gen r [] r
  tells :
      {r t : Receiver} {cs : List Cursor} (c : Cursor)
      → Interleaved key gen (advance_cursor r key gen c) cs t
      → Interleaved key gen r (c ∷ cs) t
  others :
      {r s t : Receiver} {cs : List Cursor}
      → Elsewhere key gen r s
      → Interleaved key gen s cs t
      → Interleaved key gen r cs t

cursor_for-Interleaved :
    {key : Bytes} {gen : ℕ} {r t : Receiver} {cs : List Cursor}
    → Interleaved key gen r cs t
    → owns r key gen ≡ true
    → Rising (cursor_for r key) cs
    → cursor_for t key ≡ last_from (cursor_for r key) cs
cursor_for-Interleaved here o h = refl
cursor_for-Interleaved {key} {gen} {r} (tells {cs = cs} c i) o h =
    cursor_for-Interleaved i (ap (owned key gen) (streams-advance_cursor r key gen c) ∙ o)
      (subst (λ d. Rising d cs) (sym (cursor_for-report r key gen c o h.0 h.1)) h.2)
    ∙ ap (λ d. last_from d cs) (cursor_for-report r key gen c o h.0 h.1)
cursor_for-Interleaved {key} {gen} {r} {t} {cs} (others e i) o h =
    let u = Untouched-Elsewhere o e in
    cursor_for-Interleaved i u.owner (subst (λ d. Rising d cs) (sym u.position) h)
    ∙ ap (λ d. last_from d cs) u.position

-- A container's log of fewer than 2^62 - 1 lines, all with timestamps, which never decrease, of which
-- the stored position stands after the lines `read`, and a stream that the receiver starts for the
-- container and that owns its key, with the API server's answers as for `Stream.Delivery.run-Exact`.
-- Between the stream's reports any number of steps of other goroutines take place: reports and
-- cleanups of other streams, of stale ones for the same container too, pod events, but for the
-- deletion of the container's own pod, and prunes that find its pod alive. The pipeline gets
-- exactly the lines that come next, and at the end of any such interleaving the stored position
-- stands after just these.
pub Continued-Interleaved :
    (log read : List Line) (cfg : Config) (r t : Receiver) (pod : Pod) (container_name key : Bytes)
    (gen : ℕ) (is : List Round)
    → All Timed log
    → Ascending log
    → length log + length log < max_int
    → ServedRounds log
        (record (new_container_stream cfg r pod container_name key) {
          backoff = cfg.reconnect_backoff.initial_interval;
        })
        is
    → owns r key gen ≡ true
    → Stored log read r key
    → Interleaved key gen r (run (new_container_stream cfg r pod container_name key) is).0.reports t
    → Continued log read key (run (new_container_stream cfg r pod container_name key) is).0 t
Continued-Interleaved log read cfg r t pod name key gen is ti a l h o x i =
    let leads = container-Leads log read cfg r pod name key is ti a l h x in
    Leads-Continued log read key (cursor_for r key) _ t leads
      (cursor_for-Interleaved i o leads.rising)
