-- ===== src/Container/Handover.antt =====
-- What a container's stream leaves in the cursor store.
use k8spodlogreceiver.Prelude.{
  ℕ, ◌+◌, ◌<◌, ◌≡◌, refl, sym, ap, ◌∙◌, inl, inr, Bool, true, false, ◌&&◌, List, [], ◌∷◌, ◌++◌, map,
  arith, if◌then◌else◌, length, All, same_refl, Bytes, bytes_eq,
}
use mathlib.Core.Path.{subst, ap₂}
use mathlib.Core.List.{append-nil, append_assoc}
use k8spodlogreceiver.Prelude.Int.{max_int}
use k8spodlogreceiver.Logline.Line.{Line}
use k8spodlogreceiver.Pod.{Pod}
use k8spodlogreceiver.Cursor.{Cursor, is_zero}
use k8spodlogreceiver.Cursor.Order.{NotBefore, after_strict_order}
use k8spodlogreceiver.Cursor.Counting.{Stands}
use k8spodlogreceiver.Cursor.Serving.{Timed, Ascending}
use k8spodlogreceiver.Cursor.Store
use k8spodlogreceiver.Cursor.Store.Advance.{later_of}
use k8spodlogreceiver.Config.{Config}
use k8spodlogreceiver.Receiver.{Receiver, cursor_for, advance_cursor, release_stream}
use k8spodlogreceiver.Receiver.Release.{
  streams-advance_cursor, owned, owns, release_stream_exact, advance_cursor_exact,
}
use k8spodlogreceiver.Connection.Tracks.{accepted_bodies, body_of}
use k8spodlogreceiver.Connection.Reports.{last_from}
use k8spodlogreceiver.Connection.Rising.{Rising}
use k8spodlogreceiver.Stream.{Stream, Round, run}
use k8spodlogreceiver.Stream.Delivery.{ServedRounds}
use k8spodlogreceiver.Stream.Rising.{Leads, run-Leads}
use k8spodlogreceiver.Container.{new_container_stream, publish, stream_container_logs}

-- A report that is not before the stored position replaces it.
later_of-NotBefore : (c d : Cursor) → NotBefore c d → is_zero d ≡ false → later_of c d ≡ d
later_of-NotBefore c d h z = elim (after_strict_order d c d).2 [
  | inl e ↦ ground (arith, z, e)
  | inr (inl e) ↦ absurd (ground (arith, h, e))
  | inr (inr e) ↦ ground (arith, z, e)
]

streams-publish :
    (cs : List Cursor) (r : Receiver) (key : Bytes) (gen : ℕ)
    → (publish r key gen cs).active_streams ≡ r.active_streams
unfolding publish
streams-publish [] r key gen = refl
streams-publish (c ∷ cs) r key gen =
    streams-publish cs (advance_cursor r key gen c) key gen ∙ streams-advance_cursor r key gen c

pub cursor_for-report :
    (r : Receiver) (key : Bytes) (gen : ℕ) (c : Cursor)
    → owns r key gen ≡ true
    → NotBefore (cursor_for r key) c
    → is_zero c ≡ false
    → cursor_for (advance_cursor r key gen c) key ≡ c
unfolding cursor_for
cursor_for-report r key gen c o h z =
    advance_cursor_exact r key key gen c
    ∙ ap (λ b. if b then later_of (Store.get r.cursors key) c else Store.get r.cursors key)
        (ap₂ (λ a b. a && b) o (same_refl key))
    ∙ later_of-NotBefore (Store.get r.cursors key) c h z

pub cursor_for-publish :
    (cs : List Cursor) (r : Receiver) (key : Bytes) (gen : ℕ)
    → owns r key gen ≡ true
    → Rising (cursor_for r key) cs
    → cursor_for (publish r key gen cs) key ≡ last_from (cursor_for r key) cs
unfolding publish
cursor_for-publish [] r key gen o h = refl
cursor_for-publish (c ∷ cs) r key gen o h =
    cursor_for-publish cs (advance_cursor r key gen c) key gen
      (ap (owned key gen) (streams-advance_cursor r key gen c) ∙ o)
      (subst (λ d. Rising d cs) (sym e) h.2)
    ∙ ap (λ d. last_from d cs) e
  where
    e : cursor_for (advance_cursor r key gen c) key ≡ c
    e = cursor_for-report r key gen c o h.0 h.1

cursor_for-release :
    (r : Receiver) (key : Bytes) (gen : ℕ)
    → cursor_for (release_stream r key gen) key ≡ cursor_for r key
unfolding cursor_for
cursor_for-release r key gen = ap (λ s. Store.get s key) (release_stream_exact r key key gen).3

-- The stored position of the container stands after the first lines `read` of its log.
pub record Stored (log read : List Line) (r : Receiver) (key : Bytes) : Type 0 where
  pub tail : List Line
  pub cut : read ++ tail ≡ log
  pub stands : Stands (cursor_for r key) read

-- The stream has brought in the lines `more`, which come behind `read`, and the stored position
-- stands after them.
pub record Continued (log read : List Line) (key : Bytes) (s : Stream) (r : Receiver) : Type 0 where
  pub more : List Line
  pub accepted_are : accepted_bodies s.sent ≡ map body_of more
  pub stored : Stored log (read ++ more) r key

-- What the stream brings in, and what it reports.
pub container-Leads :
    (log read : List Line) (cfg : Config) (r : Receiver) (pod : Pod) (container_name key : Bytes)
    (is : List Round)
    → All Timed log
    → Ascending log
    → length log + length log < max_int
    → ServedRounds log
        (record (new_container_stream cfg r pod container_name key) {
          backoff = cfg.reconnect_backoff.initial_interval;
        })
        is
    → Stored log read r key
    → Leads log read
        (cursor_for r key)
        (run (new_container_stream cfg r pod container_name key) is).0
unfolding new_container_stream
container-Leads log read cfg r pod name key is t a l h x =
    run-Leads log read (new_container_stream cfg r pod name key) is t a l h refl (record {
      read = [];
      tail = x.tail;
      cut = x.cut;
      accepted_are = refl;
      stands = subst (Stands _) (sym (append-nil read)) x.stands;
    })

-- Where the receiver stands at the last of the reports, the position stands after what was brought in.
pub Leads-Continued :
    (log read : List Line) (key : Bytes) (from : Cursor) (s : Stream) (r : Receiver)
    → Leads log read from s
    → cursor_for r key ≡ last_from from s.reports
    → Continued log read key s r
Leads-Continued log read key from s r leads e = record {
  more = leads.exact.read;
  accepted_are = leads.exact.accepted_are;
  stored = record {
    tail = leads.exact.tail;
    cut = append_assoc read leads.exact.read leads.exact.tail ∙ leads.exact.cut;
    stands =
        subst (λ c. Stands c (read ++ leads.exact.read)) (sym (e ∙ leads.told)) leads.exact.stands;
  };
}

-- A container's log of fewer than 2^62 - 1 lines, all with timestamps, which never decrease, of which
-- the stored position stands after the lines `read`, and a stream that the receiver starts for the
-- container and that owns its key, with the API server's answers as for `Stream.Delivery.run-Exact`:
-- the pipeline gets exactly the lines that come next, and however far the stream comes, stopped
-- or not, the stored position stands after just these.
pub stream_container_logs-Continued :
    (log read : List Line) (cfg : Config) (r : Receiver) (pod : Pod) (container_name key : Bytes)
    (gen : ℕ) (is : List Round)
    → All Timed log
    → Ascending log
    → length log + length log < max_int
    → ServedRounds log
        (record (new_container_stream cfg r pod container_name key) {
          backoff = cfg.reconnect_backoff.initial_interval;
        })
        is
    → owns r key gen ≡ true
    → Stored log read r key
    → let (s, r') = stream_container_logs cfg r pod container_name key gen is in
      Continued log read key s r'
unfolding stream_container_logs
stream_container_logs-Continued log read cfg r pod name key gen is t a l h o x =
    Leads-Continued log read key (cursor_for r key) (run s is).0 _ leads (at_end (run s is).1)
  where
    s : Stream
    s = new_container_stream cfg r pod name key

    leads : Leads log read (cursor_for r key) (run s is).0
    leads = container-Leads log read cfg r pod name key is t a l h x

    told : Receiver
    told = publish r key gen (run s is).0.reports

    at_end :
        (going : Bool)
        → cursor_for (if going then told else release_stream told key gen) key
          ≡ last_from (cursor_for r key) (run s is).0.reports
    at_end true = cursor_for-publish (run s is).0.reports r key gen o leads.rising
    at_end false =
        cursor_for-release told key gen
        ∙ cursor_for-publish (run s is).0.reports r key gen o leads.rising
