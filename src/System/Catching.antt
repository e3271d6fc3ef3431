-- ===== src/System/Catching.antt =====
-- That in the end every line of the log comes in.
use k8spodlogreceiver.Connection.Tracks.{body_of}
use k8spodlogreceiver.Prelude.{
  length-map, Any, ℕ, ◌<◌, ◌≡◌, ap, inl, inr, false, Option, some, List, [], ◌∷◌, ◌++◌, arith, ltb,
  Bool-cases, length, All, length-append, Bytes, bytes_eq,
}
use k8spodlogreceiver.Container.{new_container_stream}
use k8spodlogreceiver.Stream.Delivery.{run-Exact, Exact}
use k8spodlogreceiver.Stream.Persists.{Calm}
use k8spodlogreceiver.Stream.Persists.{Calm}
use k8spodlogreceiver.Prelude.Int.{pos, ltb_ℤ, max_int}
use k8spodlogreceiver.Cursor.Serving.{Ascending, Timed}
use k8spodlogreceiver.Cursor.Store.Persistence.{DecodesToMaps}
use k8spodlogreceiver.System.{Pod, Line, Config, Cursors, System, Live, Runs, Answers}
use k8spodlogreceiver.System.NoGap.{idle, Sound-idle, Sound-Runs}
use k8spodlogreceiver.System.Behind.{Lived, Lived-new}
use k8spodlogreceiver.System.Bringing.{Brought, Any-Brought}
use k8spodlogreceiver.Stream.Completing.{Complete, LastRound, run-Complete}
use k8spodlogreceiver.Stream.{run, Round, Stream}

module _ (encode : Cursors → Option Bytes) (decode : Bytes → Option Cursors) (cfg : Config)
    (id key : Bytes) (log : List Line) (i : cfg.storage_id ≡ some id) (d : DecodesToMaps decode)
    (timed : All Timed log) (ascending : Ascending log) (short : length log < max_int) where
  -- A log, a storage and any run of the system as for `System.NoGap.Runs-CameIn`, and a configuration that
  -- does not limit the time of failing connects. Start a stream of the container where the position
  -- stands by then. After any rounds in which it is not cancelled and the container is not terminal,
  -- whatever failed before and in them, let it connect once, the API server's answer go on to the end
  -- of the log and end, and the pipeline refuse nothing: then every line of the log has come in, by
  -- this stream or by an earlier one.
  pub Runs-AllCame :
      (sys : System) (pod : Pod) (name : Bytes) (gen : ℕ) (is : List Round) (last : Round)
      → Runs encode decode cfg id key log idle sys
      → Answers log (new_container_stream cfg sys.receiver pod name key) (is ++ last ∷ [])
      → ltb_ℤ (pos 0) cfg.reconnect_backoff.max_elapsed_time ≡ false
      → All Calm is
      → LastRound log (run (new_container_stream cfg sys.receiver pod name key) is).0.resume last
      → (k : ℕ) → k < length log
      → Any (Brought log k) (
          record {
            gen = gen;
            first = new_container_stream cfg sys.receiver pod name key;
            met = is ++ last ∷ [];
          }
          ∷ (sys.streams ++ sys.earlier))
  Runs-AllCame sys pod name gen is last runs h m c e k b =
      elim (Bool-cases (ltb k (length lived.base))) [
        | inl x ↦
            inr
              (Any-Brought log timed ascending short k all (lived.all_bring k (ground (arith, x))))
        | inr x ↦ inl (record {
          base = lived.base;
          exact = exact;
          from = ground (arith, x);
          upto = omega (
            arith,
            b,
            ap length complete.cut,
            length-append lived.base complete.rest,
            ap length complete.accepted_are,
            length-map body_of complete.rest,
            ap length exact.accepted_are,
            length-map body_of exact.read,
          );
        })
      ]
    where
      s : Stream
      s = new_container_stream cfg sys.receiver pod name key

      all : List Live
      all = sys.streams ++ sys.earlier

      lived : Lived log all (record { gen = gen; first = s; met = [] })
      lived =
          Lived-new log all cfg sys.receiver pod name key gen
            (Sound-Runs encode decode cfg id key log i d timed ascending short runs
              (Sound-idle encode decode cfg id key log)).position

      exact : Exact log lived.base (run s (is ++ last ∷ [])).0
      exact = run-Exact log lived.base s (is ++ last ∷ []) timed ascending short h lived.began

      complete : Complete log lived.base (run s (is ++ last ∷ [])).0
      complete =
          run-Complete log lived.base s is last timed ascending short h lived.began
            (unfold new_container_stream in m) c e
