-- ===== src/System.antt =====
-- The whole system as one container sees it: the receiver, whatever reaches it of any container, pod or
-- ticker, the streams that were started for the container, and what the storage holds; the collector
-- may be killed at any moment, or shut down, and another one starts on what the storage holds.
pub mod Positions
pub mod Bringing
pub mod Behind
pub mod NoGap
pub mod Catching
use k8spodlogreceiver.Prelude.{
  Any, ℕ, zero, suc, ◌+◌, ◌-◌, ◌*◌, ◌/◌, ◌%◌, ◌≤◌, ◌<◌, ◌≡◌, refl, sym, ap, ◌∙◌, ◌≢◌, ◌↔◌, ◌⊎◌, inl,
  inr, Bool, true, false, not, ◌&&◌, ◌||◌, Option, none, some, List, [], ◌∷◌, ◌++◌, map, arith, ltb,
  leb, ◌==◌, if◌then◌else◌, ==_iff, ltb→lt, lt→ltb, leb→le, Bool-cases, Option-cases, is_some,
  length, take, drop, keep_if, All, length-append, length-take_le, length-take, length-drop,
  take-append-drop, keep_if-append, Eq, same, same_iff, same_refl, Bytes, bytes_eq,
}
use k8spodlogreceiver.Lifecycle.Failures.{failure}
use k8spodlogreceiver.Cursor.Store
use k8spodlogreceiver.Receiver.Generations.{
  Step, ensures, releases, reports, marks, sees, deletes, prunes, drops,
}
use k8spodlogreceiver.Cursor.Store.Persistence.{answer, RoundTrips}
use k8spodlogreceiver.Cursor.{Cursor}
use k8spodlogreceiver.Container.{new_container_stream}
use k8spodlogreceiver.Collector.{with_storage}
use k8spodlogreceiver.Pod.{Pod}
use k8spodlogreceiver.Lifecycle.{Host, start, new_process}
use k8spodlogreceiver.Stream.Growing.{Later}
use k8spodlogreceiver.Stream.Delivery.{ServedRounds}
use k8spodlogreceiver.Logline.Line.{Line}
use k8spodlogreceiver.Config.{Config}
use k8spodlogreceiver.Receiver.{advance_cursor, key_of, Receiver}
use k8spodlogreceiver.Stream.{Round, run, Stream}
use k8spodlogreceiver.Cursor.Store.{Read, Cursors}

-- A stream of the container: the generation that it was started under, as newContainerStream made it,
-- and what it has met so far.
pub record Live : Type 0 where
  pub gen : ℕ
  pub first : Stream
  pub met : List Round

pub record System : Type 0 where
  pub receiver : Receiver
  pub streams : List Live  -- those of the running collector
  pub earlier : List Live  -- those of the collectors before it
  pub disk : Read  -- what the storage answers to a read

abbrev pub now_at : Live → Stream
now_at l = (run l.first l.met).0

module _ (log : List Line) where
  -- What a stream meets, where the API server answers as `Stream.Delivery.ServedRounds` says.
  abbrev pub Answers : Stream → List Round → Type 0
  Answers s is = ServedRounds log (record s { backoff = s.backoff_cfg.initial_interval }) is

  -- One of the streams gets on: a connection that is open gets more events, or there are more rounds.
  pub data GetsOn : List Live → List Live → Type 0 where
    this_one :
        (l : Live) (ls : List Live) (is : List Round)
        → Later l.met is
        → Answers l.first is
        → GetsOn (l ∷ ls) (record l { met = is } ∷ ls)
    another : (l : Live) {ls ms : List Live} → GetsOn ls ms → GetsOn (l ∷ ls) (l ∷ ms)

-- A method of the receiver that is no report of one of the streams of the container `key`.
abbrev pub Other : Bytes → {r s : Receiver} → Step r s → Type 0
Other key (ensures pod c h) = Unit
Other key (releases j g) = Unit
Other key (reports j g c) = j ≢ key
Other key (marks pod) = Unit
Other key (sees pod_uid now) = Unit
Other key (deletes pod inferred) = Unit
Other key (prunes now) = Unit
Other key (drops keys) = Unit

module _ (encode : Cursors → Option Bytes) (decode : Bytes → Option Cursors) (cfg : Config)
    (id key : Bytes) (log : List Line) where
  abbrev pub new_life : System → Host → Receiver
  new_life sys host = (start decode cfg (with_storage id sys.disk host) new_process).0.receiver

  pub data Move (sys : System) : System → Type 0 where
    steps :
        {r : Receiver} (st : Step sys.receiver r)
        → Other key st
        → Move sys (record sys { receiver = r })
    opens :
        (pod : Pod) (name : Bytes) (gen : ℕ)
        → key_of pod name ≡ key
        → Move sys (record sys {
          streams =
              record {
                gen = gen;
                first = new_container_stream cfg sys.receiver pod name key;
                met = [];
              }
              ∷ sys.streams;
        })
    gets_on : {ls : List Live} → GetsOn log sys.streams ls → Move sys (record sys { streams = ls })
    tells :
        (gen : ℕ) (c : Cursor)
        → Any (λ l. (l.gen ≡ gen) × Any (λ d. d ≡ c) (now_at l).reports) sys.streams
        → Move sys (record sys { receiver = advance_cursor sys.receiver key gen c })
    flushes :
        sys.receiver.cursors.has_client ≡ true
        → RoundTrips encode decode sys.receiver.cursors.cursors
        → Move sys (record sys { disk = answer (Store.flush encode sys.receiver.cursors) })
    restarts :
        (host : Host)
        → failure cfg (with_storage id sys.disk host) ≡ none
        → Move sys (record {
          receiver = new_life sys host;
          streams = [];
          earlier = sys.streams ++ sys.earlier;
          disk = sys.disk;
        })

  pub data Runs (sys : System) : System → Type 0 where
    still : Runs sys sys
    then_moves : {s t : System} → Runs sys s → Move s t → Runs sys t
