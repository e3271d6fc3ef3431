-- ===== src/System/NoGap.antt =====
-- That no position is ever ahead of what the streams have brought in.
use k8spodlogreceiver.Prelude.{
  Any, ℕ, ◌<◌, ◌≡◌, sym, inl, inr, true, Option, none, some, List, [], ◌∷◌, ◌++◌, length, All,
  Bytes, bytes_eq,
}
use k8spodlogreceiver.Prelude.Int.{max_int}
use k8spodlogreceiver.System.Positions.{
  position-advance_cursor, position_in_new_life, position-Step,
}
use k8spodlogreceiver.Lifecycle.Restart.{cursor_at-flush}
use k8spodlogreceiver.Cursor.Counting.{Stands}
use k8spodlogreceiver.Cursor.Serving.{Ascending, Timed}
use k8spodlogreceiver.System.Bringing.{Any-Brought, Brought, Grows-GetsOn, Grows-earlier, Grows}
use k8spodlogreceiver.System.Behind.{
  Behind-report, Lived-GetsOn, Lived-Grows, Behind-Grows, Lived-new, Lived, Behind-zero, Behind,
}
use k8spodlogreceiver.Cursor.Store.Persistence.{readable, answer, RoundTrips, DecodesToMaps}
use k8spodlogreceiver.Receiver.{advance_cursor, cursor_for, Receiver, new_receiver}
use k8spodlogreceiver.System.{
  restarts, flushes, still, tells, tells, gets_on, opens, then_moves, steps, Runs, Move, now_at,
  new_life, Other, with_storage, Step, new_container_stream, failure, GetsOn, Cursor, Pod, Host,
  Live, Line, Config, System,
}
use k8spodlogreceiver.Cursor.Store.{Read, value, Cursors}
use mathlib.Core.Path.{subst}
use k8spodlogreceiver.Cursor.Store

-- A system that has not run yet: nothing is stored.
abbrev pub idle : System
idle = record { receiver = new_receiver true; streams = []; earlier = []; disk = value [] }

module _ (encode : Cursors → Option Bytes) (decode : Bytes → Option Cursors) (cfg : Config)
    (id key : Bytes) (log : List Line) where
  -- The position of the container that the storage holds.
  abbrev pub held_position : Read → Cursor
  held_position disk = Store.cursor_at key (readable decode true disk)

  -- The position stands after the first lines `read` of the log, each of which some stream has
  -- brought in.
  pub record CameIn (streams : List Live) (c : Cursor) : Type 0 where
    pub read : List Line
    pub tail : List Line
    pub cut : read ++ tail ≡ log
    pub stands : Stands c read
    pub all_came : (i : ℕ) → i < length read → Any (Brought log i) streams

  pub record Sound (sys : System) : Type 0 where
    pub position : Behind log (sys.streams ++ sys.earlier) (cursor_for sys.receiver key)
    pub held : Behind log (sys.streams ++ sys.earlier) (held_position sys.disk)
    pub lived : All (Lived log (sys.streams ++ sys.earlier)) sys.streams

  pub Sound-idle : Sound idle
  unfolding new_receiver cursor_for Store.new_store Store.get
  Sound-idle = record { position = Behind-zero log []; held = Behind-zero log []; lived = tt }

  Sound-steps :
      (sys : System) {r : Receiver} (st : Step sys.receiver r)
      → Other key st
      → Sound sys
      → Sound (record sys { receiver = r })
  Sound-steps sys {r} st o s = record {
    position = elim (position-Step key st o) [
      | inl e ↦ subst (Behind log (sys.streams ++ sys.earlier)) (sym e) (Behind-zero log _)
      | inr e ↦ subst (Behind log (sys.streams ++ sys.earlier)) (sym e) s.position
    ];
    held = s.held;
    lived = s.lived;
  }

  Sound-Grows :
      (sys : System) (streams : List Live)
      → Grows log (sys.streams ++ sys.earlier) (streams ++ sys.earlier)
      → All (Lived log (streams ++ sys.earlier)) streams
      → Sound sys
      → Sound (record sys { streams = streams })
  Sound-Grows sys streams g l s = record {
    position = Behind-Grows log _ _ _ g s.position;
    held = Behind-Grows log _ _ _ g s.held;
    lived = l;
  }

  Sound-opens :
      (sys : System) (pod : Pod) (name : Bytes) (gen : ℕ)
      → Sound sys
      → Sound (record sys {
        streams =
            record {
              gen = gen;
              first = new_container_stream cfg sys.receiver pod name key;
              met = [];
            }
            ∷ sys.streams;
      })
  Sound-opens sys pod name gen s =
      let all = sys.streams ++ sys.earlier in
      let l : Live = record {
        gen = gen;
        first = new_container_stream cfg sys.receiver pod name key;
        met = [];
      } in
      Sound-Grows sys (l ∷ sys.streams) (λ i h. inr h)
        (
          Lived-new log (l ∷ all) cfg sys.receiver pod name key gen
              (Behind-Grows log all (l ∷ all) _ (λ i h. inr h) s.position),
          Lived-Grows log all (l ∷ all) sys.streams (λ i h. inr h) s.lived,
        )
        s

  Sound-GetsOn :
      (sys : System) {ls : List Live}
      → GetsOn log sys.streams ls
      → Sound sys
      → Sound (record sys { streams = ls })
  Sound-GetsOn sys {ls} g s =
      let more = Grows-earlier log sys.streams ls sys.earlier (Grows-GetsOn log g) in
      Sound-Grows sys ls more
        (Lived-GetsOn log (ls ++ sys.earlier) g (Lived-Grows log _ _ sys.streams more s.lived)) s

  Sound-flushes :
      (sys : System)
      → DecodesToMaps decode
      → sys.receiver.cursors.has_client ≡ true
      → RoundTrips encode decode sys.receiver.cursors.cursors
      → Sound sys
      → Sound (record sys { disk = answer (Store.flush encode sys.receiver.cursors) })
  unfolding cursor_for
  Sound-flushes sys d c t s = record {
    position = s.position;
    held =
        subst (Behind log (sys.streams ++ sys.earlier))
          (sym (cursor_at-flush encode decode sys.receiver.cursors key c d t)) s.position;
    lived = s.lived;
  }

  Sound-restarts :
      (sys : System) (host : Host)
      → cfg.storage_id ≡ some id
      → DecodesToMaps decode
      → failure cfg (with_storage id sys.disk host) ≡ none
      → Sound sys
      → Sound (record {
        receiver = new_life encode decode cfg id key log sys host;
        streams = [];
        earlier = sys.streams ++ sys.earlier;
        disk = sys.disk;
      })
  Sound-restarts sys host i d f s = record {
    position =
        subst (Behind log (sys.streams ++ sys.earlier))
          (sym (position_in_new_life decode cfg id key sys.disk host i d f)) s.held;
    held = s.held;
    lived = tt;
  }

  module _ (i : cfg.storage_id ≡ some id) (d : DecodesToMaps decode) (timed : All Timed log)
      (ascending : Ascending log) (short : length log < max_int) where
    Sound-tells :
        (sys : System) (gen : ℕ) (c : Cursor)
        → Any (λ l. (l.gen ≡ gen) × Any (λ d. d ≡ c) (now_at l).reports) sys.streams
        → Sound sys
        → Sound (record sys { receiver = advance_cursor sys.receiver key gen c })
    Sound-tells sys gen c q s = record {
      position = elim (position-advance_cursor key sys.receiver gen c) [
        | inl e ↦ subst (Behind log (sys.streams ++ sys.earlier)) (sym e) s.position
        | inr (z, e) ↦
            subst (Behind log (sys.streams ++ sys.earlier)) (sym e)
              (Behind-report log timed ascending short sys.streams sys.earlier gen c z s.lived q)
      ];
      held = s.held;
      lived = s.lived;
    }

    Sound-Move : {sys t : System} → Move encode decode cfg id key log sys t → Sound sys → Sound t
    Sound-Move {sys} (steps st o) s = Sound-steps sys st o s
    Sound-Move {sys} (opens pod name gen k) s = Sound-opens sys pod name gen s
    Sound-Move {sys} (gets_on g) s = Sound-GetsOn sys g s
    Sound-Move {sys} (tells gen c q) s = Sound-tells sys gen c q s
    Sound-Move {sys} (flushes c t) s = Sound-flushes sys d c t s
    Sound-Move {sys} (restarts host f) s = Sound-restarts sys host i d f s

    pub Sound-Runs :
        {sys t : System} → Runs encode decode cfg id key log sys t → Sound sys → Sound t
    Sound-Runs still s = s
    Sound-Runs (then_moves r m) s = Sound-Move m (Sound-Runs r s)

    CameIn-Behind : (ls : List Live) (c : Cursor) → Behind log ls c → CameIn ls c
    CameIn-Behind ls c b = record {
      read = b.read;
      tail = b.tail;
      cut = b.cut;
      stands = b.stands;
      all_came = λ i h. Any-Brought log timed ascending short i ls (b.all_bring i h);
    }

    -- A container's log of fewer than 2^63 - 1 lines, all with timestamps, which never decrease, a storage
    -- that is configured, a decoder that yields no key twice, and flushes whose text reads back as what
    -- was written. From an empty storage on, let anything happen in any order and at any moment:
    -- collectors start without an error, take every other container's pod events, deletions,
    -- re-lists, prunes, reports and cleanups, with fewer than 2^64 streams in each, flush now and then,
    -- and are killed or shut down; the container's streams, one or several at once, start where the
    -- position stands, fail to connect, get parts of the log as `Stream.Delivery.run-Exact` says, have
    -- batches refused, break off, and have any of their reports arrive at any time, late or again.
    -- Always both the position in memory and the one in the storage stand after some first part of the
    -- log, each line of which some stream has brought in: whoever resumes there skips no line that
    -- was not delivered or refused for good.
    pub Runs-CameIn :
        (sys : System)
        → Runs encode decode cfg id key log idle sys
        → CameIn (sys.streams ++ sys.earlier) (cursor_for sys.receiver key)
          × CameIn (sys.streams ++ sys.earlier) (held_position sys.disk)
    Runs-CameIn sys r =
        let s = Sound-Runs r Sound-idle in (CameIn-Behind _ _ s.position, CameIn-Behind _ _ s.held)
