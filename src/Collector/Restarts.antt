-- ===== src/Collector/Restarts.antt =====
-- What the pipeline gets of one container over any number of restarts of the collector.
use k8spodlogreceiver.Prelude.{
  ◌+◌, ◌<◌, ◌≡◌, refl, sym, ap, ◌∙◌, true, Option, none, some, List, [], ◌∷◌, ◌++◌, map, is_some,
  length, All, Bytes, bytes_eq,
}
use k8spodlogreceiver.Lifecycle.Restart.{cursor_at-flush}
use k8spodlogreceiver.Container.Handover.{stream_container_logs-Continued, Continued}
use k8spodlogreceiver.Receiver.Positions.{cursor_for-on_pod_added, has_client-on_pod_added}
use k8spodlogreceiver.Lifecycle.Starting.{start-Started, Started}
use k8spodlogreceiver.Receiver.{cursor_for}
use k8spodlogreceiver.Container.{new_container_stream}
use k8spodlogreceiver.Stream.Delivery.{ServedRounds}
use k8spodlogreceiver.Prelude.Int.{max_int}
use k8spodlogreceiver.Cursor.Serving.{Ascending, Timed}
use k8spodlogreceiver.Cursor.Store.Persistence.{RoundTrips, DecodesToMaps, readable}
use k8spodlogreceiver.Cursor.Counting.{Stands}
use k8spodlogreceiver.Connection.Tracks.{body_of}
use k8spodlogreceiver.Collector.{
  Receiver, generation, streamed, accepted_bodies, with_pod, with_storage, key_of, stored_by, Life,
  lives,
}
use k8spodlogreceiver.Logline.Line.{Line}
use k8spodlogreceiver.Config.{Config}
use k8spodlogreceiver.Cursor.Store.{Read, Cursors}
use mathlib.Core.Path.{subst, ap₂}
use mathlib.Core.List.{append-nil, append_assoc, map-append}
use k8spodlogreceiver.Prelude.Maps.{has}
use k8spodlogreceiver.Cursor.Store
use k8spodlogreceiver.Container.{stream_container_logs}
use k8spodlogreceiver.Lifecycle.{start, shutdown, new_process, wind_down}
use k8spodlogreceiver.Lifecycle.Failures.{failure, held}
use k8spodlogreceiver.Collector.Persisting.{
  held_in-with_storage, not_live, owns-generation, has_client-stream_container_logs,
}

module _ (encode : Cursors → Option Bytes) (decode : Bytes → Option Cursors) (cfg : Config)
    (id name key : Bytes) (log : List Line) where
  -- The stored position of the container stands after the first lines `read` of its log.
  pub record Held (read : List Line) (stored : Read) : Type 0 where
    pub tail : List Line
    pub cut : read ++ tail ≡ log
    pub stands : Stands (Store.cursor_at key (readable decode true stored)) read

  -- A life in which the collector starts without an error, the pod's addition starts the container's
  -- stream, the API server answers as `Stream.Delivery.ServedRounds` says, and what is written
  -- reads back as the same map.
  pub record Undisturbed (stored : Read) (l : Life) : Type 0 where
    pub same_container : key_of l.pod name ≡ key
    pub starts : failure cfg (with_storage id stored l.host) ≡ none
    pub streams : has key (with_pod decode cfg id stored l).active_streams ≡ true
    pub served :
        ServedRounds log
          (record (new_container_stream cfg (with_pod decode cfg id stored l) l.pod name key) {
            backoff = cfg.reconnect_backoff.initial_interval;
          })
          l.rounds
    pub written : RoundTrips encode decode (streamed decode cfg id name stored l).1.cursors.cursors

  abbrev pub UndisturbedLives : Read → List Life → Type 0
  UndisturbedLives stored [] = Unit
  UndisturbedLives stored (l ∷ ls) =
      Undisturbed stored l × UndisturbedLives (stored_by encode decode cfg id name stored l) ls

  -- The bodies are those of the lines that come behind `read`, and the storage's position stands
  -- after them.
  pub record Delivered (read : List Line) (bodies : List Bytes) (stored : Read) : Type 0 where
    pub more : List Line
    pub bodies_are : bodies ≡ map body_of more
    pub held_after : Held (read ++ more) stored

  started :
      (stored : Read) (l : Life)
      → DecodesToMaps decode
      → let (p, e) = start decode cfg (with_storage id stored l.host) new_process in
        Started decode cfg (with_storage id stored l.host) new_process p e
  started stored l d =
      start-Started decode cfg (with_storage id stored l.host) new_process not_live d

  pub position_before :
      (stored : Read) (l : Life)
      → cfg.storage_id ≡ some id
      → DecodesToMaps decode
      → Undisturbed stored l
      → cursor_for (with_pod decode cfg id stored l) key
        ≡ Store.cursor_at key (readable decode true stored)
  unfolding with_pod
  position_before stored l i d u =
      cursor_for-on_pod_added _ l.pod l.now key
      ∙ (started stored l d).positions key ((started stored l d).outcome.fails ∙ u.starts)
      ∙ ap (λ h. Store.cursor_at key (held decode h)) (held_in-with_storage cfg id stored l.host i)

  pub streamed-key :
      (stored : Read) (l : Life)
      → Undisturbed stored l
      → let r = with_pod decode cfg id stored l in
        streamed decode cfg id name stored l
        ≡ stream_container_logs cfg r l.pod name key (generation r key) l.rounds
  unfolding streamed
  streamed-key stored l u =
      ap
        (λ k.
          let r = with_pod decode cfg id stored l in
          stream_container_logs cfg r l.pod name k (generation r k) l.rounds)
        u.same_container

  has_client-streamed :
      (stored : Read) (l : Life)
      → cfg.storage_id ≡ some id
      → DecodesToMaps decode
      → Undisturbed stored l
      → (streamed decode cfg id name stored l).1.cursors.has_client ≡ true
  unfolding streamed with_pod Store.persists
  has_client-streamed stored l i d u =
      has_client-stream_container_logs cfg _ l.pod name _ _ l.rounds
      ∙ has_client-on_pod_added _ l.pod l.now
      ∙ (unfold Store.persists in
          (started stored l d).persists_if ((started stored l d).outcome.fails ∙ u.starts))
      ∙ ap is_some i

  pub one_life :
      (stored : Read) (l : Life) (read : List Line)
      → cfg.storage_id ≡ some id
      → DecodesToMaps decode
      → All Timed log
      → Ascending log
      → length log + length log < max_int
      → Undisturbed stored l
      → Held read stored
      → Delivered read
          (accepted_bodies (streamed decode cfg id name stored l).0.sent)
          (stored_by encode decode cfg id name stored l)
  unfolding stored_by shutdown wind_down
  one_life stored l read i d t a n u h = record {
    more = c.more;
    bodies_are = c.accepted_are;
    held_after = record {
      tail = c.stored.tail;
      cut = c.stored.cut;
      stands =
          subst (λ x. Stands x (read ++ c.more))
            (sym (
              cursor_at-flush encode decode (streamed decode cfg id name stored l).1.cursors key
                (has_client-streamed stored l i d u) d u.written))
            (unfold cursor_for in c.stored.stands);
    };
  }
    where
      r : Receiver
      r = with_pod decode cfg id stored l

      c : let (s, r') = streamed decode cfg id name stored l in Continued log read key s r'
      c =
          subst (λ x. Continued log read key x.0 x.1) (sym (streamed-key stored l u))
            (stream_container_logs-Continued log read cfg r l.pod name key (generation r key)
              l.rounds t a n u.served (owns-generation r key u.streams)
              (record {
                tail = h.tail;
                cut = h.cut;
                stands = subst (λ x. Stands x read) (sym (position_before stored l i d u)) h.stands;
              }))

  joined :
      (read : List Line) (xs ys : List Bytes) (stored end : Read) (x : Delivered read xs stored)
      → Delivered (read ++ x.more) ys end
      → Delivered read (xs ++ ys) end
  joined read xs ys stored end x y = record {
    more = x.more ++ y.more;
    bodies_are =
        ap₂ (λ us vs. us ++ vs) x.bodies_are y.bodies_are ∙ sym (map-append body_of x.more y.more);
    held_after = subst (λ ls. Held ls end) (append_assoc read x.more y.more) y.held_after;
  }

  -- With a storage configured: a container's log of fewer than 2^62 - 1 lines, all with timestamps,
  -- which never decrease, of which the stored position stands after the lines `read`, and any number
  -- of lives of the collector. In each, Start gives no error on what the one before wrote at its
  -- shutdown, the pod's addition starts the container's stream, the API server answers as for
  -- `Stream.Delivery.run-Exact`, and the written text reads back as the same map. Over all of them
  -- together the pipeline gets exactly the lines that come next, each once and in order, and the
  -- storage ends up with the position behind them.
  pub lives-Delivered :
      (ls : List Life) (stored : Read) (read : List Line)
      → cfg.storage_id ≡ some id
      → DecodesToMaps decode
      → All Timed log
      → Ascending log
      → length log + length log < max_int
      → UndisturbedLives stored ls
      → Held read stored
      → let (bodies, end) = lives encode decode cfg id name stored ls in Delivered read bodies end
  unfolding lives
  lives-Delivered [] stored read i d t a n u h = record {
    more = [];
    bodies_are = refl;
    held_after = subst (λ xs. Held xs stored) (sym (append-nil read)) h;
  }
  lives-Delivered (l ∷ ls) stored read i d t a n u h =
      joined read _ _ _ _ (one_life stored l read i d t a n u.0 h) (
        lives-Delivered ls (stored_by encode decode cfg id name stored l)
          (read ++ (one_life stored l read i d t a n u.0 h).more) i d t a n u.1
          (one_life stored l read i d t a n u.0 h).held_after)
