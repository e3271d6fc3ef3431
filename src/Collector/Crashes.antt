-- ===== src/Collector/Crashes.antt =====
-- What the pipeline gets of one container when the collector is killed again and again.
use k8spodlogreceiver.Prelude.{
  longer_prefix, length-map, drop-length-append, ◌+◌, ◌≤◌, ◌<◌, ◌≡◌, refl, sym, ap, ◌∙◌, Option,
  some, List, [], ◌∷◌, ◌++◌, map, arith, length, drop, All, Bytes, bytes_eq,
}
use k8spodlogreceiver.Prelude.Int.{max_int}
use k8spodlogreceiver.Cursor.Serving.{Ascending, Timed}
use k8spodlogreceiver.Connection.Tracks.{body_of}
use k8spodlogreceiver.Cursor.Store.Persistence.{DecodesToMaps}
use k8spodlogreceiver.Stream.Delivery.{ServedRounds}
use k8spodlogreceiver.Logline.Line.{Line}
use mathlib.Core.Path.{subst}
use mathlib.Core.List.{append_assoc}
use k8spodlogreceiver.Stream.{run}
use k8spodlogreceiver.Container.{stream_container_logs, new_container_stream}
use k8spodlogreceiver.Lifecycle.{shutdown, wind_down}
use k8spodlogreceiver.Stream.Rising.{Leads}
use k8spodlogreceiver.Stream.{Stream, Round}
use k8spodlogreceiver.Receiver.{cursor_for}
use k8spodlogreceiver.Cursor.Counting.{Stands}
use k8spodlogreceiver.Collector.{
  accepted_bodies, new_container_stream, Round, Read, Config, Cursors, stored_by, streamed,
  flushed_by, brought_in, crashes, with_pod, Life,
}
use k8spodlogreceiver.Collector.Restarts.{
  Held, Undisturbed, Delivered, one_life, position_before, streamed-key,
}
use k8spodlogreceiver.Container.Handover.{container-Leads}
use k8spodlogreceiver.Stream.Growing.{Later, taken-Later}

module _ (encode : Cursors → Option Bytes) (decode : Bytes → Option Cursors) (cfg : Config)
    (id name key : Bytes) (log : List Line) where
  -- A life that is undisturbed up to its last flush, at any moment, and in which the API server
  -- answers in the same way until the collector is killed; `whole` is all that the stream meets.
  pub record Killed (stored : Read) (l : Life) (whole : List Round) : Type 0 where
    pub goes_on_to : Later l.rounds whole
    pub until_flush : Undisturbed encode decode cfg id name key log stored l
    pub served :
        ServedRounds log
          (record (new_container_stream cfg (with_pod decode cfg id stored l) l.pod name key) {
            backoff = cfg.reconnect_backoff.initial_interval;
          })
          whole

  abbrev pub KilledLives : Read → List (Life × List Round) → Type 0
  KilledLives stored [] = Unit
  KilledLives stored ((l, whole) ∷ ls) =
      Killed stored l whole × KilledLives (flushed_by encode decode cfg id name stored l) ls

  -- A life has brought in the lines `more ++ again`, which come behind `read`, and the storage's
  -- position stands after `more`.
  pub record Crashed (read : List Line) (bodies : List Bytes) (stored : Read) : Type 0 where
    pub more : List Line
    pub again : List Line
    pub tail : List Line
    pub cut : (read ++ more) ++ (again ++ tail) ≡ log
    pub bodies_are : bodies ≡ map body_of (more ++ again)
    pub held_after : Held encode decode cfg id name key log (read ++ more) stored

  -- Each life starts where the storage's position stood at the end of the one before.
  pub data Covered : List Line → List (List Bytes) → Read → Type 0 where
    done :
        {read : List Line} {end : Read}
        → Held encode decode cfg id name key log read end
        → Covered read [] end
    life :
        {read : List Line} {bodies : List Bytes} {rest : List (List Bytes)} {stored end : Read}
        (c : Crashed read bodies stored)
        → Covered (read ++ c.more) rest end
        → Covered read (bodies ∷ rest) end

  brought_in-key :
      (stored : Read) (l : Life) (whole : List Round)
      → Undisturbed encode decode cfg id name key log stored l
      → brought_in decode cfg id name stored l whole
        ≡ accepted_bodies
            (run
              (new_container_stream cfg (with_pod decode cfg id stored l) l.pod name key)
              whole).0.sent
  unfolding brought_in
  brought_in-key stored l whole u =
      ap
        (λ k.
          accepted_bodies
            (run (new_container_stream cfg (with_pod decode cfg id stored l) l.pod name k)
              whole).0.sent)
        u.same_container

  until_flush-key :
      (stored : Read) (l : Life)
      → Undisturbed encode decode cfg id name key log stored l
      → accepted_bodies (streamed decode cfg id name stored l).0.sent
        ≡ accepted_bodies
            (run
              (new_container_stream cfg (with_pod decode cfg id stored l) l.pod name key)
              l.rounds).0.sent
  unfolding stream_container_logs
  until_flush-key stored l u =
      ap (λ x. accepted_bodies x.0.sent) (streamed-key encode decode cfg id name key log stored l u)

  flushed-stored :
      (stored : Read) (l : Life)
      → stored_by encode decode cfg id name stored l ≡ flushed_by encode decode cfg id name stored l
  unfolding stored_by flushed_by shutdown wind_down
  flushed-stored stored l = refl

  one_crash :
      (stored : Read) (l : Life) (whole : List Round) (read : List Line)
      → cfg.storage_id ≡ some id
      → DecodesToMaps decode
      → All Timed log
      → Ascending log
      → length log + length log < max_int
      → Killed stored l whole
      → Held encode decode cfg id name key log read stored
      → Crashed read
          (brought_in decode cfg id name stored l whole)
          (flushed_by encode decode cfg id name stored l)
  one_crash stored l whole read i d t a n u h = record {
    more = saved.more;
    again = again;
    tail = until_killed.exact.tail;
    cut =
        append_assoc read saved.more (again ++ until_killed.exact.tail)
        ∙ ap (λ xs. read ++ xs) (sym (append_assoc saved.more again until_killed.exact.tail))
        ∙ ap (λ xs. read ++ (xs ++ until_killed.exact.tail)) goes_on
        ∙ until_killed.exact.cut;
    bodies_are =
        brought_in-key stored l whole u.until_flush
        ∙ until_killed.exact.accepted_are
        ∙ ap (map body_of) (sym goes_on);
    held_after =
        subst (Held encode decode cfg id name key log (read ++ saved.more))
          (flushed-stored stored l) saved.held_after;
  }
    where
      s : Stream
      s = new_container_stream cfg (with_pod decode cfg id stored l) l.pod name key

      saved :
          Delivered encode decode cfg id name key log read
            (accepted_bodies (streamed decode cfg id name stored l).0.sent)
            (stored_by encode decode cfg id name stored l)
      saved = one_life encode decode cfg id name key log stored l read i d t a n u.until_flush h

      until_killed :
          Leads log read (cursor_for (with_pod decode cfg id stored l) key) (run s whole).0
      until_killed =
          container-Leads log read cfg (with_pod decode cfg id stored l) l.pod name key whole t a n
            u.served
            (record {
              tail = h.tail;
              cut = h.cut;
              stands =
                  subst (λ x. Stands x read)
                    (sym (
                      position_before encode decode cfg id name key log stored l i d u.until_flush))
                    h.stands;
            })

      again : List Line
      again = drop (length saved.more) until_killed.exact.read

      same_log :
          saved.more ++ saved.held_after.tail ≡ until_killed.exact.read ++ until_killed.exact.tail
      same_log =
          sym (drop-length-append read (saved.more ++ saved.held_after.tail))
          ∙ ap (drop (length read)) (
              sym (append_assoc read saved.more saved.held_after.tail)
              ∙ saved.held_after.cut
              ∙ sym until_killed.exact.cut)
          ∙ drop-length-append read (until_killed.exact.read ++ until_killed.exact.tail)

      no_more : length saved.more ≤ length until_killed.exact.read
      no_more = omega (
        arith,
        length-map body_of saved.more,
        length-map body_of until_killed.exact.read,
        ap length saved.bodies_are,
        ap length (until_flush-key stored l u.until_flush),
        ap length until_killed.exact.accepted_are,
        taken-Later u.goes_on_to s,
      )

      goes_on : saved.more ++ again ≡ until_killed.exact.read
      goes_on =
          longer_prefix saved.more saved.held_after.tail until_killed.exact.read
            until_killed.exact.tail same_log no_more

  -- With a storage configured: a container's log and a stored position as for
  -- `Collector.Restarts.lives-Delivered`, and any number of lives of the collector that start as
  -- there, but are each killed, at any moment behind a flush that was written at any moment, in the
  -- midst of a connection too. Every life brings in, each once and in order, lines that come right
  -- behind the position that the storage held when it started, at least up to the position of the
  -- flush, where the next life starts: lines behind a flush come again, and none is left out.
  pub crashes-Covered :
      (ls : List (Life × List Round)) (stored : Read) (read : List Line)
      → cfg.storage_id ≡ some id
      → DecodesToMaps decode
      → All Timed log
      → Ascending log
      → length log + length log < max_int
      → KilledLives stored ls
      → Held encode decode cfg id name key log read stored
      → let (bodies, end) = crashes encode decode cfg id name stored ls in Covered read bodies end
  unfolding crashes
  crashes-Covered [] stored read i d t a n u h = done h
  crashes-Covered ((l, whole) ∷ ls) stored read i d t a n u h =
      let c = one_crash stored l whole read i d t a n u.0 h in
      life c (
        crashes-Covered ls (flushed_by encode decode cfg id name stored l) (read ++ c.more) i d t a
          n u.1 c.held_after)
