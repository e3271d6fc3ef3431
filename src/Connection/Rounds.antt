-- ===== src/Connection/Rounds.antt =====
-- What one round of the loop does to the lines that it holds.
use k8spodlogreceiver.Prelude.{
  ℕ, ◌≡◌, refl, sym, ap, ◌≢◌, ◌⊎◌, inl, inr, Bool, true, false, List, [], ◌∷◌, ◌++◌, arith, leb,
  if◌then◌else◌, Bool-cases, bytes_eq,
}
use k8spodlogreceiver.Cursor.Filter.{keep_all}
use mathlib.Core.List.{append-nil, append_assoc}
use k8spodlogreceiver.Instant.{Instant}
use k8spodlogreceiver.Logline.Line.{Line}
use k8spodlogreceiver.Logline.Batch.{Meta, Batch}
use k8spodlogreceiver.Cursor.{Cursor}
use k8spodlogreceiver.Connection.{
  Filter, keep, Conn, Consumed, Event, line, closed, tick, Status, running, pipeline_refused,
  read_failed, at_eof, flush, append_line, append_kept, or_refused, step,
}
use k8spodlogreceiver.Connection.Tracks.{
  FlushLeaves-flush, Tracks-append_line, FlushLeaves, Tracks, Lost,
}

-- The lines that reach the loop before the channel's end.
abbrev pub lines_of : List Event → List Line
lines_of [] = []
lines_of (line l now ∷ es) = l ∷ lines_of es
lines_of (closed failed ∷ es) = []
lines_of (tick ∷ es) = lines_of es

-- What holds of a connection that has forwarded part of the lines `total`, by how it ended.
abbrev pub Ends : Cursor → Conn → Status → List Line → Type 0
Ends resume s running total =
    (done : List Line) × (held : List Line) × Tracks resume s done held × (done ++ held ≡ total)
Ends resume s pipeline_refused total =
    (done : List Line) × (lost : List Line) × (rest : List Line) × Lost resume s done lost
    × (done ++ (lost ++ rest) ≡ total)
Ends resume s read_failed total = Tracks resume s total []
Ends resume s at_eof total = Tracks resume s total []

module _ (pipeline : ℕ → Batch → Consumed) (max_batch : ℕ) (m : Meta) (resume : Cursor) where
  -- After a round: the connection goes on having sent or holding `now`, or it has ended.
  abbrev pub After : Conn → Status → List Line → List Line → Type 0
  After s running now ahead =
      (done : List Line) × (held : List Line) × Tracks resume s done held × (done ++ held ≡ now)
  After s st now ahead = Ends resume s st (now ++ ahead)

  After-flush :
      (r : Bool × Conn) (done held ahead : List Line)
      → FlushLeaves pipeline max_batch m resume r done held
      → After (or_refused running r).0 (or_refused running r).1 (done ++ held) ahead
  After-flush (true, s) done held ahead t = (done ++ held, [], t, append-nil (done ++ held))
  After-flush (false, s) done held ahead t =
      (done, held, ahead, t, sym (append_assoc done held ahead))

  After-close :
      (st : Status) (r : Bool × Conn) (done held : List Line)
      → (st ≡ read_failed) ⊎ (st ≡ at_eof)
      → FlushLeaves pipeline max_batch m resume r done held
      → After (or_refused st r).0 (or_refused st r).1 (done ++ held) []
  After-close read_failed (true, s) done held c t = rw append-nil t
  After-close at_eof (true, s) done held c t = rw append-nil t
  After-close running (true, s) done held c t = absurd (ground arith)
  After-close pipeline_refused (true, s) done held c t = absurd (ground arith)
  After-close st (false, s) done held c t = (done, held, [], t, sym (append_assoc done held []))

  After-append_kept :
      (s : Conn) (done held ahead : List Line) (l : Line) (now : Instant)
      → Tracks resume s done held
      → After
          (append_kept pipeline max_batch m s l now).0
          (append_kept pipeline max_batch m s l now).1
          (done ++ (held ++ l ∷ []))
          ahead
  unfolding append_kept
  After-append_kept s done held ahead l now t =
      let s' = append_line pipeline max_batch m s l now in
      let t' = Tracks-append_line pipeline max_batch m resume s done held l now t in
      elim (Bool-cases (leb max_batch s'.batch.count)) [
        | inl e ↦
            rw (e, append_kept)
              (After-flush (flush pipeline max_batch m s') done (held ++ l ∷ []) ahead
                (FlushLeaves-flush pipeline max_batch m resume s' done (held ++ l ∷ []) t'))
        | inr e ↦ rw (e, append_kept) (done, held ++ l ∷ [], t', refl)
      ]

  filter-flush : (s : Conn) → (flush pipeline max_batch m s).1.filter ≡ s.filter
  unfolding flush
  filter-flush s = ground arith

  filter-append_kept :
      (s : Conn) (l : Line) (now : Instant)
      → (append_kept pipeline max_batch m s l now).0.filter ≡ s.filter
  unfolding append_kept append_line
  filter-append_kept s l now =
      ground (arith, filter-flush (append_line pipeline max_batch m s l now))

  -- The lines that a round adds to those forwarded.
  abbrev pub taken : Conn → Line → List Line
  taken s l = if (keep s.filter l.timestamp).0 then l ∷ [] else []

  Tracks-filter :
      (s : Conn) (f : Filter) (done held : List Line)
      → Tracks resume s done held
      → Tracks resume (record s { filter = f }) done held
  Tracks-filter s f done held t = record {
    sent_are = t.sent_are;
    accepted_are = t.accepted_are;
    batch_are = t.batch_are;
    counted = t.counted;
    pending_is = t.pending_is;
    still = t.still;
    moved = t.moved;
    resumed = t.resumed;
  }

  pub After-line :
      (s : Conn) (l : Line) (now : Instant) (done held ahead : List Line)
      → Tracks resume s done held
      → After
          (step pipeline max_batch m s (line l now)).0
          (step pipeline max_batch m s (line l now)).1
          (done ++ (held ++ taken s l))
          ahead
  unfolding step
  After-line s l now done held ahead t =
      let f = (keep s.filter l.timestamp).1 in
      elim (Bool-cases (keep s.filter l.timestamp).0) [
        | inl e ↦
            rw (e, step)
              (After-append_kept (record s { filter = f }) done held ahead l now
                (Tracks-filter s f done held t))
        | inr e ↦
            rw (e, step)
              (
                done,
                held,
                Tracks-filter s f done held t,
                ap (λ xs. done ++ xs) (sym (append-nil held)),
              )
      ]

  pub filter-line :
      (s : Conn) (l : Line) (now : Instant)
      → (step pipeline max_batch m s (line l now)).0.filter ≡ (keep s.filter l.timestamp).1
  unfolding step
  filter-line s l now =
      ground (arith, filter-append_kept (record s { filter = (keep s.filter l.timestamp).1 }) l now)

  pub keep_all-taken :
      (s : Conn) (l : Line) (ls : List Line)
      → keep_all s.filter (l ∷ ls) ≡ taken s l ++ keep_all (keep s.filter l.timestamp).1 ls
  unfolding keep_all
  keep_all-taken s l ls = ground arith

  pub After-tick :
      (s : Conn) (done held ahead : List Line)
      → Tracks resume s done held
      → After
          (step pipeline max_batch m s tick).0
          (step pipeline max_batch m s tick).1
          (done ++ held)
          ahead
  unfolding step
  After-tick s done held ahead t =
      After-flush (flush pipeline max_batch m s) done held ahead
        (FlushLeaves-flush pipeline max_batch m resume s done held t)

  pub filter-tick : (s : Conn) → (step pipeline max_batch m s tick).0.filter ≡ s.filter
  unfolding step
  filter-tick s = filter-flush s

  pub After-closed :
      (s : Conn) (failed : Bool) (done held : List Line)
      → Tracks resume s done held
      → After
          (step pipeline max_batch m s (closed failed)).0
          (step pipeline max_batch m s (closed failed)).1
          (done ++ held)
          []
  unfolding step
  After-closed s true done held t =
      After-close read_failed (flush pipeline max_batch m s) done held (inl refl)
        (FlushLeaves-flush pipeline max_batch m resume s done held t)
  After-closed s false done held t =
      After-close at_eof (flush pipeline max_batch m s) done held (inr refl)
        (FlushLeaves-flush pipeline max_batch m resume s done held t)

  -- The channel's end ends the loop.
  pub closed_returns :
      (s : Conn) (failed : Bool) → (step pipeline max_batch m s (closed failed)).1 ≢ running
  unfolding step
  closed_returns s failed = ground arith
