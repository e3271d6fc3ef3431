-- ===== src/Connection/Reports.antt =====
-- The positions that a connection reports while it runs.
use k8spodlogreceiver.Prelude.{
  ℕ, ◌≡◌, refl, inl, inr, true, false, List, [], ◌∷◌, ◌++◌, arith, leb, ◌==◌, Bool-cases, bytes_eq,
}
use k8spodlogreceiver.Instant.{Instant}
use k8spodlogreceiver.Logline.Line.{Line}
use k8spodlogreceiver.Logline.Batch.{Meta, Batch}
use k8spodlogreceiver.Cursor.{Cursor, is_zero, record_line}
use k8spodlogreceiver.Cursor.Filter.{keep}
use k8spodlogreceiver.Connection.{
  Conn, Consumed, Outcome, Event, line, closed, tick, Status, running, pipeline_refused,
  read_failed, at_eof, open_connection, flushed, flush, append_line, append_kept, step, loop,
  stream_connection,
}
use k8spodlogreceiver.Connection.Tracks.{next_resume}

-- The last of the cursors, `c` where there is none.
abbrev pub last_from : Cursor → List Cursor → Cursor
last_from c [] = c
last_from c (d ∷ ds) = last_from d ds

pub last_from-append :
    (c : Cursor) (xs ys : List Cursor) → last_from c (xs ++ ys) ≡ last_from (last_from c xs) ys
last_from-append c [] ys = refl
last_from-append c (x ∷ xs) ys = last_from-append x xs ys

-- What was reported last is what the stream will take over.
pub record Reported (c : Cursor) (s : Conn) : Type 0 where
  pub published : last_from c s.progress ≡ next_resume c s
  pub placed : s.batch_advanced ≡ true → is_zero s.pending ≡ false

module _ (pipeline : ℕ → Batch → Consumed) (max_batch : ℕ) (m : Meta) (c : Cursor) where
  pub Reported-flushed :
      (s : Conn) (o : Outcome) → Reported c s → Reported c (flushed pipeline max_batch m s o).1
  unfolding flushed
  Reported-flushed s o r = record {
    published =
        ground (arith, r.published, r.placed, last_from-append c s.progress (s.pending ∷ []));
    placed = λ h. absurd (ground (arith, h));
  }

  pub Reported-flush : (s : Conn) → Reported c s → Reported c (flush pipeline max_batch m s).1
  unfolding flush
  Reported-flush s r = elim (Bool-cases (s.batch.count == 0)) [
    | inl e ↦ rw (e, flush) r
    | inr e ↦ rw (e, flush) (Reported-flushed s _ r)
  ]

  pub Reported-append_line :
      (s : Conn) (l : Line) (now : Instant)
      → Reported c s
      → Reported c (append_line pipeline max_batch m s l now)
  unfolding append_line record_line
  Reported-append_line s l now r = record {
    published = r.published;
    placed = λ h. ground (arith, h, r.placed);
  }

  pub Reported-append_kept :
      (s : Conn) (l : Line) (now : Instant)
      → Reported c s
      → Reported c (append_kept pipeline max_batch m s l now).0
  unfolding append_kept
  Reported-append_kept s l now r =
      elim (Bool-cases (leb max_batch (append_line pipeline max_batch m s l now).batch.count)) [
        | inl e ↦ rw (e, append_kept) (Reported-flush _ (Reported-append_line s l now r))
        | inr e ↦ rw (e, append_kept) (Reported-append_line s l now r)
      ]

  pub Reported-step :
      (s : Conn) (e : Event) → Reported c s → Reported c (step pipeline max_batch m s e).0
  unfolding step
  Reported-step s (line l now) r = elim (Bool-cases (keep s.filter l.timestamp).0) [
    | inl e ↦
        rw (e, step)
          (Reported-append_kept (record s { filter = (keep s.filter l.timestamp).1 }) l now
            (record { published = r.published; placed = r.placed }))
    | inr e ↦ rw (e, step) (record { published = r.published; placed = r.placed })
  ]
  Reported-step s (closed failed) r = Reported-flush s r
  Reported-step s tick r = Reported-flush s r

  pub Reported-loop :
      (es : List Event) (s : Conn) → Reported c s → Reported c (loop pipeline max_batch m s es).0
  unfolding loop
  Reported-loop [] s r = r
  Reported-loop (e ∷ es) s r =
      go (Reported-loop es (step pipeline max_batch m s e).0 r') (step pipeline max_batch m s e).1
        refl
    where
      r' : Reported c (step pipeline max_batch m s e).0
      r' = Reported-step s e r

      go :
          Reported c (loop pipeline max_batch m (step pipeline max_batch m s e).0 es).0
          → (st : Status) → (step pipeline max_batch m s e).1 ≡ st
          → Reported c (loop pipeline max_batch m s (e ∷ es)).0
      go rec running h = rw (h, loop) rec
      go rec pipeline_refused h = rw (h, loop) r'
      go rec read_failed h = rw (h, loop) r'
      go rec at_eof h = rw (h, loop) r'

-- At every moment of a connection from `c`, the last position that it has reported, or `c` before the
-- first report, is the one that the stream takes over if the connection ends there.
pub stream_connection_reports :
    (pipeline : ℕ → Batch → Consumed) (max_batch : ℕ) (m : Meta) (c : Cursor) (es : List Event)
    → let s = (stream_connection pipeline max_batch m c es).0 in
      last_from c s.progress ≡ next_resume c s
unfolding stream_connection open_connection
stream_connection_reports pipeline max_batch m c es =
    (Reported-loop pipeline max_batch m c es (open_connection pipeline max_batch m c)
      (record { published = refl; placed = λ h. absurd (ground (arith, h)) })).published
