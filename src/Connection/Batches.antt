-- ===== src/Connection/Batches.antt =====
-- The size of the batches sent, and the progress reported.
use k8spodlogreceiver.Prelude.{
  ℕ, ◌+◌, ◌≤◌, ◌<◌, ◌≡◌, refl, sym, ap, ◌∙◌, inl, inr, false, List, [], ◌∷◌, ◌++◌, arith, leb, ◌==◌,
  Bool-cases, length, All, length-append, bytes_eq,
}
use k8spodlogreceiver.Instant.{Instant}
use k8spodlogreceiver.Logline.Line.{Line}
use k8spodlogreceiver.Logline.Batch.{Meta, Batch, new_batch, append}
use k8spodlogreceiver.Cursor.{Cursor, zero_cursor}
use k8spodlogreceiver.Cursor.Filter.{Filter, keep}
use k8spodlogreceiver.Connection.{
  Conn, Consumed, Outcome, Event, line, closed, tick, Status, running, pipeline_refused,
  read_failed, at_eof, open_connection, flush, flushed, append_line, append_kept, step, loop,
  stream_connection,
}

-- The last report, the zero cursor if there is none.
abbrev pub last_report : List Cursor → Cursor
last_report [] = zero_cursor
last_report (c ∷ []) = c
last_report (c ∷ d ∷ cs) = last_report (d ∷ cs)

abbrev pub Fits : ℕ → Batch × Outcome → Type 0
Fits max_batch (b, o) = (b.count ≡ length b.records) × (0 < b.count) × (b.count ≤ max_batch)

-- All batches sent fit, the one under construction has room (but for the moment before a flush),
-- and the last report is what the connection will return.
pub record Bounded (max_batch room : ℕ) (s : Conn) : Type 0 where
  pub all_fit : All (Fits max_batch) s.sent
  pub counted : s.batch.count ≡ length s.batch.records
  pub has_room : s.batch.count + room ≤ max_batch
  pub reported : last_report s.progress ≡ s.delivered

last_report-snoc : (cs : List Cursor) (c : Cursor) → last_report (cs ++ c ∷ []) ≡ c
last_report-snoc [] c = refl
last_report-snoc (a ∷ []) c = refl
last_report-snoc (a ∷ b ∷ cs) c = last_report-snoc (b ∷ cs) c

All-snoc {ℓ κ} :
    {A : Type ℓ} (P : A → Type κ) (xs : List A) (x : A) → All P xs → P x → All P (xs ++ x ∷ [])
All-snoc P [] x h p = (p, tt)
All-snoc P (y ∷ ys) x h p = (h.0, All-snoc P ys x h.1 p)

module _ (pipeline : ℕ → Batch → Consumed) (max_batch : ℕ) (m : Meta)
    (pos_max : 0 < max_batch) where
  Bounded-flushed :
      (s : Conn) (o : Outcome)
      → 0 < s.batch.count
      → Bounded max_batch 0 s
      → Bounded max_batch 1 (flushed pipeline max_batch m s o).1
  unfolding flushed new_batch
  Bounded-flushed s o p b = record {
    all_fit =
        All-snoc (Fits max_batch) s.sent (s.batch, o) b.all_fit
          (b.counted, p, omega (arith, b.has_room));
    counted = refl;
    has_room = omega arith;
    reported = ground (arith, b.reported, last_report-snoc s.progress s.pending);
  }

  Bounded-flush :
      (s : Conn) → Bounded max_batch 0 s → Bounded max_batch 1 (flush pipeline max_batch m s).1
  unfolding flush
  Bounded-flush s b = elim (Bool-cases (s.batch.count == 0)) [
    | inl e ↦
        rw (e, flush)
          (record {
            all_fit = b.all_fit;
            counted = b.counted;
            has_room = ground arith;
            reported = b.reported;
          })
    | inr e ↦ rw (e, flush) (Bounded-flushed s _ (ground arith) b)
  ]

  Bounded-append_line :
      (s : Conn) (l : Line) (now : Instant) (room : ℕ)
      → s.batch.count + 1 + room ≤ max_batch
      → Bounded max_batch 1 s
      → Bounded max_batch room (append_line pipeline max_batch m s l now)
  unfolding append_line append
  Bounded-append_line s l now room h b = record {
    all_fit = b.all_fit;
    counted = ap (λ n. n + 1) b.counted ∙ sym (length-append s.batch.records _);
    has_room = h;
    reported = b.reported;
  }

  not_full :
      (s : Conn) (l : Line) (now : Instant)
      → leb max_batch (append_line pipeline max_batch m s l now).batch.count ≡ false
      → s.batch.count + 1 + 1 ≤ max_batch
  unfolding append_line append
  not_full s l now e = ground arith

  Bounded-append_kept :
      (s : Conn) (l : Line) (now : Instant)
      → Bounded max_batch 1 s
      → Bounded max_batch 1 (append_kept pipeline max_batch m s l now).0
  unfolding append_kept
  Bounded-append_kept s l now b =
      elim (Bool-cases (leb max_batch (append_line pipeline max_batch m s l now).batch.count)) [
        | inl e ↦
            rw (e, append_kept)
              (Bounded-flush (append_line pipeline max_batch m s l now)
                (Bounded-append_line s l now 0 (omega (arith, b.has_room)) b))
        | inr e ↦ rw (e, append_kept) (Bounded-append_line s l now 1 (not_full s l now e) b)
      ]

  same_batch :
      (s : Conn) (f : Filter)
      → Bounded max_batch 1 s
      → Bounded max_batch 1 (record s { filter = f })
  same_batch s f b = record {
    all_fit = b.all_fit;
    counted = b.counted;
    has_room = b.has_room;
    reported = b.reported;
  }

  without_room : (s : Conn) → Bounded max_batch 1 s → Bounded max_batch 0 s
  without_room s b = record {
    all_fit = b.all_fit;
    counted = b.counted;
    has_room = omega (arith, b.has_room);
    reported = b.reported;
  }

  Bounded-step :
      (s : Conn) (e : Event)
      → Bounded max_batch 1 s
      → Bounded max_batch 1 (step pipeline max_batch m s e).0
  unfolding step
  Bounded-step s (line l now) b = elim (Bool-cases (keep s.filter l.timestamp).0) [
    | inl k ↦
        rw (k, step)
          (Bounded-append_kept (record s { filter = (keep s.filter l.timestamp).1 }) l now
            (same_batch s _ b))
    | inr k ↦ rw (k, step) (same_batch s _ b)
  ]
  Bounded-step s (closed failed) b = Bounded-flush s (without_room s b)
  Bounded-step s tick b = Bounded-flush s (without_room s b)

  Bounded-loop :
      (es : List Event) (s : Conn)
      → Bounded max_batch 1 s
      → Bounded max_batch 1 (loop pipeline max_batch m s es).0
  unfolding loop
  Bounded-loop [] s b = b
  Bounded-loop (e ∷ es) s b =
      go (Bounded-loop es (step pipeline max_batch m s e).0 (Bounded-step s e b))
        (step pipeline max_batch m s e).1 refl
    where
      b' : Bounded max_batch 1 (step pipeline max_batch m s e).0
      b' = Bounded-step s e b

      go :
          Bounded max_batch 1 (loop pipeline max_batch m (step pipeline max_batch m s e).0 es).0
          → (st : Status) → (step pipeline max_batch m s e).1 ≡ st
          → Bounded max_batch 1 (loop pipeline max_batch m s (e ∷ es)).0
      go rec running h = rw (h, loop) rec
      go rec pipeline_refused h = rw (h, loop) b'
      go rec read_failed h = rw (h, loop) b'
      go rec at_eof h = rw (h, loop) b'

-- With a batch size of at least 1: each batch sent holds between 1 and `max_batch` records,
-- its count is the number of its records, and at every moment the last cursor reported through
-- `onProgress` is the one that the connection returns if it ends there.
pub stream_connection_batches :
    (pipeline : ℕ → Batch → Consumed) (max_batch : ℕ) (m : Meta) (resume : Cursor) (es : List Event)
    → 0 < max_batch
    → let s = (stream_connection pipeline max_batch m resume es).0 in
      All (Fits max_batch) s.sent × (last_report s.progress ≡ s.delivered)
unfolding stream_connection
stream_connection_batches pipeline max_batch m resume es h =
    let b =
      Bounded-loop pipeline max_batch m h es (open_connection pipeline max_batch m resume)
        (start h) in
    (b.all_fit, b.reported)
  where
    start : 0 < max_batch → Bounded max_batch 1 (open_connection pipeline max_batch m resume)
    start p =
        unfold open_connection new_batch in
        record { all_fit = tt; counted = refl; has_room = omega arith; reported = refl }
