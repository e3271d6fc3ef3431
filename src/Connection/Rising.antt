-- ===== src/Connection/Rising.antt =====
-- A connection never reports a position before one that it has reported.
use k8spodlogreceiver.Prelude.{
  ℕ, ◌+◌, ◌≤◌, ◌<◌, ◌≡◌, refl, ap, ◌∙◌, inl, inr, false, List, [], ◌∷◌, ◌++◌, arith, leb, ◌==◌,
  Bool-cases, length, bytes_eq,
}
use k8spodlogreceiver.Instant.{Instant, is_unset, later}
use k8spodlogreceiver.Prelude.Int.{pos, inc, inc-pos, max_int}
use k8spodlogreceiver.Logline.Line.{Line}
use k8spodlogreceiver.Logline.Batch.{Meta, Batch}
use k8spodlogreceiver.Cursor.{is_zero, Cursor, record_line}
use k8spodlogreceiver.Cursor.Filter.{Filter, keep}
use k8spodlogreceiver.Cursor.Order.{
  NotBefore, NotBefore-refl, NotBefore-trans, NotBefore-record_line,
}
use k8spodlogreceiver.Connection.{
  Conn, Consumed, Outcome, Event, line, closed, tick, Status, running, pipeline_refused,
  read_failed, at_eof, open_connection, flushed, flush, append_line, append_kept, step, loop,
  stream_connection,
}
use k8spodlogreceiver.Connection.Tracks.{next_resume}
use k8spodlogreceiver.Connection.Rounds.{lines_of, closed_returns}
use k8spodlogreceiver.Connection.Reports.{
  last_from, Reported, Reported-flushed, Reported-append_line,
}

-- From `c` on, no position is before the one in front of it, and none is the zero one.
abbrev pub Rising : Cursor → List Cursor → Type 0
Rising c [] = Unit
Rising c (d ∷ ds) = NotBefore c d × (is_zero d ≡ false) × Rising d ds

pub Rising-append :
    (c : Cursor) (xs ys : List Cursor)
    → Rising c xs
    → Rising (last_from c xs) ys
    → Rising c (xs ++ ys)
Rising-append c [] ys h k = k
Rising-append c (x ∷ xs) ys h k = (h.0, h.1, Rising-append x xs ys h.2 k)

-- The count of a cursor is at most `n`.
pub record CountsTo (n : ℕ) (c : Cursor) : Type 0 where
  pub number : ℕ
  pub delivered_is : c.delivered ≡ pos number
  pub within : number ≤ n

-- The reports rise, and the position of the batch is not before the last of them.
record Rises (c : Cursor) (n : ℕ) (s : Conn) : Type 0 where
  rising : Rising c s.progress
  reported : Reported c s
  ahead : NotBefore (next_resume c s) s.pending
  counts : CountsTo n s.pending

CountsTo-record_line :
    (n : ℕ) (c : Cursor) (t : Instant)
    → n < max_int
    → CountsTo n c
    → CountsTo (n + 1) (record_line c t).0
unfolding record_line
CountsTo-record_line n c t h k = elim (Bool-cases (is_unset t)) [
  | inl e ↦ by_count k.number (omega (arith, k.within)) (rw (e, record_line) k.delivered_is)
  | inr e ↦ elim (Bool-cases (later t c.ts)) [
    | inl l ↦ by_count 1 (omega arith) (rw (e, l, record_line) refl)
    | inr l ↦ elim (Bool-cases (t == c.ts)) [
      | inl q ↦ by_count (k.number + 1) (omega (arith, k.within)) (
          rw (e, l, q, record_line)
            (ap inc k.delivered_is ∙ inc-pos k.number (omega (arith, k.within))))
      | inr q ↦
          by_count k.number (omega (arith, k.within)) (rw (e, l, q, record_line) k.delivered_is)
    ]
  ]
]
  where
    by_count :
        (m : ℕ)
        → m ≤ n + 1
        → (record_line c t).0.delivered ≡ pos m
        → CountsTo (n + 1) (record_line c t).0
    by_count m le e = record { number = m; delivered_is = e; within = le }

module _ (pipeline : ℕ → Batch → Consumed) (max_batch : ℕ) (m : Meta) (c : Cursor) where
  Rises-flushed :
      (n : ℕ) (s : Conn) (o : Outcome)
      → Rises c n s
      → Rises c n (flushed pipeline max_batch m s o).1
  unfolding flushed
  Rises-flushed n s o r = record {
    rising = elim (Bool-cases s.batch_advanced) [
      | inl e ↦ ground (
        arith,
        r.rising,
        Rising-append c s.progress (s.pending ∷ []) r.rising
            (rw r.reported.published (r.ahead, r.reported.placed e, tt)),
      )
      | inr e ↦ ground (arith, e, r.rising)
    ];
    reported = Reported-flushed pipeline max_batch m c s o r.reported;
    ahead = ground (arith, r.ahead, NotBefore-refl s.pending, r.reported.placed);
    counts = r.counts;
  }

  Rises-flush : (n : ℕ) (s : Conn) → Rises c n s → Rises c n (flush pipeline max_batch m s).1
  unfolding flush
  Rises-flush n s r = elim (Bool-cases (s.batch.count == 0)) [
    | inl e ↦ rw (e, flush) r
    | inr e ↦ rw (e, flush) (Rises-flushed n s _ r)
  ]

  Rises-append_line :
      (n : ℕ) (s : Conn) (l : Line) (now : Instant)
      → n < max_int
      → Rises c n s
      → Rises c (n + 1) (append_line pipeline max_batch m s l now)
  unfolding append_line
  Rises-append_line n s l now h r = record {
    rising = r.rising;
    reported = Reported-append_line pipeline max_batch m c s l now r.reported;
    ahead =
        NotBefore-trans (next_resume c s) s.pending (record_line s.pending l.timestamp).0 r.ahead (
          NotBefore-record_line s.pending l.timestamp r.counts.number r.counts.delivered_is
            (omega (arith, r.counts.within)));
    counts = CountsTo-record_line n s.pending l.timestamp h r.counts;
  }

  Rises-append_kept :
      (n : ℕ) (s : Conn) (l : Line) (now : Instant)
      → n < max_int
      → Rises c n s
      → Rises c (n + 1) (append_kept pipeline max_batch m s l now).0
  unfolding append_kept
  Rises-append_kept n s l now h r =
      elim (Bool-cases (leb max_batch (append_line pipeline max_batch m s l now).batch.count)) [
        | inl e ↦ rw (e, append_kept) (Rises-flush (n + 1) _ (Rises-append_line n s l now h r))
        | inr e ↦ rw (e, append_kept) (Rises-append_line n s l now h r)
      ]

  Rises-more : (n : ℕ) (s : Conn) → Rises c n s → Rises c (n + 1) s
  Rises-more n s r = record {
    rising = r.rising;
    reported = r.reported;
    ahead = r.ahead;
    counts = record {
      number = r.counts.number;
      delivered_is = r.counts.delivered_is;
      within = omega (arith, r.counts.within);
    };
  }

  Rises-line :
      (n : ℕ) (s : Conn) (l : Line) (now : Instant)
      → n < max_int
      → Rises c n s
      → Rises c (n + 1) (step pipeline max_batch m s (line l now)).0
  unfolding step
  Rises-line n s l now h r = elim (Bool-cases (keep s.filter l.timestamp).0) [
    | inl e ↦
        rw (e, step)
          (Rises-append_kept n (record s { filter = (keep s.filter l.timestamp).1 }) l now h
            (any_filter (keep s.filter l.timestamp).1))
    | inr e ↦ rw (e, step) (Rises-more n _ (any_filter (keep s.filter l.timestamp).1))
  ]
    where
      any_filter : (f : Filter) → Rises c n (record s { filter = f })
      any_filter f = record {
        rising = r.rising;
        reported = record { published = r.reported.published; placed = r.reported.placed };
        ahead = r.ahead;
        counts = r.counts;
      }

  -- What the loop makes of the state after one more round.
  Told : Conn → Type 0
  Told s = Rising c s.progress × (last_from c s.progress ≡ next_resume c s)

  Told-Rises : (n : ℕ) (s : Conn) → Rises c n s → Told s
  unfolding Told
  Told-Rises n s r = (r.rising, r.reported.published)

  Told-after :
      (n : ℕ) (s : Conn) (e : Event) (es : List Event)
      → Rises c n (step pipeline max_batch m s e).0
      → ((step pipeline max_batch m s e).1 ≡ running
          → Told (loop pipeline max_batch m (step pipeline max_batch m s e).0 es).0)
      → Told (loop pipeline max_batch m s (e ∷ es)).0
  unfolding loop
  Told-after n s e es r rec = go (step pipeline max_batch m s e).1 refl
    where
      go :
          (st : Status)
          → (step pipeline max_batch m s e).1 ≡ st
          → Told (loop pipeline max_batch m s (e ∷ es)).0
      go running h = rw (h, loop) (rec h)
      go pipeline_refused h = rw (h, loop) (Told-Rises n _ r)
      go read_failed h = rw (h, loop) (Told-Rises n _ r)
      go at_eof h = rw (h, loop) (Told-Rises n _ r)

  Told-loop :
      (es : List Event) (n : ℕ) (s : Conn)
      → n + length (lines_of es) < max_int
      → Rises c n s
      → Told (loop pipeline max_batch m s es).0
  unfolding step
  Told-loop [] n s h r = unfold loop in Told-Rises n s r
  Told-loop (line l now ∷ es) n s h r =
      let r' = Rises-line n s l now (omega arith) r in
      Told-after (n + 1) s (line l now) es r' (λ _. Told-loop es (n + 1) _ (omega arith) r')
  Told-loop (closed failed ∷ es) n s h r =
      Told-after n s (closed failed) es (Rises-flush n s r)
        (λ e. absurd (closed_returns pipeline max_batch m c s failed e))
  Told-loop (tick ∷ es) n s h r =
      Told-after n s tick es (Rises-flush n s r) (λ _. Told-loop es n _ h (Rises-flush n s r))

-- A connection from a cursor whose count is `n`, where fewer than 2^63 - 1 - n lines arrive before the
-- end: its reports never go back, and the last of them, or the cursor before the first, is the one
-- that the stream takes over.
pub stream_connection_rises :
    (pipeline : ℕ → Batch → Consumed) (max_batch : ℕ) (m : Meta) (c : Cursor) (es : List Event)
    (n : ℕ)
    → c.delivered ≡ pos n
    → n + length (lines_of es) < max_int
    → let s = (stream_connection pipeline max_batch m c es).0 in
      Rising c s.progress × (last_from c s.progress ≡ next_resume c s)
unfolding stream_connection open_connection
stream_connection_rises pipeline max_batch m c es n e h =
    unfold Told in
    Told-loop pipeline max_batch m c es n (open_connection pipeline max_batch m c) h (record {
      rising = tt;
      reported = record { published = refl; placed = λ h. absurd (ground (arith, h)) };
      ahead = NotBefore-refl c;
      counts = record { number = n; delivered_is = e; within = omega arith };
    })
