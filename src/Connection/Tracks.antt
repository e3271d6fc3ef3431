-- ===== src/Connection/Tracks.antt =====
-- The invariant of the forwarding loop: which lines its state stands for.
use k8spodlogreceiver.Prelude.{
  empty_of_length, ℕ, ◌≡◌, refl, sym, ap, ◌∙◌, inl, inr, Bool, true, false, List, [], ◌∷◌, ◌++◌,
  map, arith, ◌==◌, if◌then◌else◌, Bool-cases, length, length-append, Bytes, bytes_eq,
}
use mathlib.Core.List.{append-nil, append_assoc, map-append}
use k8spodlogreceiver.Instant.{Instant}
use k8spodlogreceiver.Logline.Line.{Line}
use k8spodlogreceiver.Logline.Batch.{Meta, Batch, LogRecord, new_batch, append}
use k8spodlogreceiver.Cursor.{Cursor, is_zero, record_line, record_all}
use k8spodlogreceiver.Cursor.Counting.{record_all-append}
use k8spodlogreceiver.Connection.{
  dropped_batch, refused_batch, delivered_batch, consume_batch, Conn, Consumed, Outcome,
  open_connection, flushed, flush, append_line, is_refused,
}

abbrev pub body_of : Line → Bytes
body_of l = l.body

abbrev pub record_body : LogRecord → Bytes
record_body r = r.body

-- The bodies of the records of a batch, and of all batches sent, in order.
abbrev pub bodies : Batch → List Bytes
bodies b = map record_body b.records

abbrev pub sent_bodies : List (Batch × Outcome) → List Bytes
sent_bodies [] = []
sent_bodies ((b, o) ∷ bs) = bodies b ++ sent_bodies bs

-- Of these, the bodies in the batches that were not refused.
abbrev pub accepted_bodies : List (Batch × Outcome) → List Bytes
accepted_bodies [] = []
accepted_bodies ((b, o) ∷ bs) =
    let rest = accepted_bodies bs in if is_refused o then rest else bodies b ++ rest

-- The position that the stream takes over from a connection: see `follow`.
abbrev pub next_resume : Cursor → Conn → Cursor
next_resume resume s = if is_zero s.delivered then resume else s.delivered

-- The lines `done` have been sent, none refused, and the lines `held` are in the batch.
pub record Tracks (resume : Cursor) (s : Conn) (done held : List Line) : Type 0 where
  pub sent_are : sent_bodies s.sent ≡ map body_of done
  pub accepted_are : accepted_bodies s.sent ≡ map body_of done
  pub batch_are : bodies s.batch ≡ map body_of held
  pub counted : s.batch.count ≡ length held
  pub pending_is : s.pending ≡ record_all (next_resume resume s) held
  pub still : s.batch_advanced ≡ false → s.pending ≡ next_resume resume s
  pub moved : s.batch_advanced ≡ true → is_zero s.pending ≡ false
  pub resumed : next_resume resume s ≡ record_all resume done

-- The last batch sent, of the lines `lost`, was refused, and the position is before it.
pub record Lost (resume : Cursor) (s : Conn) (done lost : List Line) : Type 0 where
  pub sent_are : sent_bodies s.sent ≡ map body_of (done ++ lost)
  pub accepted_are : accepted_bodies s.sent ≡ map body_of done
  pub resumed : next_resume resume s ≡ record_all resume done

sent_bodies-append :
    (xs ys : List (Batch × Outcome)) → sent_bodies (xs ++ ys) ≡ sent_bodies xs ++ sent_bodies ys
sent_bodies-append [] ys = refl
sent_bodies-append ((b, o) ∷ xs) ys =
    ap (λ zs. bodies b ++ zs) (sent_bodies-append xs ys)
    ∙ sym (append_assoc (bodies b) (sent_bodies xs) (sent_bodies ys))

sent_bodies-snoc :
    (xs : List (Batch × Outcome)) (b : Batch) (o : Outcome)
    → sent_bodies (xs ++ (b, o) ∷ []) ≡ sent_bodies xs ++ bodies b
sent_bodies-snoc xs b o =
    sent_bodies-append xs ((b, o) ∷ []) ∙ ap (λ zs. sent_bodies xs ++ zs) (append-nil (bodies b))

pub accepted_bodies-append :
    (xs ys : List (Batch × Outcome))
    → accepted_bodies (xs ++ ys) ≡ accepted_bodies xs ++ accepted_bodies ys
accepted_bodies-append [] ys = refl
accepted_bodies-append ((b, o) ∷ xs) ys = ground (
  arith,
  accepted_bodies-append xs ys,
  append_assoc (bodies b) (accepted_bodies xs) (accepted_bodies ys),
)

accepted_bodies-snoc :
    (xs : List (Batch × Outcome)) (b : Batch) (o : Outcome)
    → accepted_bodies (xs ++ (b, o) ∷ [])
      ≡ (if is_refused o then accepted_bodies xs else accepted_bodies xs ++ bodies b)
accepted_bodies-snoc xs b o = ground (
  arith,
  accepted_bodies-append xs ((b, o) ∷ []),
  append-nil (bodies b),
  append-nil (accepted_bodies xs),
)

record_line_still :
    (c : Cursor) (t : Instant) → (record_line c t).1 ≡ false → (record_line c t).0 ≡ c
unfolding record_line
record_line_still c t h = ground arith

record_line_set :
    (c : Cursor) (t : Instant) → (record_line c t).1 ≡ true → is_zero (record_line c t).0 ≡ false
unfolding record_line
record_line_set c t h = ground arith

module _ (pipeline : ℕ → Batch → Consumed) (max_batch : ℕ) (m : Meta) (resume : Cursor) where
  pub Tracks-open : Tracks resume (open_connection pipeline max_batch m resume) [] []
  unfolding open_connection new_batch record_all
  Tracks-open = record {
    sent_are = refl;
    accepted_are = refl;
    batch_are = refl;
    counted = refl;
    pending_is = refl;
    still = λ h. refl;
    moved = λ h. ground arith;
    resumed = refl;
  }

  pub Tracks-append_line :
      (s : Conn) (done held : List Line) (l : Line) (now : Instant)
      → Tracks resume s done held
      → Tracks resume (append_line pipeline max_batch m s l now) done (held ++ l ∷ [])
  unfolding append_line append record_all
  Tracks-append_line s done held l now t = record {
    sent_are = t.sent_are;
    accepted_are = t.accepted_are;
    batch_are =
        map-append record_body s.batch.records _
        ∙ ap (λ xs. xs ++ l.body ∷ []) t.batch_are
        ∙ sym (map-append body_of held (l ∷ []));
    counted = omega (arith, t.counted, length-append held (l ∷ []));
    pending_is =
        ap (λ c. (record_line c l.timestamp).0) t.pending_is
        ∙ sym (record_all-append (next_resume resume s) held (l ∷ []));
    still = λ h. ground (arith, t.still, record_line_still s.pending l.timestamp);
    moved = λ h. ground (
      arith,
      t.moved,
      record_line_still s.pending l.timestamp,
      record_line_set s.pending l.timestamp,
    );
    resumed = t.resumed;
  }

  next_resume-flushed :
      (s : Conn) (o : Outcome) (done held : List Line)
      → is_refused o ≡ false
      → Tracks resume s done held
      → next_resume resume (flushed pipeline max_batch m s o).1 ≡ s.pending
  unfolding flushed
  next_resume-flushed s o done held r t = ground (arith, t.still, t.moved)

  -- A batch that is not refused.
  Tracks-flushed :
      (s : Conn) (o : Outcome) (done held : List Line)
      → is_refused o ≡ false
      → Tracks resume s done held
      → Tracks resume (flushed pipeline max_batch m s o).1 (done ++ held) []
  unfolding flushed new_batch record_all
  Tracks-flushed s o done held r t = record {
    sent_are =
        cc (
          sent_bodies-snoc s.sent s.batch o,
          t.sent_are,
          t.batch_are,
          map-append body_of done held,
        );
    batch_are = refl;
    counted = refl;
    pending_is = sym (next_resume-flushed s o done held r t);
    still = λ h. sym (next_resume-flushed s o done held r t);
    moved = λ h. ground arith;
    accepted_are = ground (
      arith,
      r,
      accepted_bodies-snoc s.sent s.batch o,
      t.accepted_are,
      t.batch_are,
      map-append body_of done held,
    );
    resumed =
        next_resume-flushed s o done held r t
        ∙ t.pending_is
        ∙ ap (λ c. record_all c held) t.resumed
        ∙ sym (record_all-append resume done held);
  }

  -- A batch that is refused.
  Lost-flushed :
      (s : Conn) (o : Outcome) (done held : List Line)
      → is_refused o ≡ true
      → Tracks resume s done held
      → Lost resume (flushed pipeline max_batch m s o).1 done held
  unfolding flushed
  Lost-flushed s o done held r t = record {
    sent_are =
        cc (
          sent_bodies-snoc s.sent s.batch o,
          t.sent_are,
          t.batch_are,
          map-append body_of done held,
        );
    accepted_are = ground (arith, r, accepted_bodies-snoc s.sent s.batch o, t.accepted_are);
    resumed = ground (arith, t.resumed);
  }

  -- What a flush leaves, by its result.
  abbrev pub FlushLeaves : Bool × Conn → List Line → List Line → Type 0
  FlushLeaves (true, s) done held = Tracks resume s (done ++ held) []
  FlushLeaves (false, s) done held = Lost resume s done held

  FlushLeaves-flushed :
      (s : Conn) (o : Outcome) (done held : List Line)
      → Tracks resume s done held
      → FlushLeaves (flushed pipeline max_batch m s o) done held
  unfolding flushed
  FlushLeaves-flushed s delivered_batch done held t =
      Tracks-flushed s delivered_batch done held refl t
  FlushLeaves-flushed s refused_batch done held t = Lost-flushed s refused_batch done held refl t
  FlushLeaves-flushed s dropped_batch done held t = Tracks-flushed s dropped_batch done held refl t

  pub FlushLeaves-flush :
      (s : Conn) (done held : List Line)
      → Tracks resume s done held
      → FlushLeaves (flush pipeline max_batch m s) done held
  unfolding flush
  FlushLeaves-flush s done held t = elim (Bool-cases (s.batch.count == 0)) [
    | inl e ↦
        let none_held : held ≡ [] = empty_of_length held (ground (arith, t.counted)) in
        rw (e, flush) (rw none_held (rw append-nil (rw none_held at t)))
    | inr e ↦
        rw (e, flush)
          (FlushLeaves-flushed s (consume_batch (pipeline (length s.sent) s.batch)) done held t)
  ]
