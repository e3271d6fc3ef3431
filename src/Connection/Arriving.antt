-- ===== src/Connection/Arriving.antt =====
-- From the response body to the pipeline, with both goroutines of a connection.
use k8spodlogreceiver.Prelude.{
  empty_of_length, ℕ, ◌≤◌, ◌<◌, ◌≡◌, refl, sym, ap, ◌∙◌, ◌⊎◌, inl, inr, Bool, false, Option, List,
  [], ◌∷◌, ◌++◌, map, arith, Bool-cases, length, length-append, Bytes, bytes_eq,
}
use k8spodlogreceiver.Logline.Yields.{scan-records}
use k8spodlogreceiver.Logline.Lossless.{yielded}
use k8spodlogreceiver.Logline.Scanner.{half_int}
use k8spodlogreceiver.Logline.Split.{Behavior}
use k8spodlogreceiver.Connection.Tracks.{next_resume, body_of, accepted_bodies}
use k8spodlogreceiver.Connection.Rounds.{lines_of, Ends}
use k8spodlogreceiver.Cursor.Filter.{keep_all}
use k8spodlogreceiver.Connection.{
  Instant, running, pipeline_refused, new_filter, keep, at_eof, Meta, Event, Filter, read_failed,
  Consumed, Conn, Status,
}
use k8spodlogreceiver.Cursor.{record_all, Cursor}
use k8spodlogreceiver.Logline.Batch.{Batch}
use k8spodlogreceiver.Logline.Records.{records}
use k8spodlogreceiver.Logline.Line.{parse_leading_timestamp, Line}
use mathlib.Core.Path.{subst}
use mathlib.Core.List.{append-nil, append_assoc}
use k8spodlogreceiver.Connection.Reader.{Pipe, Acts, open_pipe}
use k8spodlogreceiver.Connection.Interleaved.{Came, Followed-Acts, Followed-open}
use k8spodlogreceiver.Connection.Delivery.{stream_connection-Ends}

-- More lines keep what was kept.
keep_all-more :
    (f : Filter) (xs ys : List Line)
    → (more : List Line) × (keep_all f (xs ++ ys) ≡ keep_all f xs ++ more)
unfolding keep_all
keep_all-more f [] ys = (keep_all f ys, refl)
keep_all-more f (x ∷ xs) ys =
    let r = keep_all-more (keep f x.timestamp).1 xs ys in
    elim (Bool-cases (keep f x.timestamp).0) [
      | inl e ↦ (r.0, rw (e, keep_all) (ap (◌∷◌ x) r.1))
      | inr e ↦ (r.0, rw (e, keep_all) r.1)
    ]

-- The loop has returned without a refusal.
abbrev pub HasReturned : Status → Type 0
HasReturned st = (st ≡ read_failed) ⊎ (st ≡ at_eof)

-- Nothing is left, once the loop has returned without a refusal.
abbrev pub NoneLeft : Status → List Line → Type 0
NoneLeft running left = Unit
NoneLeft pipeline_refused left = Unit
NoneLeft read_failed left = left ≡ []
NoneLeft at_eof left = left ≡ []

-- Of the lines `kept`, the first have been taken by the pipeline, in order, and the position that the
-- stream takes over is the one after just these; all of them, once the loop has returned without a
-- refusal.
pub record Arrived (resume : Cursor) (kept : List Line) (s : Conn) (st : Status) : Type 0 where
  pub forwarded : List Line
  pub left : List Line
  pub prefix : forwarded ++ left ≡ kept
  pub accepted_are : accepted_bodies s.sent ≡ map body_of forwarded
  pub resumed : next_resume resume s ≡ record_all resume forwarded
  pub all_of_them : NoneLeft st left

Arrived-Ends :
    (resume : Cursor) (s : Conn) (st : Status) (seen more : List Line)
    → Ends resume s st seen
    → NoneLeft st more
    → Arrived resume (seen ++ more) s st
Arrived-Ends resume s running seen more (done, held, t, e) h = record {
  forwarded = done;
  left = held ++ more;
  prefix = sym (append_assoc done held more) ∙ ap (λ xs. xs ++ more) e;
  accepted_are = t.accepted_are;
  resumed = t.resumed;
  all_of_them = tt;
}
Arrived-Ends resume s pipeline_refused seen more (done, lost, rest, t, e) h = record {
  forwarded = done;
  left = (lost ++ rest) ++ more;
  prefix = sym (append_assoc done (lost ++ rest) more) ∙ ap (λ xs. xs ++ more) e;
  accepted_are = t.accepted_are;
  resumed = t.resumed;
  all_of_them = tt;
}
Arrived-Ends resume s read_failed seen more t h = record {
  forwarded = seen;
  left = more;
  prefix = refl;
  accepted_are = t.accepted_are;
  resumed = t.resumed;
  all_of_them = h;
}
Arrived-Ends resume s at_eof seen more t h = record {
  forwarded = seen;
  left = more;
  prefix = refl;
  accepted_are = t.accepted_are;
  resumed = t.resumed;
  all_of_them = h;
}

-- The lines that the loop has seen are the first of the scanner's, all of them once it has returned.
seen_of_Came :
    (lines : List Line) (failed : Bool) (es : List Event) (p : Pipe) (st : Status)
    → Came lines failed es p st
    → (rest : List Line) × (lines_of es ++ rest ≡ lines) × NoneLeft st rest
seen_of_Came lines failed es p running (n, e, u) = (p.line_ch ++ p.unread, e, tt)
seen_of_Came lines failed es p pipeline_refused (rest, e) = (rest, e, tt)
seen_of_Came lines failed es p read_failed (e, h) = ([], append-nil _ ∙ e, refl)
seen_of_Came lines failed es p at_eof (e, h) = ([], append-nil _ ∙ e, refl)

module _ (pipeline : ℕ → Batch → Consumed) (max_batch : ℕ) (m : Meta) (failed : Bool)
    (resume : Cursor) where
  none_kept :
      (xs ys more : List Line)
      → ys ≡ []
      → keep_all (new_filter resume) (xs ++ ys) ≡ keep_all (new_filter resume) xs ++ more
      → more ≡ []
  none_kept xs ys more e k = empty_of_length more (
      omega (
        arith,
        ap length k,
        length-append (keep_all (new_filter resume) xs) more,
        ap length (
            ap (λ zs. keep_all (new_filter resume) (xs ++ zs)) e
            ∙ ap (keep_all (new_filter resume)) (append-nil xs)),
      ))

  NoneLeft-kept :
      (st : Status) (xs ys more : List Line)
      → NoneLeft st ys
      → keep_all (new_filter resume) (xs ++ ys) ≡ keep_all (new_filter resume) xs ++ more
      → NoneLeft st more
  NoneLeft-kept running xs ys more e k = tt
  NoneLeft-kept pipeline_refused xs ys more e k = tt
  NoneLeft-kept read_failed xs ys more e k = none_kept xs ys more e k
  NoneLeft-kept at_eof xs ys more e k = none_kept xs ys more e k

  nothing_left : {left : List Line} (st : Status) → HasReturned st → NoneLeft st left → left ≡ []
  nothing_left running r n = absurd (ground (arith, r))
  nothing_left pipeline_refused r n = absurd (ground (arith, r))
  nothing_left read_failed r n = n
  nothing_left at_eof r n = n

  -- The reader and the loop of a connection from a cursor, interleaved in any way, the channel between them
  -- full or empty, the ticks wherever they fall. At every moment the pipeline has taken, in order, a
  -- first part of the scanner's lines that the filter keeps, and the position that the stream
  -- takes over is the one after just these lines; once the loop has returned without a refusal,
  -- nothing of them is left, in the channel or in the batch.
  pub Acts-Arrived :
      (lines : List Line) (p : Pipe)
      → Acts pipeline max_batch m failed (open_pipe pipeline max_batch m failed resume lines) p
      → Arrived resume (keep_all (new_filter resume) lines) p.conn p.status
  Acts-Arrived lines p acts =
      let f =
        Followed-Acts pipeline max_batch m failed resume lines acts
          (Followed-open pipeline max_batch m failed resume lines) in
      let (rest, e, h) = seen_of_Came lines failed f.es p p.status f.came in
      let k = keep_all-more (new_filter resume) (lines_of f.es) rest in
      subst (λ xs. Arrived resume xs p.conn p.status)
        (sym k.1 ∙ ap (keep_all (new_filter resume)) e)
        (Arrived-Ends resume p.conn p.status (keep_all (new_filter resume) (lines_of f.es)) k.0
          (subst (λ r. Ends resume r.0 r.1 (keep_all (new_filter resume) (lines_of f.es))) f.ran
            (stream_connection-Ends pipeline max_batch m resume f.es))
          (NoneLeft-kept p.status (lines_of f.es) rest k.0 h k.1))

  -- The same for a response body: the text that the API server sends, in reads of any sizes, to an end or
  -- to an error that comes in a read of its own, with no bytes of the text, through the scanner with
  -- a largest size from 1 to 2^62 - 1. Once the loop has
  -- returned without a refusal, what the pipeline has taken is, of the records of the text with their
  -- timestamps split off, exactly those that the filter keeps.
  pub Acts-text :
      (parse : Bytes → Option Instant) (max_size : ℕ) (behavior : Behavior) (text : Bytes)
      (wishes : List ℕ) (p : Pipe)
      → 0 < max_size
      → max_size ≤ half_int
      → Acts pipeline max_batch m failed
          (open_pipe pipeline max_batch m failed resume
            (map (parse_leading_timestamp parse) (yielded max_size behavior text wishes)))
          p
      → HasReturned p.status
      → accepted_bodies p.conn.sent
        ≡ map body_of (
            keep_all
              (new_filter resume)
              (map (parse_leading_timestamp parse) (records max_size behavior false [] text)))
  Acts-text parse max_size behavior text wishes p z h acts r =
      let a = Acts-Arrived _ p acts in
      a.accepted_are
      ∙ ap (map body_of) (
          sym (append-nil a.forwarded)
          ∙ ap (λ xs. a.forwarded ++ xs) (sym (nothing_left p.status r a.all_of_them))
          ∙ a.prefix
          ∙ ap (λ xs. keep_all (new_filter resume) (map (parse_leading_timestamp parse) xs))
              (scan-records max_size behavior text z h wishes).2)
