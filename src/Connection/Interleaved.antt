-- ===== src/Connection/Interleaved.antt =====
-- What the two goroutines of a connection bring into the pipeline, and that they come to an end.
use k8spodlogreceiver.Prelude.{
  ℕ, ◌≡◌, refl, sym, ap, ◌∙◌, ◌⊎◌, Bool, true, false, List, [], ◌∷◌, ◌++◌, arith, if◌then◌else◌,
  bytes_eq,
}
use k8spodlogreceiver.Connection.Rounds.{lines_of}
use mathlib.Core.Path.{subst, ap₂}
use mathlib.Core.List.{append-nil, append_assoc}
use k8spodlogreceiver.Connection.{
  open_connection, closed, at_eof, step, pipeline_refused, loop, Instant, line, running,
  read_failed, stream_connection, Cursor, Status, Meta, Event, Consumed, Line, Batch, tick,
}
use k8spodlogreceiver.Connection.Reading.{
  step-tick_status, step-closed_status, loop-snoc, step-line_status, NoEnd, NoEnd-append,
  lines_of-append,
}
use k8spodlogreceiver.Connection.Reader.{
  Pipe, Act, reader_sends, reader_ends, reader_stops, receives, sees_end, ticks, Acts, no_act,
  then_acts, open_pipe,
}

-- How far the loop has come on the events `es`, of the lines that the scanner yields.
abbrev pub Came : List Line → Bool → List Event → Pipe → Status → Type 0
Came lines failed es p running =
    NoEnd es
    × (lines_of es ++ (p.line_ch ++ p.unread) ≡ lines)
    × (p.line_ch_closed ≡ true → p.unread ≡ [])
Came lines failed es p pipeline_refused = (rest : List Line) × (lines_of es ++ rest ≡ lines)
Came lines failed es p read_failed = (lines_of es ≡ lines) × (failed ≡ true)
Came lines failed es p at_eof = (lines_of es ≡ lines) × (failed ≡ false)

module _ (pipeline : ℕ → Batch → Consumed) (max_batch : ℕ) (m : Meta) (failed : Bool)
    (resume : Cursor) (lines : List Line) where
  -- The loop has seen the events `es`.
  pub record Followed (p : Pipe) : Type 0 where
    pub es : List Event
    pub ran : stream_connection pipeline max_batch m resume es ≡ (p.conn, p.status)
    pub came : Came lines failed es p p.status

  -- A step of the reader leaves the loop where it is.
  Followed-reader :
      (p q : Pipe)
      → q.conn ≡ p.conn
      → q.status ≡ p.status
      → ((es : List Event) → Came lines failed es p running → Came lines failed es q running)
      → Followed p
      → Followed q
  Followed-reader p q c s h f = record {
    es = f.es;
    ran = f.ran ∙ ap₂ (λ a b. (a, b)) (sym c) (sym s);
    came = subst (Came lines failed f.es q) (sym s) (go p.status f.came);
  }
    where
      go : (st : Status) → Came lines failed f.es p st → Came lines failed f.es q st
      go running x = h f.es x
      go pipeline_refused x = x
      go read_failed x = x
      go at_eof x = x

  ran-snoc :
      (p : Pipe) (es : List Event) (e : Event)
      → stream_connection pipeline max_batch m resume es ≡ (p.conn, p.status)
      → p.status ≡ running
      → stream_connection pipeline max_batch m resume (es ++ e ∷ [])
        ≡ step pipeline max_batch m p.conn e
  unfolding stream_connection
  ran-snoc p es e r s =
      loop-snoc pipeline max_batch m es (open_connection pipeline max_batch m resume) e
        (ap (λ x. x.1) r ∙ s)
      ∙ ap (λ x. step pipeline max_batch m x.0 e) r

  -- A round of the loop, which takes the event `e`.
  Followed-round :
      (p q : Pipe) (e : Event)
      → p.status ≡ running
      → (q.conn, q.status) ≡ step pipeline max_batch m p.conn e
      → ((es : List Event)
          → Came lines failed es p running
          → Came lines failed (es ++ e ∷ []) q q.status)
      → Followed p
      → Followed q
  Followed-round p q e s r h f = record {
    es = f.es ++ e ∷ [];
    ran = ran-snoc p f.es e f.ran s ∙ sym r;
    came = h f.es (subst (Came lines failed f.es p) s f.came);
  }

  Came-line :
      (p : Pipe) (l : Line) (ls : List Line) (now : Instant) (es : List Event) (st : Status)
      → (st ≡ running) ⊎ (st ≡ pipeline_refused)
      → p.line_ch ≡ l ∷ ls
      → Came lines failed es p running
      → Came lines failed (es ++ line l now ∷ []) (record p { line_ch = ls }) st
  Came-line p l ls now es st h c (n, e, u) = go st h
    where
      so_far : lines_of (es ++ line l now ∷ []) ++ (ls ++ p.unread) ≡ lines
      so_far =
          ap (λ xs. xs ++ (ls ++ p.unread)) (lines_of-append es (line l now ∷ []) n)
          ∙ append_assoc (lines_of es) (l ∷ []) (ls ++ p.unread)
          ∙ ap (λ xs. lines_of es ++ (xs ++ p.unread)) (sym c)
          ∙ e

      go :
          (st : Status)
          → (st ≡ running) ⊎ (st ≡ pipeline_refused)
          → Came lines failed (es ++ line l now ∷ []) (record p { line_ch = ls }) st
      go running k = (NoEnd-append es (line l now ∷ []) n tt, so_far, u)
      go pipeline_refused k = (ls ++ p.unread, so_far)
      go read_failed k = absurd (ground (arith, k))
      go at_eof k = absurd (ground (arith, k))

  Came-tick :
      (p : Pipe) (es : List Event) (st : Status)
      → (st ≡ running) ⊎ (st ≡ pipeline_refused)
      → Came lines failed es p running
      → Came lines failed (es ++ tick ∷ []) p st
  Came-tick p es st h (n, e, u) = go st h
    where
      so_far : lines_of (es ++ tick ∷ []) ++ (p.line_ch ++ p.unread) ≡ lines
      so_far =
          ap (λ xs. xs ++ (p.line_ch ++ p.unread))
            (lines_of-append es (tick ∷ []) n ∙ append-nil (lines_of es))
          ∙ e

      go :
          (st : Status)
          → (st ≡ running) ⊎ (st ≡ pipeline_refused)
          → Came lines failed (es ++ tick ∷ []) p st
      go running k = (NoEnd-append es (tick ∷ []) n tt, so_far, u)
      go pipeline_refused k = (p.line_ch ++ p.unread, so_far)
      go read_failed k = absurd (ground (arith, k))
      go at_eof k = absurd (ground (arith, k))

  Came-end :
      (p : Pipe) (es : List Event) (st : Status)
      → (st ≡ (if failed then read_failed else at_eof)) ⊎ (st ≡ pipeline_refused)
      → p.line_ch ≡ []
      → p.line_ch_closed ≡ true
      → Came lines failed es p running
      → Came lines failed (es ++ closed failed ∷ []) p st
  Came-end p es st h c d (n, e, u) = go st h
    where
      so_far : lines_of (es ++ closed failed ∷ []) ≡ lines
      so_far =
          lines_of-append es (closed failed ∷ []) n
          ∙ ap (λ xs. lines_of es ++ xs) (ap₂ (λ xs ys. xs ++ ys) (sym c) (sym (u d)))
          ∙ e

      go :
          (st : Status)
          → (st ≡ (if failed then read_failed else at_eof)) ⊎ (st ≡ pipeline_refused)
          → Came lines failed (es ++ closed failed ∷ []) p st
      go running k = absurd (ground (arith, k))
      go pipeline_refused k = ([], append-nil _ ∙ so_far)
      go read_failed k = (so_far, ground (arith, k))
      go at_eof k = (so_far, ground (arith, k))

  Followed-Act : {p q : Pipe} → Act pipeline max_batch m failed p q → Followed p → Followed q
  Followed-Act {p} (reader_sends l ls c u r) f =
      Followed-reader p _ refl refl
        (λ es (n, e, k). (
          n,
          ap (λ xs. lines_of es ++ xs)
                (append_assoc p.line_ch (l ∷ []) ls ∙ ap (λ xs. p.line_ch ++ xs) (sym u))
              ∙ e,
          λ d. absurd (ground (arith, c, d)),
        ))
        f
  Followed-Act {p} (reader_ends c u) f =
      Followed-reader p _ refl refl (λ es (n, e, k). (n, e, λ d. u)) f
  Followed-Act {p} (reader_stops c s) f = record {
    es = f.es;
    ran = f.ran;
    came = go p.status refl f.came;
  }
    where
      go :
          (st : Status)
          → p.status ≡ st
          → Came lines failed f.es p st
          → Came lines failed f.es (record p { line_ch_closed = true }) st
      go running e x = absurd (s e)
      go pipeline_refused e x = x
      go read_failed e x = x
      go at_eof e x = x
  Followed-Act {p} (receives l ls now s c) f =
      Followed-round p _ (line l now) s refl
        (λ es x. Came-line p l ls now es _ (step-line_status pipeline max_batch m p.conn l now) c x)
        f
  Followed-Act {p} (sees_end s c d) f =
      Followed-round p _ (closed failed) s refl
        (λ es x. Came-end p es _ (step-closed_status pipeline max_batch m p.conn failed) c d x) f
  Followed-Act {p} (ticks s) f =
      Followed-round p _ tick s refl
        (λ es x. Came-tick p es _ (step-tick_status pipeline max_batch m p.conn) x) f

  pub Followed-open : Followed (open_pipe pipeline max_batch m failed resume lines)
  unfolding open_pipe stream_connection loop
  Followed-open = record { es = []; ran = refl; came = (tt, refl, λ d. absurd (ground (arith, d))) }

  pub Followed-Acts : {p q : Pipe} → Acts pipeline max_batch m failed p q → Followed p → Followed q
  Followed-Acts no_act f = f
  Followed-Acts (then_acts us a) f = Followed-Act a (Followed-Acts us f)
