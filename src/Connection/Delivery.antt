-- ===== src/Connection/Delivery.antt =====
-- What one connection has forwarded when its loop returns, and where it leaves the cursor.
use k8spodlogreceiver.Prelude.{ℕ, ◌≡◌, refl, sym, List, [], ◌∷◌, ◌++◌, bytes_eq}
use k8spodlogreceiver.Cursor.Filter.{keep_all}
use mathlib.Core.Path.{subst}
use mathlib.Core.List.{append-nil, append_assoc}
use k8spodlogreceiver.Logline.Line.{Line}
use k8spodlogreceiver.Logline.Batch.{Meta, Batch}
use k8spodlogreceiver.Cursor.{Cursor}
use k8spodlogreceiver.Connection.Rounds.{
  lines_of, Ends, After, After-closed, After-line, After-tick, closed_returns, filter-line,
  filter-tick, keep_all-taken, taken,
}
use k8spodlogreceiver.Connection.{
  open_connection, new_filter, stream_connection, keep, Conn, Consumed, Event, line, closed, tick,
  Status, running, pipeline_refused, read_failed, at_eof, step, loop,
}
use k8spodlogreceiver.Connection.Tracks.{Tracks-open, Tracks}

module _ (pipeline : ℕ → Batch → Consumed) (max_batch : ℕ) (m : Meta) (resume : Cursor) where
  -- The loop after a round.
  abbrev continue_with : Conn × Status → List Event → Conn × Status
  continue_with (s, running) es = loop pipeline max_batch m s es
  continue_with (s, pipeline_refused) es = (s, pipeline_refused)
  continue_with (s, read_failed) es = (s, read_failed)
  continue_with (s, at_eof) es = (s, at_eof)

  loop_lem :
      (s : Conn) (e : Event) (es : List Event)
      → loop pipeline max_batch m s (e ∷ es) ≡ continue_with (step pipeline max_batch m s e) es
  unfolding loop
  loop_lem s e es = split (step pipeline max_batch m s e)
    where
      split :
          (r : Conn × Status)
          → elim r.1 [
            | running ↦ loop pipeline max_batch m r.0 es
            | pipeline_refused ↦ (r.0, pipeline_refused)
            | read_failed ↦ (r.0, read_failed)
            | at_eof ↦ (r.0, at_eof)
          ]
            ≡ continue_with r es
      split (s', running) = refl
      split (s', pipeline_refused) = refl
      split (s', read_failed) = refl
      split (s', at_eof) = refl

  abbrev EndsAll : Conn × Status → List Line → Type 0
  EndsAll r total = Ends resume r.0 r.1 total

  Ends-continue :
      (r : Conn × Status) (es : List Event) (now ahead : List Line)
      → After pipeline max_batch m resume r.0 r.1 now ahead
      → (r.1 ≡ running
          → (done held : List Line) → Tracks resume r.0 done held
          → EndsAll (loop pipeline max_batch m r.0 es) ((done ++ held) ++ ahead))
      → EndsAll (continue_with r es) (now ++ ahead)
  Ends-continue (s, running) es now ahead (done, held, t, e) ih = rw (← e) (ih refl done held t)
  Ends-continue (s, pipeline_refused) es now ahead a ih = a
  Ends-continue (s, read_failed) es now ahead a ih = a
  Ends-continue (s, at_eof) es now ahead a ih = a

  regroup :
      (s : Conn) (l : Line) (ls done held : List Line)
      → (done ++ (held ++ taken pipeline max_batch m resume s l))
          ++ keep_all (keep s.filter l.timestamp).1 ls
        ≡ (done ++ held) ++ keep_all s.filter (l ∷ ls)
  regroup s l ls done held = simp (append_assoc, keep_all-taken pipeline max_batch m resume s l ls)

  loop-Ends :
      (es : List Event) (s : Conn) (done held : List Line)
      → Tracks resume s done held
      → EndsAll (loop pipeline max_batch m s es) ((done ++ held) ++ keep_all s.filter (lines_of es))
  loop-Ends [] s done held t =
      unfold loop keep_all in (done, held, t, sym (append-nil (done ++ held)))
  loop-Ends (line l now ∷ es) s done held t =
      let r = step pipeline max_batch m s (line l now) in
      rw (loop_lem s (line l now) es) (
        rw (← regroup s l (lines_of es) done held) (
          rw (← filter-line pipeline max_batch m resume s l now) (
            Ends-continue r es (done ++ (held ++ taken pipeline max_batch m resume s l))
              (keep_all r.0.filter (lines_of es))
              (After-line pipeline max_batch m resume s l now done held
                (keep_all r.0.filter (lines_of es)) t)
              (λ _ d h u. loop-Ends es r.0 d h u))))
  loop-Ends (tick ∷ es) s done held t =
      let r = step pipeline max_batch m s tick in
      rw (loop_lem s tick es) (
        subst (λ f. EndsAll (continue_with r es) ((done ++ held) ++ keep_all f (lines_of es)))
          (filter-tick pipeline max_batch m resume s)
          (Ends-continue r es (done ++ held) (keep_all r.0.filter (lines_of es))
            (After-tick pipeline max_batch m resume s done held (keep_all r.0.filter (lines_of es))
              t)
            (λ _ d h u. loop-Ends es r.0 d h u)))
  loop-Ends (closed failed ∷ es) s done held t =
      let r = step pipeline max_batch m s (closed failed) in
      rw (loop_lem s (closed failed) es) (
        unfold keep_all in
        Ends-continue r es (done ++ held) []
          (After-closed pipeline max_batch m resume s failed done held t)
          (λ c. absurd (closed_returns pipeline max_batch m resume s failed c)))

-- A connection that resumes at `resume`, whatever lines arrive, whenever the ticks fall and
-- whatever the pipeline answers. Let the kept lines be those that the filter forwards of the lines
-- before the channel's end. While the loop runs, the kept lines have all been sent in order, none
-- refused, or stand in the batch. When it returns at the end of the channel, all of them have
-- been sent in order, none refused. When it returns because the pipeline refused a batch, a first part
-- of them has been sent before, and the refused batch holds the lines that come next. In every
-- case the position that the stream takes over is the one after just the lines of the batches that
-- were not refused.
pub stream_connection-Ends :
    (pipeline : ℕ → Batch → Consumed) (max_batch : ℕ) (m : Meta) (resume : Cursor) (es : List Event)
    → Ends resume
        (stream_connection pipeline max_batch m resume es).0
        (stream_connection pipeline max_batch m resume es).1
        (keep_all (new_filter resume) (lines_of es))
unfolding stream_connection
stream_connection-Ends pipeline max_batch m resume es =
    loop-Ends pipeline max_batch m resume es (open_connection pipeline max_batch m resume) [] []
      (Tracks-open pipeline max_batch m resume)
