-- ===== src/Connection.antt =====
-- receiver.go: streamConnection and consumeBatch, the loop that forwards one open stream.
-- What reaches its `select` is a list of events: a line that the scanner has sent, the channel's
-- end, or a tick of the flush ticker (`ticker.Reset` only moves the next tick). The pipeline, with
-- the retries of `consumerretry` in front of it, is a parameter that answers each batch.
pub mod Tracks
pub mod Rounds
pub mod Delivery
pub mod Batches
pub mod Reconnect
pub mod Reports
pub mod Rising
pub mod Growing
pub mod Moments
pub mod Completing
pub mod Reader
pub mod Reading
pub mod Interleaved
pub mod Arriving
pub mod Ending
use k8spodlogreceiver.Prelude.{
  ℕ, zero, suc, ◌+◌, ◌-◌, ◌*◌, ◌/◌, ◌%◌, ◌≤◌, ◌<◌, ◌≡◌, refl, sym, ap, ◌∙◌, ◌≢◌, ◌↔◌, ◌⊎◌, inl, inr,
  Bool, true, false, not, ◌&&◌, ◌||◌, Option, none, some, List, [], ◌∷◌, ◌++◌, map, arith, ltb, leb,
  ◌==◌, if◌then◌else◌, ==_iff, ltb→lt, lt→ltb, leb→le, Bool-cases, Option-cases, is_some, length,
  take, drop, keep_if, All, length-append, length-take_le, length-take, length-drop,
  take-append-drop, keep_if-append, Eq, same, same_iff, same_refl, Bytes, bytes_eq,
}
use k8spodlogreceiver.Instant.{Instant}
use k8spodlogreceiver.Logline.Line.{Line}
use k8spodlogreceiver.Logline.Batch.{Meta, Batch, LogRecord, new_batch, append}
use k8spodlogreceiver.Cursor.{Cursor, zero_cursor, record_line}
use k8spodlogreceiver.Cursor.Filter.{Filter, new_filter, keep}

-- What `ConsumeLogs` returns: nil, an error that `consumererror.IsPermanent` recognises, another.
pub data Consumed : Type 0 where
  accepted permanent_error other_error : Consumed

-- batchOutcome
pub data Outcome : Type 0 where
  delivered_batch refused_batch dropped_batch : Outcome

-- consumeBatch
unfoldable pub consume_batch : Consumed → Outcome
consume_batch accepted = delivered_batch
consume_batch permanent_error = dropped_batch
consume_batch other_error = refused_batch

abbrev pub is_refused : Outcome → Bool
is_refused refused_batch = true
is_refused delivered_batch = false
is_refused dropped_batch = false

pub data Event : Type 0 where
  line : Line → Instant → Event  -- a line, and the clock when it is appended
  closed : Bool → Event  -- the end of the channel, and whether the scanner reports an error
  tick : Event

-- Why the loop returned; `running` where it has not.
pub data Status : Type 0 where
  running : Status
  pipeline_refused : Status  -- errPipelineRefused
  read_failed : Status  -- the scanner's error
  at_eof : Status  -- nil

-- The loop's variables, and what it has sent and reported so far.
pub record Conn : Type 0 where
  pub filter : Filter
  pub pending : Cursor
  pub batch_advanced : Bool
  pub batch : Batch
  pub delivered : Cursor
  pub sent : List (Batch × Outcome)  -- the calls of consumeBatch
  pub progress : List Cursor  -- the calls of onProgress

-- After a flush: go on, or end with errPipelineRefused.
abbrev pub or_refused : Status → Bool × Conn → Conn × Status
or_refused next (flushed_well, s) = (s, if flushed_well then next else pipeline_refused)

module _ (pipeline : ℕ → Batch → Consumed) (max_batch : ℕ) (m : Meta) where
  -- The variables as streamConnection sets them up.
  unfoldable pub open_connection : Cursor → Conn
  open_connection resume = record {
    filter = new_filter resume;
    pending = resume;
    batch_advanced = false;
    batch = new_batch m;
    delivered = zero_cursor;
    sent = [];
    progress = [];
  }

  -- The part of `flush` after the pipeline's answer.
  pub flushed : Conn → Outcome → Bool × Conn
  flushed s outcome =
      let moves = not (is_refused outcome) && s.batch_advanced in
      (
        not (is_refused outcome),
        record s {
          delivered = if moves then s.pending else s.delivered;
          progress = if moves then s.progress ++ s.pending ∷ [] else s.progress;
          batch = new_batch m;
          batch_advanced = false;
          sent = s.sent ++ (s.batch, outcome) ∷ [];
        },
      )

  -- flush
  unfoldable pub flush : Conn → Bool × Conn
  unfolding flushed
  flush s =
      if s.batch.count == 0
      then (true, s)
      else flushed s (consume_batch (pipeline (length s.sent) s.batch))

  -- appendLine
  unfoldable pub append_line : Conn → Line → Instant → Conn
  append_line s l now =
      let (pending', moved) = record_line s.pending l.timestamp in
      record s {
        batch = append s.batch l.body l.timestamp now;
        pending = pending';
        batch_advanced = s.batch_advanced || moved;
      }

  -- A line that the filter keeps.
  pub append_kept : Conn → Line → Instant → Conn × Status
  unfolding append_line flush
  append_kept s l now =
      let s' = append_line s l now in
      if leb max_batch s'.batch.count then or_refused running (flush s') else (s', running)

  -- One round of the loop.
  unfoldable pub step : Conn → Event → Conn × Status
  unfolding append_kept flush
  step s (line l now) =
      let (kept, f) = keep s.filter l.timestamp in
      let s' = record s { filter = f } in if kept then append_kept s' l now else (s', running)
  step s (closed failed) = or_refused (if failed then read_failed else at_eof) (flush s)
  step s tick = or_refused running (flush s)

  -- The loop over the events: it stops at the first round that returns.
  unfoldable pub loop : Conn → List Event → Conn × Status
  loop s [] = (s, running)
  loop s (e ∷ es) = elim (step s e).1 [
    | running ↦ loop (step s e).0 es
    | pipeline_refused ↦ ((step s e).0, pipeline_refused)
    | read_failed ↦ ((step s e).0, read_failed)
    | at_eof ↦ ((step s e).0, at_eof)
  ]

  -- streamConnection, from the position `resume`
  unfoldable pub stream_connection : Cursor → List Event → Conn × Status
  unfolding open_connection loop
  stream_connection resume es = loop (open_connection resume) es
