-- ===== src/Stream.antt =====
-- stream.go: the log-follow loop of one container. A round is one pass of the loop in `run`; what it
-- meets (the clock, the contexts, the API server's answer, the pipeline) is its input. Telemetry and
-- logging are left out.
pub mod Keeping
pub mod Ladder
pub mod WaitBounds
pub mod Waits
pub mod Persists
pub mod Rising
pub mod Growing
pub mod Requests
pub mod Delivery
pub mod GivingUp
pub mod Moments
pub mod Completing
pub mod Lifetime
use k8spodlogreceiver.Prelude.{
  ℕ, zero, suc, ◌+◌, ◌-◌, ◌*◌, ◌/◌, ◌%◌, ◌≤◌, ◌<◌, ◌≡◌, refl, sym, ap, ◌∙◌, ◌≢◌, ◌↔◌, ◌⊎◌, inl, inr,
  Bool, true, false, not, ◌&&◌, ◌||◌, Option, none, some, List, [], ◌∷◌, ◌++◌, map, arith, ltb, leb,
  ◌==◌, if◌then◌else◌, ==_iff, ltb→lt, lt→ltb, leb→le, Bool-cases, Option-cases, is_some, length,
  take, drop, keep_if, All, length-append, length-take_le, length-take, length-drop,
  take-append-drop, keep_if-append, Eq, same, same_iff, same_refl, Bytes, bytes_eq,
}
use k8spodlogreceiver.Prelude.Int.{ℤ, pos, half, ltb_ℤ, eq_ℤ}
use k8spodlogreceiver.Instant.{Instant, is_unset}
use k8spodlogreceiver.Logline.Batch.{Meta, Batch}
use k8spodlogreceiver.Cursor.{Cursor, is_zero, after}
use k8spodlogreceiver.Connection.{
  Conn, Consumed, Outcome, Event, Status, running, pipeline_refused, read_failed, at_eof,
  stream_connection,
}
use k8spodlogreceiver.Retry.{next_backoff, jitter}

pub record BackoffConfig : Type 0 where
  pub initial_interval : ℤ
  pub max_interval : ℤ
  pub max_elapsed_time : ℤ

pub record Stream : Type 0 where
  pub meta : Meta
  pub since_seconds : Option ℤ
  pub backoff_cfg : BackoffConfig
  pub max_stream_lifetime : ℤ
  pub max_batch : ℕ  -- batchSize(), which streamConnection reads
  pub backoff : ℤ
  pub resume : Cursor
  pub retrying_since : Instant
  pub first_attempt : Bool
  pub reports : List Cursor  -- the calls of onDelivered, those of the connections included
  pub sent : List (Batch × Outcome)  -- what the connections have given the pipeline
  pub reconnects : ℕ  -- LogConnectionReconnectsTotal
  pub waits : List ℤ  -- the waits that SleepOrDone was called with

-- What the final read of a terminated container's log meets.
pub data Drain : Type 0 where
  drain_failed : Drain
  drained : (ℕ → Batch → Consumed) → List Event → Drain

-- What a call of SleepOrDone for a jittered wait meets: the draw of rand.Int64N in Jitter, by its
-- argument, and whether the wait was not cut short by the stream's context.
pub record Sleep : Type 0 where
  pub draw : ℤ → ℤ
  pub slept : Bool

-- What a connect attempt meets. `deadline`: the connection's context has expired by then.
pub data Attempt : Type 0 where
  connect_failed : (cancelled deadline : Bool) (now later : Instant) (sleep : Sleep) → Attempt
  connected :
      (ℕ → Batch → Consumed)
      → List Event
      → (cancelled deadline terminal : Bool) → Drain
      → (sleep : Sleep) → Attempt

pub record Round : Type 0 where
  pub stopped : Bool  -- ctx.Err() != nil at the top of the loop
  pub restart_count : ℤ
  pub attempt : Attempt

-- streamStartPoint: sinceTime and sinceSeconds of the request
unfoldable pub stream_start_point : Instant → Option ℤ → Instant → Option Instant × Option ℤ
stream_start_point resume_from since now =
    if not (is_unset resume_from) then (some resume_from, none) else elim since [
      | none ↦ (none, none)
      | some n ↦ if eq_ℤ n (pos 0) then (some now, none) else (none, some n)
    ]

-- lifetimeReached, where `deadline` is set only under a lifetime cap (connectionContext)
abbrev pub lifetime_reached : Stream → Bool → Bool → Bool
lifetime_reached s cancelled deadline =
    not cancelled && (deadline && ltb_ℤ (pos 0) s.max_stream_lifetime)

-- countReconnect
unfoldable pub count_reconnect : Stream → Stream
count_reconnect s =
    if s.first_attempt
    then record s { first_attempt = false }
    else record s { reconnects = s.reconnects + 1 }

-- retry.Jitter(s.backoff), at a call of SleepOrDone
abbrev pub jittered : ℤ → Sleep → ℤ
jittered backoff sleep = jitter backoff (sleep.draw (half backoff))

-- retryAfterConnectError, which reads the clock twice: the stream, and whether to connect again
unfoldable pub retry_after_connect_error : Stream → Instant → Instant → Sleep → Stream × Bool
retry_after_connect_error s now later sleep =
    let s' = if is_unset s.retrying_since then record s { retrying_since = now } else s in
    if ltb_ℤ (pos 0) s.backoff_cfg.max_elapsed_time
      && ltb_ℤ s.backoff_cfg.max_elapsed_time (pos (later - s'.retrying_since))
    then (s', false)
    else let w = record s' { waits = s.waits ++ jittered s.backoff sleep ∷ [] } in
      if not sleep.slept
      then (w, false)
      else (record w { backoff = next_backoff s.backoff s.backoff_cfg.max_interval }, true)

-- What a connection leaves: if !last.IsZero() { s.resume = last }
unfoldable pub take_over : Stream → Conn → Stream
take_over s c = record s {
  resume = if is_zero c.delivered then s.resume else c.delivered;
  sent = s.sent ++ c.sent;
  reports = s.reports ++ c.progress;
}

-- drainTerminalLogs
drain_terminal_logs : Stream → Drain → Stream
unfolding take_over
drain_terminal_logs s drain_failed = s
drain_terminal_logs s (drained pipeline es) =
    take_over s (stream_connection pipeline s.max_batch s.meta s.resume es).0

abbrev ended_in_error : Status → Bool
ended_in_error at_eof = false
ended_in_error running = false
ended_in_error pipeline_refused = true
ended_in_error read_failed = true

-- follow: the stream, and whether to go on
unfoldable pub follow : Stream → (ℕ → Batch → Consumed) → List Event → Bool → Drain → Stream × Bool
unfolding take_over drain_terminal_logs
follow s pipeline es terminal d =
    let (c, end) = stream_connection pipeline s.max_batch s.meta s.resume es in
    let s' = record (take_over s c) {
      retrying_since = 0;
      reports =
          if is_zero c.delivered
          then s.reports ++ c.progress
          else (s.reports ++ c.progress) ++ c.delivered ∷ [];
    } in
    if not terminal
    then (s', true)
    else (if ended_in_error end then drain_terminal_logs s' d else s', false)

-- The part of `run` behind `follow`: the backoff, the wait, and whether there is another round.
unfoldable pub after_follow : Cursor → Bool → Sleep → Stream × Bool → Stream × Bool
after_follow before recycled sleep (s, keep_going) =
    let b =
      if after s.resume before
      then s.backoff_cfg.initial_interval
      else if not recycled
      then next_backoff s.backoff s.backoff_cfg.max_interval
      else s.backoff in
    (
      record s {
        backoff = b;
        waits = if keep_going && not recycled then s.waits ++ jittered b sleep ∷ [] else s.waits;
      },
      keep_going && (recycled || sleep.slept),
    )

unfoldable pub attempt_once : Stream → Attempt → Stream × Bool
unfolding after_follow
attempt_once s (connect_failed cancelled deadline now later sleep) =
    if lifetime_reached s cancelled deadline
    then (s, true)
    else retry_after_connect_error s now later sleep
attempt_once s (connected pipeline es cancelled deadline terminal d sleep) =
    after_follow s.resume (lifetime_reached s cancelled deadline) sleep
      (follow s pipeline es terminal d)

-- The part of `run` before the connect.
unfoldable pub begin_round : Stream → ℤ → Stream
unfolding count_reconnect
begin_round s restart_count = record (count_reconnect s) {
  meta = record s.meta { restart_count = restart_count };
}

-- One pass of the loop: the stream, and whether there is another.
unfoldable pub round : Stream → Round → Stream × Bool
unfolding attempt_once
round s i = if i.stopped then (s, false) else attempt_once (begin_round s i.restart_count) i.attempt

unfoldable pub rounds : Stream → List Round → Stream × Bool
rounds s [] = (s, true)
rounds s (i ∷ is) = elim (round s i).1 [
  | true ↦ rounds (round s i).0 is
  | false ↦ ((round s i).0, false)
]

-- run, as far as the inputs go: the stream, and whether it is still running
unfoldable pub run : Stream → List Round → Stream × Bool
unfolding rounds
run s is = rounds (record s { backoff = s.backoff_cfg.initial_interval }) is
