-- ===== src/Tests/Streams.antt =====
-- A stream's loop on concrete rounds, and the waits between them.
use k8spodlogreceiver.Stream.Ladder.{expected}
use k8spodlogreceiver.Retry.Backoff.{IsWait, Fair}
use k8spodlogreceiver.Prelude.{
  ℕ, ◌-◌, ◌≤◌, ◌<◌, ◌≡◌, refl, ◌⊎◌, inl, true, false, none, some, List, [], ◌∷◌, ◌++◌, map, arith,
  ◌==◌, if◌then◌else◌, All, bytes_eq,
}
use k8spodlogreceiver.Retry.{jitter, next_backoff, Fraction}
use k8spodlogreceiver.Stream.Lifetime.{connection_context-Within, connection_context}
use k8spodlogreceiver.Connection.Completing.{Willing}
use k8spodlogreceiver.Stream.Completing.{run-Complete, Complete}
use k8spodlogreceiver.Stream.Moments.{run-Vouching, Vouching}
use k8spodlogreceiver.Stream.GivingUp.{run-failed, all_go_on, failed_round, Failure}
use k8spodlogreceiver.Prelude.Int.{add, half, double, eq_ℤ, pos, dec, inc, dec}
use k8spodlogreceiver.Logline.Line.{Line}
use k8spodlogreceiver.Logline.Batch.{Meta, Batch, new_batch, append}
use k8spodlogreceiver.Cursor.{zero_cursor, record_line}
use k8spodlogreceiver.Cursor.Filter.{new_filter, keep}
use k8spodlogreceiver.Cursor.Counting.{Stands-zero}
use k8spodlogreceiver.Connection.{
  Consumed, accepted, other_error, consume_batch, line, closed, stream_connection, flush,
  append_line, step,
}
use k8spodlogreceiver.Stream.{
  Sleep, Stream, drain_failed, connect_failed, connected, Round, begin_round, round, run, follow,
  take_over, rounds, attempt_once, after_follow, count_reconnect, retry_after_connect_error,
}
use k8spodlogreceiver.Stream.Waits.{run-Waits}
use k8spodlogreceiver.Stream.Persists.{run_persists}
use k8spodlogreceiver.Stream.Delivery.{ServedRounds, Exact, run-Exact}

abbrev meta : Meta
meta = record {
  namespace = b'n' ∷ [];
  pod_name = b'p' ∷ [];
  pod_uid = b'u' ∷ [];
  container_name = b'c' ∷ [];
  node_name = b'm' ∷ [];
  restart_count = pos 0;
}

abbrev pub line_a : Line
line_a = record { body = b'a' ∷ []; timestamp = 5 }

abbrev pub line_b : Line
line_b = record { body = b'b' ∷ []; timestamp = 5 }

abbrev pub line_c : Line
line_c = record { body = b'c' ∷ []; timestamp = 7 }

abbrev pub whole_log : List Line
whole_log = line_a ∷ line_b ∷ line_c ∷ []

-- Seconds in nanoseconds: from one to thirty, without end.
abbrev pub fresh : Stream
fresh = record {
  meta = meta;
  since_seconds = none;
  backoff_cfg = record {
    initial_interval = pos 1000000000;
    max_interval = pos 30000000000;
    max_elapsed_time = pos 0;
  };
  max_stream_lifetime = pos 0;
  max_batch = 1;
  backoff = pos 0;
  resume = zero_cursor;
  retrying_since = 0;
  first_attempt = true;
  reports = [];
  sent = [];
  reconnects = 0;
  waits = [];
}

-- Takes the first batch and refuses the others.
abbrev first_only : ℕ → Batch → Consumed
first_only n b = if n == 0 then accepted else other_error

abbrev pub takes_all : ℕ → Batch → Consumed
takes_all n b = accepted

-- A wait that is not cut short, at the smallest draw.
abbrev pub sleeps : Sleep
sleeps = record { draw = λ n. pos 0; slept = true }

sleeps-Fair : Fair sleeps.draw
sleeps-Fair h p = (0, refl, p)

-- The connect fails, then the pipeline refuses the second line, then it takes the rest.
abbrev pub failing : Round
failing = record {
  stopped = false;
  restart_count = pos 0;
  attempt = connect_failed false false 10 11 sleeps;
}

abbrev pub refusing : Round
refusing = record {
  stopped = false;
  restart_count = pos 0;
  attempt =
      connected first_only (line line_a 20 ∷ line line_b 21 ∷ closed false ∷ []) false false false
        drain_failed sleeps;
}

abbrev pub resuming : Round
resuming = record {
  stopped = false;
  restart_count = pos 0;
  attempt =
      connected takes_all (line line_a 30 ∷ line line_b 31 ∷ line line_c 32 ∷ closed false ∷ [])
        false false true drain_failed sleeps;
}

abbrev pub three_rounds : List Round
three_rounds = failing ∷ refusing ∷ resuming ∷ []

all_in : (run fresh three_rounds).0.resume ≡ record { ts = 7; delivered = pos 1 }
unfolding run rounds round attempt_once retry_after_connect_error begin_round count_reconnect
    after_follow follow take_over stream_connection step flush append_line append new_batch
    consume_batch keep new_filter record_line inc dec
all_in = refl

served_rounds : ServedRounds whole_log (record fresh { backoff = pos 1000000000 }) three_rounds
served_rounds = (
  tt,
  (
    (record { old = []; rest = line_c ∷ []; cut = refl; behind = tt }, tt),
    ((record { old = []; rest = []; cut = refl; behind = tt }, tt), tt),
  ),
)

run-Exact_example : Exact whole_log [] (run fresh three_rounds).0
run-Exact_example =
    run-Exact whole_log [] fresh three_rounds (omega arith, (omega arith, (omega arith, tt)))
      ((omega arith, (omega arith, tt)), ((omega arith, tt), (tt, tt))) (omega arith) served_rounds
      (record {
        read = [];
        tail = whole_log;
        cut = refl;
        accepted_are = refl;
        stands = Stands-zero;
      })

run-Waits_example :
    let t = record fresh { backoff = pos 1000000000 } in
    ((run fresh three_rounds).0.waits ≡ [] ++ expected 1000000000 30000000000 0 t three_rounds)
    × All (IsWait 1000000000 30000000000) (expected 1000000000 30000000000 0 t three_rounds)
run-Waits_example =
    run-Waits 1000000000 30000000000 fresh three_rounds (omega arith) (omega arith) refl refl
      (sleeps-Fair, (sleeps-Fair, (sleeps-Fair, tt)))

-- Two failed connects: the second wait stands a rung above the first.
two_failures : (run fresh (failing ∷ failing ∷ [])).0.waits ≡ pos 500000000 ∷ pos 1000000000 ∷ []
unfolding run rounds round attempt_once retry_after_connect_error begin_round count_reconnect
    next_backoff double jitter half add
two_failures = refl

run_persists_example : (run fresh (failing ∷ refusing ∷ [])).1 ≡ true
run_persists_example =
    run_persists fresh (failing ∷ refusing ∷ []) refl ((refl, refl), ((refl, (refl, refl)), tt))

run-Vouching_example : Vouching whole_log [] (run fresh three_rounds).0
run-Vouching_example =
    run-Vouching whole_log [] fresh three_rounds (omega arith, (omega arith, (omega arith, tt)))
      ((omega arith, (omega arith, tt)), ((omega arith, tt), (tt, tt))) (omega arith) served_rounds
      refl
      (record {
        read = [];
        tail = whole_log;
        cut = refl;
        accepted_are = refl;
        stands = Stands-zero;
      })

-- A connect that the lifetime cuts short, then two failures, the second 5 after the first, where 3 are
-- allowed.
abbrev impatient : Stream
impatient = record fresh {
  backoff_cfg = record fresh.backoff_cfg { max_elapsed_time = pos 3 };
  max_stream_lifetime = pos 100;
}

abbrev cut_short : Failure
cut_short = record {
  stopped = false;
  restart_count = pos 0;
  cancelled = false;
  deadline = true;
  now = 4;
  later = 5;
  sleep = sleeps;
}

abbrev first_failure : Failure
first_failure = record cut_short { deadline = false; now = 10; later = 11 }

abbrev late_failure : Failure
late_failure = record cut_short { deadline = false; now = 14; later = 15 }

abbrev three_failures : List Failure
three_failures = cut_short ∷ first_failure ∷ late_failure ∷ []

run-failed_example :
    (run impatient (map failed_round three_failures)).1
    ≡ all_go_on (pos 3) (pos 100) none three_failures
run-failed_example =
    run-failed impatient three_failures refl (omega arith, (omega arith, (omega arith, tt)))

gave_up : all_go_on (pos 3) (pos 100) none three_failures ≡ false
gave_up = refl

pub takes_all-Willing : Willing takes_all
unfolding consume_batch
takes_all-Willing n b = refl

at_two : (run fresh (failing ∷ refusing ∷ [])).0.resume ≡ record { ts = 5; delivered = pos 1 }
unfolding run rounds round attempt_once retry_after_connect_error begin_round count_reconnect
    after_follow follow take_over stream_connection step flush append_line append new_batch
    consume_batch keep new_filter record_line inc dec
at_two = refl

run-Complete_example : Complete whole_log [] (run fresh three_rounds).0
run-Complete_example =
    run-Complete whole_log [] fresh (failing ∷ refusing ∷ []) resuming
      (omega arith, (omega arith, (omega arith, tt)))
      ((omega arith, (omega arith, tt)), ((omega arith, tt), (tt, tt))) (omega arith) served_rounds
      (record {
        read = [];
        tail = whole_log;
        cut = refl;
        accepted_are = refl;
        stands = Stands-zero;
      })
      refl ((refl, refl), ((refl, (refl, refl)), tt))
      (record {
        pipeline = takes_all;
        es = line line_a 30 ∷ line line_b 31 ∷ line line_c 32 ∷ closed false ∷ [];
        cancelled = false;
        deadline = false;
        terminal = true;
        drain = drain_failed;
        sleep = sleeps;
        connects = refl;
        goes_on = refl;
        willing = takes_all-Willing;
        closes = tt;
        to_the_end = ([], refl, tt);
      })

-- An hour's cap, a tenth of it as the jitter, and a draw of one second.
abbrev hourly : Stream
hourly = record fresh { max_stream_lifetime = pos 3600000000000 }

abbrev hour : ℕ
hour = 3600000000000

abbrev tenth : Fraction
tenth = record {
  not_positive = false;
  span_of = λ d. if eq_ℤ d (pos 3600000000000) then pos 360000000000 else d;
}

connection_context-Within_example :
    (connection_context hourly tenth (pos 1000000000) ≡ none) × (hour ≡ 0)
    ⊎ ((l : ℕ) × (connection_context hourly tenth (pos 1000000000) ≡ some (pos l))
        × (0 < l)
        × (l ≤ 3600000000000)
        × (3600000000000 - 360000000000 ≤ l))
connection_context-Within_example =
    connection_context-Within hourly tenth 3600000000000 360000000000 1000000000 refl (omega arith)
      refl refl (omega arith) (inl (omega arith))
