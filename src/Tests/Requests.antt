-- ===== src/Tests/Requests.antt =====
-- A request to an API server that keeps a log in whole seconds.
use k8spodlogreceiver.Prelude.{
  ℕ, refl, inl, not, none, some, List, [], ◌∷◌, arith, keep_if, bytes_eq,
}
use k8spodlogreceiver.Prelude.Int.{pos}
use k8spodlogreceiver.Connection.{line}
use k8spodlogreceiver.Instant.{whole_second, earlier}
use k8spodlogreceiver.Tests.Streams.{fresh}
use k8spodlogreceiver.Logline.Line.{Line}
use k8spodlogreceiver.Cursor.Serving.{Served}
use k8spodlogreceiver.Stream.{Stream}
use k8spodlogreceiver.Stream.Requests.{open_options, request-Served, Honours, PodLogOptions}

-- An API server that honours `since_time`.
abbrev from_second : PodLogOptions → List Line → List Line
from_second o log = elim o.since_time [
  | none ↦ log
  | some t ↦ keep_if (λ l. not (earlier l.timestamp (whole_second t))) log
]

abbrev at_time : ℕ → Line
at_time t = record { body = b'x' ∷ []; timestamp = t }

-- The second and the third line are of one second.
abbrev three_lines : List Line
three_lines = at_time 1500000000 ∷ at_time 2100000000 ∷ at_time 2900000000 ∷ []

abbrev two_read : Stream
two_read = record fresh { resume = record { ts = 2100000000; delivered = pos 1 } }

from_second-Honours : Honours from_second three_lines
from_second-Honours = record { since = λ o t e. rw e refl; full = λ o e f. rw e refl }

request-Served_example :
    Served two_read.resume (at_time 2100000000 ∷ at_time 2900000000 ∷ []) three_lines
request-Served_example =
    request-Served from_second three_lines two_read 3000000000 5
      (line (at_time 2100000000) 3000000001 ∷ line (at_time 2900000000) 3000000002 ∷ [])
      (omega arith, (omega arith, (omega arith, tt)))
      ((omega arith, (omega arith, tt)), ((omega arith, tt), (tt, tt))) from_second-Honours
      (inl refl) (inl (unfold open_options in refl))
