-- ===== src/Logline/Line.antt =====
-- internal/logline/line.go
use k8spodlogreceiver.Prelude.{
  ℕ, suc, Option, none, some, [], ◌∷◌, ◌==◌, if◌then◌else◌, take, drop, Bytes, bytes_eq,
}
use k8spodlogreceiver.Instant.{Instant}

pub record Line : Type 0 where
  pub body : Bytes
  pub timestamp : Instant

-- strings.IndexByte and bytes.IndexByte; `none` is the result -1.
unfoldable pub index_byte : ℕ → Bytes → Option ℕ
index_byte b [] = none
index_byte b (c ∷ cs) =
    let rest = index_byte b cs in
    if c == b then some 0 else elim rest [ none ↦ none | some i ↦ some (suc i) ]

-- `parse` is `time.Parse` with the layout RFC3339Nano; `none` is its error.
module _ (parse : Bytes → Option Instant) where
  unfoldable pub with_timestamp : Bytes → ℕ → Option Instant → Line
  with_timestamp line idx none = record { body = line; timestamp = 0 }
  with_timestamp line idx (some ts) = record { body = drop (suc idx) line; timestamp = ts }

  unfoldable pub at_space : Bytes → Option ℕ → Line
  unfolding with_timestamp
  at_space line none = record { body = line; timestamp = 0 }
  at_space line (some idx) = with_timestamp line idx (parse (take idx line))

  unfoldable pub parse_leading_timestamp : Bytes → Line
  unfolding at_space index_byte
  parse_leading_timestamp line = at_space line (index_byte b' ' line)
