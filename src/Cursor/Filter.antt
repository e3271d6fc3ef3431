-- ===== src/Cursor/Filter.antt =====
-- internal/cursor/filter.go: drops the records that a previous connection delivered.
use k8spodlogreceiver.Prelude.{Bool, true, false, List, [], ◌∷◌, if◌then◌else◌}
use k8spodlogreceiver.Prelude.Int.{ℤ, pos, ltb_ℤ, dec}
use k8spodlogreceiver.Instant.{Instant, is_unset, earlier, later}
use k8spodlogreceiver.Logline.Line.{Line}
use k8spodlogreceiver.Cursor.{Cursor, is_zero}

pub record Filter : Type 0 where
  pub ts : Instant
  pub skip : ℤ  -- Go's int
  pub done : Bool

-- NewFilter
unfoldable pub new_filter : Cursor → Filter
new_filter from = record { ts = from.ts; skip = from.delivered; done = is_zero from }

-- Keep: whether the record is forwarded, and the filter that the method leaves.
unfoldable pub keep : Filter → Instant → Bool × Filter
keep f t =
    if f.done
    then (true, f)
    else if is_unset t
    then (true, f)
    else if earlier t f.ts
    then (false, f)
    else if later t f.ts
    then (true, record f { done = true })
    else if ltb_ℤ (pos 0) f.skip
    then (false, record f { skip = dec f.skip })
    else (true, f)

-- The lines of a list that are forwarded.
unfoldable pub keep_all : Filter → List Line → List Line
keep_all f [] = []
keep_all f (l ∷ ls) =
    let rest = keep_all (keep f l.timestamp).1 ls in
    if (keep f l.timestamp).0 then l ∷ rest else rest
