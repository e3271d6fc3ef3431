-- ===== src/Logline/Split.antt =====
-- internal/logline/split.go, and what it uses of the package bufio: ScanLines.
use k8spodlogreceiver.Prelude.{
  ℕ, suc, Bool, true, false, not, ◌&&◌, ◌||◌, Option, none, some, [], ◌∷◌, leb, ◌==◌, if◌then◌else◌,
  is_some, length, take, same, Bytes, bytes_eq,
}
use k8spodlogreceiver.Logline.Line.{index_byte}

-- Behavior
pub data Behavior : Type 0 where
  split_lines truncate_lines : Behavior

abbrev pub truncates : Behavior → Bool
truncates split_lines = false
truncates truncate_lines = true

-- BehaviorSplitName and BehaviorTruncateName
abbrev pub split_name : Bytes
split_name = b's' ∷ b'p' ∷ b'l' ∷ b'i' ∷ b't' ∷ []

abbrev pub truncate_name : Bytes
truncate_name = b't' ∷ b'r' ∷ b'u' ∷ b'n' ∷ b'c' ∷ b'a' ∷ b't' ∷ b'e' ∷ []

-- String
unfoldable pub behavior_name : Behavior → Bytes
behavior_name truncate_lines = truncate_name
behavior_name split_lines = split_name

-- ParseBehavior; `none` is the error.
unfoldable pub parse_behavior : Bytes → Option Behavior
parse_behavior s =
    if same s [] || same s split_name
    then some split_lines
    else if same s truncate_name
    then some truncate_lines
    else none

abbrev pub newline : ℕ
newline = 10

-- bufio's dropCR: without a carriage return at the end
unfoldable pub drop_cr : Bytes → Bytes
drop_cr [] = []
drop_cr (c ∷ []) = if c == 13 then [] else c ∷ []
drop_cr (c ∷ d ∷ cs) = c ∷ drop_cr (d ∷ cs)

-- bufio.ScanLines: how far to advance, and the token. Its first test, for no data at the end, is
-- the first clause.
unfoldable pub scan_lines : Bytes → Bool → ℕ × Option Bytes
scan_lines [] at_eof = (0, none)
scan_lines (c ∷ cs) at_eof = elim (index_byte newline (c ∷ cs)) [
  | some i ↦ (suc i, some (drop_cr (take i (c ∷ cs))))
  | none ↦ if at_eof then (length (c ∷ cs), some (drop_cr (c ∷ cs))) else (0, none)
]

-- What the split function returns, with its variable `skipping` and whether it called onOversize.
pub record Split : Type 0 where
  pub advance : ℕ
  pub token : Option Bytes
  pub skipping : Bool
  pub oversize : Bool

module _ (max_size : ℕ) (behavior : Behavior) where
  -- The rest of a truncated line.
  unfoldable pub skip_tail : Bytes → Bool → Split
  skip_tail buf at_eof = elim (index_byte newline buf) [
    | some i ↦ record { advance = suc i; token = none; skipping = false; oversize = false }
    | none ↦
        if at_eof
        then record { advance = length buf; token = none; skipping = false; oversize = false }
        else if leb max_size (length buf)
        then record { advance = length buf; token = none; skipping = true; oversize = false }
        else record { advance = 0; token = none; skipping = true; oversize = false }
  ]

  unfoldable pub next_line : Bool → Bytes → Bool → Split
  next_line skipping buf at_eof =
      let (advance, token) = scan_lines buf at_eof in
      if (advance == 0 && not (is_some token)) && leb max_size (length buf)
      then record {
        advance = max_size;
        token = some (take max_size buf);
        skipping = truncates behavior || skipping;
        oversize = true;
      }
      else record { advance = advance; token = token; skipping = skipping; oversize = false }

  -- The function that SplitFunc returns
  unfoldable pub split_func : Bool → Bytes → Bool → Split
  unfolding skip_tail next_line
  split_func skipping buf at_eof =
      if truncates behavior && skipping then skip_tail buf at_eof else next_line skipping buf at_eof
