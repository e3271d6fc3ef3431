-- ===== src/Logline/Scanner.antt =====
-- internal/logline/scanner.go, and what it uses of the package bufio: the loop of Scanner.Scan.
use k8spodlogreceiver.Prelude.{
  ℕ, zero, suc, ◌+◌, ◌-◌, ◌*◌, ◌/◌, Bool, true, false, not, ◌&&◌, ◌||◌, none, some, List, [], ◌∷◌,
  ◌++◌, ltb, leb, ◌==◌, if◌then◌else◌, length, take, drop, same, Bytes, bytes_eq,
}
use k8spodlogreceiver.Logline.Split.{Split, Behavior, split_func}

-- bufio's Scanner, with the reader behind it. The reader gives the bytes `rest`, in parts whose
-- sizes `wishes` sets as far as the buffer has room, and then an error, io.EOF or another one.
pub record Scan : Type 0 where
  pub pending : Bytes  -- buf[start:end]
  pub start : ℕ
  pub size : ℕ  -- len(buf)
  pub skipping : Bool
  pub ended : Bool  -- err != nil, by a read
  pub too_long : Bool  -- bufio.ErrTooLong
  pub stopped : Bool  -- Scan has returned false
  pub rest : Bytes
  pub wishes : List ℕ
  pub tokens : List Bytes  -- what the calls of Scan have yielded
  pub oversized : ℕ  -- the calls of onOversize

-- The largest int, halved, and bufio's startBufSize
abbrev pub half_int : ℕ
half_int = 4611686018427387903

abbrev pub initial_buf_size : ℕ
initial_buf_size = 64 * 1024

abbrev pub least : ℕ → ℕ → ℕ
least a b = if ltb a b then a else b

-- NewScanner, on a reader of `text`
unfoldable pub new_scanner : ℕ → Bytes → List ℕ → Scan
new_scanner max_size text wishes = record {
  pending = [];
  start = 0;
  size = if ltb max_size initial_buf_size then max_size else initial_buf_size;
  skipping = false;
  ended = false;
  too_long = false;
  stopped = false;
  rest = text;
  wishes = wishes;
  tokens = [];
  oversized = 0;
}

abbrev pub buf_end : Scan → ℕ
buf_end s = s.start + length s.pending

-- The data moves to the front of the buffer.
unfoldable pub shift : Scan → Scan
shift s =
    if ltb 0 s.start && (buf_end s == s.size || ltb (s.size / 2) s.start)
    then record s { start = 0 }
    else s

-- A full buffer is doubled, up to the largest token.
unfoldable pub grow : ℕ → Scan → Scan
grow max_size s =
    if buf_end s == s.size
    then if leb max_size s.size || ltb half_int s.size
      then record s { too_long = true; stopped = true }
      else record s { size = least (if s.size == 0 then 4096 else s.size * 2) max_size; start = 0 }
    else s

-- `eager`: the reader reports its end together with its last bytes, not by a read of its own.
module _ (max_size : ℕ) (behavior : Behavior) (eager : Bool) where
  abbrev pub first_wish : List ℕ → ℕ
  first_wish [] = 0
  first_wish (w ∷ ws) = w

  -- r.Read: at least one byte, at most what the buffer has room for
  unfoldable pub read : Scan → Scan
  read s =
      let n = least (first_wish s.wishes + 1) (s.size - buf_end s) in
      record s {
        pending = s.pending ++ take n s.rest;
        rest = drop n s.rest;
        wishes = drop 1 s.wishes;
        ended = same s.rest [] || (eager && same (drop n s.rest) []);
      }

  abbrev pub read_more : Scan → Scan
  read_more s = if s.stopped then s else read s

  -- The part of the loop behind the split function.
  unfoldable pub after_split : Scan → Split → Scan
  unfolding read shift grow
  after_split s r =
      let s' = record s {
        pending = drop r.advance s.pending;
        start = s.start + r.advance;
        skipping = r.skipping;
        oversized = if r.oversize then s.oversized + 1 else s.oversized;
      } in
      elim r.token [
        | some t ↦ record s' { tokens = s.tokens ++ t ∷ [] }
        | none ↦
            if s.ended
            then record s' { pending = []; start = 0; stopped = true }
            else read_more (grow max_size (shift s'))
      ]

  -- The split function is not asked about no data before the end.
  unfoldable pub ask : Scan → Split
  ask s =
      if same s.pending [] && not s.ended
      then record { advance = 0; token = none; skipping = s.skipping; oversize = false }
      else split_func max_size behavior s.skipping s.pending s.ended

  -- One pass of the loop of Scan.
  unfoldable pub scan_step : Scan → Scan
  unfolding after_split ask
  scan_step s = if s.stopped then s else after_split s (ask s)

  unfoldable pub scan : ℕ → Scan → Scan
  unfolding scan_step
  scan zero s = s
  scan (suc fuel) s = scan fuel (scan_step s)
