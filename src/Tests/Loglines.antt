-- ===== src/Tests/Loglines.antt =====
-- The scanner on concrete texts.
use k8spodlogreceiver.Prelude.{
  ℕ, ◌+◌, ◌*◌, ◌≡◌, refl, true, false, Option, none, some, [], ◌∷◌, ◌++◌, map, arith, if◌then◌else◌,
  length, All, same, Bytes, bytes_eq,
}
use k8spodlogreceiver.Logline.Line.{index_byte}
use k8spodlogreceiver.Logline.Split.{
  split_lines, truncate_lines, drop_cr, scan_lines, skip_tail, next_line, split_func,
}
use k8spodlogreceiver.Logline.Records.{records}
use k8spodlogreceiver.Logline.Scanner.{
  new_scanner, shift, grow, read, after_split, ask, scan_step, scan,
}
use k8spodlogreceiver.Logline.Yields.{scan-records}
use k8spodlogreceiver.Logline.Line.{parse_leading_timestamp}
use k8spodlogreceiver.Logline.ReadBack.{
  printed_log_cut_short, printed, Entry, Plain, printed_log, line_of, printed_log_read_back,
}
use k8spodlogreceiver.Logline.Lossless.{
  yielded-joined, without_newlines, joined, AtMost, yielded, yielded-AtMost,
}

-- "abcde\nf"
abbrev text : Bytes
text = b'a' ∷ b'b' ∷ b'c' ∷ b'd' ∷ b'e' ∷ 10 ∷ b'f' ∷ []

cut_up :
    yielded 3 split_lines text (1 ∷ [])
    ≡ ((b'a' ∷ b'b' ∷ b'c' ∷ []) ∷ (b'd' ∷ b'e' ∷ []) ∷ (b'f' ∷ []) ∷ [])
unfolding scan new_scanner scan_step ask after_split read grow shift split_func next_line skip_tail
    scan_lines drop_cr index_byte
cut_up = refl

cut_off : yielded 3 truncate_lines text (1 ∷ []) ≡ ((b'a' ∷ b'b' ∷ b'c' ∷ []) ∷ (b'f' ∷ []) ∷ [])
unfolding scan new_scanner scan_step ask after_split read grow shift split_func next_line skip_tail
    scan_lines drop_cr index_byte
cut_off = refl

-- A reader that reports its end together with its last bytes: the line behind the skipped tail of
-- the truncated one is lost.
line_lost :
    (scan 3 truncate_lines true 16
      (new_scanner 3 (b'a' ∷ b'b' ∷ b'c' ∷ b'd' ∷ 10 ∷ b'f' ∷ []) (2 ∷ 2 ∷ []))).tokens
    ≡ (b'a' ∷ b'b' ∷ b'c' ∷ []) ∷ []
unfolding scan new_scanner scan_step ask after_split read grow shift split_func next_line skip_tail
    scan_lines drop_cr index_byte
line_lost = refl

scan-records_example :
    let s = scan 3 split_lines false (2 * length text + 2) (new_scanner 3 text (1 ∷ [])) in
    (s.stopped ≡ true) × (s.too_long ≡ false) × (s.tokens ≡ records 3 split_lines false [] text)
scan-records_example = scan-records 3 split_lines text (omega arith) (omega arith) (1 ∷ [])

yielded-AtMost_example : All (AtMost 3) (yielded 3 truncate_lines text (1 ∷ []))
yielded-AtMost_example = yielded-AtMost 3 truncate_lines text (1 ∷ []) (omega arith) (omega arith)

-- A reader of one timestamp, "T".
abbrev pub parse_t : Bytes → Option ℕ
parse_t s = if same s (b'T' ∷ []) then some 5 else none

abbrev pub entry : Entry
entry = record { at = 5; stamp = b'T' ∷ []; body = b'h' ∷ b' ' ∷ b'i' ∷ [] }

pub plain : Plain parse_t 9 entry
plain = record {
  no_space = (refl, tt);
  reads = refl;
  one_line = (refl, (refl, (refl, (refl, (refl, tt)))));
  no_return = (refl, (refl, (refl, (refl, (refl, tt)))));
  short = omega arith;
}

printed_log_read_back_example :
    map
      (parse_leading_timestamp parse_t)
      (yielded 9 truncate_lines (printed_log (entry ∷ entry ∷ [])) (4 ∷ 1 ∷ []))
    ≡ map line_of (entry ∷ entry ∷ [])
printed_log_read_back_example =
    printed_log_read_back parse_t 9 truncate_lines (entry ∷ entry ∷ []) (4 ∷ 1 ∷ []) (omega arith)
      (omega arith) (plain, (plain, tt))

printed_log_cut_short_example :
    map
      (parse_leading_timestamp parse_t)
      (yielded 9 split_lines (printed_log (entry ∷ []) ++ printed entry) (4 ∷ 1 ∷ []))
    ≡ map line_of (entry ∷ []) ++ line_of entry ∷ []
printed_log_cut_short_example =
    printed_log_cut_short parse_t 9 split_lines (entry ∷ []) entry (4 ∷ 1 ∷ []) (omega arith)
      (omega arith) (plain, tt) plain

yielded-joined_example : joined (yielded 3 split_lines text (1 ∷ [])) ≡ without_newlines text
yielded-joined_example =
    yielded-joined 3 text (1 ∷ []) (omega arith) (omega arith)
      (refl, (refl, (refl, (refl, (refl, (refl, (refl, tt)))))))
