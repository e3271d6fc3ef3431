-- ===== src/Logline/ReadBack.antt =====
-- From the text of a log, as the kubelet prints it, back to its lines.
use k8spodlogreceiver.Prelude.{
  ℕ, suc, ◌≤◌, ◌<◌, ◌≡◌, refl, sym, ap, ◌∙◌, false, Option, some, List, [], ◌∷◌, ◌++◌, map, arith,
  ◌==◌, length, take, drop, All, Bytes, bytes_eq,
}
use mathlib.Core.Path.{ap₂}
use mathlib.Core.List.{append_assoc, append-nil}
use k8spodlogreceiver.Instant.{Instant}
use k8spodlogreceiver.Logline.Line.{
  Line, index_byte, with_timestamp, at_space, parse_leading_timestamp,
}
use k8spodlogreceiver.Logline.Split.{drop_cr, Behavior, newline}
use k8spodlogreceiver.Logline.Records.{records, records-line, records-end, last_record, NoNewline}
use k8spodlogreceiver.Logline.Scanner.{half_int}
use k8spodlogreceiver.Logline.Yields.{scan-records}
use k8spodlogreceiver.Logline.Lossless.{yielded, NotReturn, drop_cr-same}

-- A line as the kubelet has it: the timestamp, how it is printed, and what the container wrote.
pub record Entry : Type 0 where
  pub at : Instant
  pub stamp : Bytes
  pub body : Bytes

abbrev pub printed : Entry → Bytes
printed e = e.stamp ++ (b' ' ∷ e.body)

-- The text of a log.
abbrev pub printed_log : List Entry → Bytes
printed_log [] = []
printed_log (e ∷ es) = printed e ++ (newline ∷ printed_log es)

abbrev pub line_of : Entry → Line
line_of e = record { body = e.body; timestamp = e.at }

abbrev pub NotSpace : ℕ → Type 0
NotSpace c = c == b' ' ≡ false

index_byte-stamp :
    (xs ys : Bytes) → All NotSpace xs → index_byte b' ' (xs ++ (b' ' ∷ ys)) ≡ some (length xs)
unfolding index_byte
index_byte-stamp [] ys h = refl
index_byte-stamp (x ∷ xs) ys h = rw (h.0, index_byte-stamp xs ys h.1, index_byte) refl

take-stamp : (xs ys : Bytes) → take (length xs) (xs ++ ys) ≡ xs
take-stamp [] ys = refl
take-stamp (x ∷ xs) ys = ap (λ zs. x ∷ zs) (take-stamp xs ys)

drop-stamp : (xs ys : Bytes) (y : ℕ) → drop (suc (length xs)) (xs ++ (y ∷ ys)) ≡ ys
drop-stamp [] ys y = refl
drop-stamp (x ∷ xs) ys y = drop-stamp xs ys y

module _ (parse : Bytes → Option Instant) (max_size : ℕ) where
  -- A printed line that the receiver can take as it is: the printed timestamp has no space and is
  -- one that `parse` reads; the line has no newline or carriage return and is shorter than the
  -- largest record.
  pub record Plain (e : Entry) : Type 0 where
    pub no_space : All NotSpace e.stamp
    pub reads : parse e.stamp ≡ some e.at
    pub one_line : NoNewline (printed e)
    pub no_return : All NotReturn (printed e)
    pub short : length (printed e) < max_size

  parse_leading_timestamp-printed :
      (e : Entry) → Plain e → parse_leading_timestamp parse (printed e) ≡ line_of e
  unfolding parse_leading_timestamp at_space with_timestamp
  parse_leading_timestamp-printed e p =
      ap (at_space parse (printed e)) (index_byte-stamp e.stamp e.body p.no_space)
      ∙ ap (with_timestamp parse (printed e) (length e.stamp))
          (ap parse (take-stamp e.stamp (b' ' ∷ e.body)) ∙ p.reads)
      ∙ ap (λ b. record { body = b; timestamp = e.at }) (drop-stamp e.stamp e.body b' ')

  records-printed_log :
      (behavior : Behavior) (es : List Entry) (rest : Bytes)
      → All Plain es
      → map
          (parse_leading_timestamp parse)
          (records max_size behavior false [] (printed_log es ++ rest))
        ≡ map line_of es
          ++ map (parse_leading_timestamp parse) (records max_size behavior false [] rest)
  records-printed_log behavior [] rest h = refl
  records-printed_log behavior (e ∷ es) rest h =
      ap (λ xs. map (parse_leading_timestamp parse) (records max_size behavior false [] xs))
        (append_assoc (printed e) (newline ∷ printed_log es) rest)
      ∙ ap (map (parse_leading_timestamp parse)) (
          records-line max_size behavior [] (printed e) (printed_log es ++ rest) h.0.one_line
            (omega (arith, h.0.short)))
      ∙ ap₂ (λ l ls. l ∷ ls)
          (ap (parse_leading_timestamp parse) (drop_cr-same (printed e) h.0.no_return)
            ∙ parse_leading_timestamp-printed e h.0)
          (records-printed_log behavior es rest h.1)

  last_record-some :
      (xs ys : Bytes) (y : ℕ) → last_record (xs ++ (y ∷ ys)) ≡ drop_cr (xs ++ (y ∷ ys)) ∷ []
  last_record-some [] ys y = refl
  last_record-some (x ∷ xs) ys y = refl

  -- A log of printed lines, each of which `parse` reads, with no newline or carriage return inside,
  -- and shorter than the largest record of at most 2^62 - 1 bytes: whatever the sizes of the reads
  -- and the behaviour for long lines, the scanner's lines are the log's, with their timestamps.
  pub printed_log_read_back :
      (behavior : Behavior) (es : List Entry) (wishes : List ℕ)
      → 0 < max_size
      → max_size ≤ half_int
      → All Plain es
      → map (parse_leading_timestamp parse) (yielded max_size behavior (printed_log es) wishes)
        ≡ map line_of es
  printed_log_read_back behavior es wishes z f h =
      ap (map (parse_leading_timestamp parse))
        (scan-records max_size behavior (printed_log es) z f wishes).2
      ∙ ap (λ xs. map (parse_leading_timestamp parse) (records max_size behavior false [] xs))
          (sym (append-nil (printed_log es)))
      ∙ records-printed_log behavior es [] h
      ∙ unfold records in append-nil (map line_of es)

  -- A log of printed lines, with the conditions of `printed_log_read_back`, that breaks off inside a
  -- line, as when the connection fails, where `e` is what came of that line, its timestamp included:
  -- the scanner yields the part as a line of its own, with the timestamp of the whole line.
  pub printed_log_cut_short :
      (behavior : Behavior) (es : List Entry) (e : Entry) (wishes : List ℕ)
      → 0 < max_size
      → max_size ≤ half_int
      → All Plain es
      → Plain e
      → map
          (parse_leading_timestamp parse)
          (yielded max_size behavior (printed_log es ++ printed e) wishes)
        ≡ map line_of es ++ line_of e ∷ []
  printed_log_cut_short behavior es e wishes z f h k =
      ap (map (parse_leading_timestamp parse))
        (scan-records max_size behavior (printed_log es ++ printed e) z f wishes).2
      ∙ records-printed_log behavior es (printed e) h
      ∙ ap (λ ls. map line_of es ++ ls)
          (ap (map (parse_leading_timestamp parse)) (
              records-end max_size behavior [] (printed e) k.one_line (omega (arith, k.short))
              ∙ last_record-some e.stamp e.body b' '
              ∙ ap (λ l. l ∷ []) (drop_cr-same (printed e) k.no_return))
            ∙ ap (λ l. l ∷ []) (parse_leading_timestamp-printed e k))
