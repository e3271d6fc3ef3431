-- ===== src/Logline/Lossless.antt =====
-- How long the records are, and that splitting loses no byte.
use k8spodlogreceiver.Prelude.{
  ℕ, ◌+◌, ◌*◌, ◌≤◌, ◌<◌, ◌≡◌, refl, sym, ap, ◌∙◌, inl, inr, Bool, true, false, not, List, [], ◌∷◌,
  ◌++◌, arith, leb, ◌==◌, Bool-cases, length, keep_if, All, Bytes, bytes_eq,
}
use mathlib.Core.Path.{subst}
use mathlib.Core.List.{append_assoc, append-nil}
use k8spodlogreceiver.Logline.Split.{Behavior, split_lines, truncates, newline, drop_cr}
use k8spodlogreceiver.Logline.Records.{records, last_record, length-snoc}
use k8spodlogreceiver.Logline.Scanner.{half_int, new_scanner, scan}
use k8spodlogreceiver.Logline.Yields.{scan-records}

length-drop_cr : (xs : Bytes) → length (drop_cr xs) ≤ length xs
unfolding drop_cr
length-drop_cr [] = omega arith
length-drop_cr (c ∷ []) = ground arith
length-drop_cr (c ∷ d ∷ cs) = omega (arith, length-drop_cr (d ∷ cs))

abbrev pub AtMost : ℕ → Bytes → Type 0
AtMost n xs = length xs ≤ n

AtMost-last_record : (n : ℕ) (xs : Bytes) → length xs ≤ n → All (AtMost n) (last_record xs)
AtMost-last_record n [] h = tt
AtMost-last_record n (x ∷ xs) h = (omega (arith, length-drop_cr (x ∷ xs)), tt)

AtMost-records :
    (n : ℕ) (b : Behavior) (sk : Bool) (cur xs : Bytes)
    → length cur < n
    → All (AtMost n) (records n b sk cur xs)
unfolding records
AtMost-records n b true cur [] h = tt
AtMost-records n b true cur (x ∷ xs) h = elim (Bool-cases (x == newline)) [
  | inl e ↦ rw (e, records) (AtMost-records n b false [] xs (omega arith))
  | inr e ↦ rw (e, records) (AtMost-records n b true [] xs (omega arith))
]
AtMost-records n b false cur [] h = AtMost-last_record n cur (omega arith)
AtMost-records n b false cur (x ∷ xs) h = elim (Bool-cases (x == newline)) [
  | inl e ↦
      rw (e, records)
        ((omega (arith, length-drop_cr cur)), AtMost-records n b false [] xs (omega arith))
  | inr e ↦ elim (Bool-cases (leb n (length (cur ++ x ∷ [])))) [
    | inl l ↦
        rw (e, l, records)
          (omega (arith, length-snoc cur x), AtMost-records n b (truncates b) [] xs (omega arith))
    | inr l ↦ rw (e, l, records) (AtMost-records n b false (cur ++ x ∷ []) xs (ground (arith, l)))
  ]
]

-- The bytes of a list of records, one after the other.
abbrev pub joined : List Bytes → Bytes
joined [] = []
joined (t ∷ ts) = t ++ joined ts

-- The text without its newlines.
abbrev pub without_newlines : Bytes → Bytes
without_newlines = keep_if (λ c. not (c == newline))

abbrev pub NotReturn : ℕ → Type 0
NotReturn c = c == 13 ≡ false

pub drop_cr-same : (xs : Bytes) → All NotReturn xs → drop_cr xs ≡ xs
unfolding drop_cr
drop_cr-same [] h = refl
drop_cr-same (c ∷ []) h = rw (h.0, drop_cr) refl
drop_cr-same (c ∷ d ∷ cs) h = ap (λ xs. c ∷ xs) (drop_cr-same (d ∷ cs) h.1)

All-snoc_byte : (xs : Bytes) (x : ℕ) → All NotReturn xs → NotReturn x → All NotReturn (xs ++ x ∷ [])
All-snoc_byte [] x h k = (k, tt)
All-snoc_byte (y ∷ xs) x h k = (h.0, All-snoc_byte xs x h.1 k)

joined-last_record : (xs : Bytes) → All NotReturn xs → joined (last_record xs) ≡ xs
joined-last_record [] h = refl
joined-last_record (x ∷ xs) h = append-nil _ ∙ drop_cr-same (x ∷ xs) h

joined-records :
    (n : ℕ) (cur xs : Bytes)
    → All NotReturn cur
    → All NotReturn xs
    → joined (records n split_lines false cur xs) ≡ cur ++ without_newlines xs
unfolding records
joined-records n cur [] h k = joined-last_record cur h ∙ sym (append-nil cur)
joined-records n cur (x ∷ xs) h k = elim (Bool-cases (x == newline)) [
  | inl e ↦
      rw (e, records)
        (ap (λ ys. ys ++ joined (records n split_lines false [] xs)) (drop_cr-same cur h)
          ∙ ap (λ ys. cur ++ ys) (joined-records n [] xs tt k.1)
          ∙ ap (λ ys. cur ++ ys) (ground (arith, e)))
  | inr e ↦ elim (Bool-cases (leb n (length (cur ++ x ∷ [])))) [
    | inl l ↦
        rw (e, l, records)
          (ap (λ ys. (cur ++ x ∷ []) ++ ys) (joined-records n [] xs tt k.1)
            ∙ append_assoc cur (x ∷ []) (without_newlines xs)
            ∙ ap (λ ys. cur ++ ys) (ground (arith, e)))
    | inr l ↦
        rw (e, l, records)
          (joined-records n (cur ++ x ∷ []) xs (All-snoc_byte cur x h k.0) k.1
            ∙ append_assoc cur (x ∷ []) (without_newlines xs)
            ∙ ap (λ ys. cur ++ ys) (ground (arith, e)))
  ]
]

-- What the scanner has yielded when it stops, on a reader as above.
abbrev pub yielded : ℕ → Behavior → Bytes → List ℕ → List Bytes
yielded max_size behavior text wishes =
    (scan max_size behavior false (2 * length text + 2) (new_scanner max_size text wishes)).tokens

-- With a largest size from 1 to 2^62 - 1, no record is longer than that, split or truncated.
pub yielded-AtMost :
    (max_size : ℕ) (behavior : Behavior) (text : Bytes) (wishes : List ℕ)
    → 0 < max_size
    → max_size ≤ half_int
    → All (AtMost max_size) (yielded max_size behavior text wishes)
yielded-AtMost n b text wishes p f =
    subst (All (AtMost n)) (sym (scan-records n b text p f wishes).2)
      (AtMost-records n b false [] text p)

-- With a largest size from 1 to 2^62 - 1, and a text that has no carriage return, which bufio
-- drops at a line's end: split records hold, one after the other, every byte of the text but the
-- newlines, in order.
pub yielded-joined :
    (max_size : ℕ) (text : Bytes) (wishes : List ℕ)
    → 0 < max_size
    → max_size ≤ half_int
    → All NotReturn text
    → joined (yielded max_size split_lines text wishes) ≡ without_newlines text
yielded-joined n text wishes p f h =
    ap joined (scan-records n split_lines text p f wishes).2 ∙ joined-records n [] text tt h
