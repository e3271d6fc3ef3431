-- ===== src/Logline/Records.antt =====
-- What the scanner is to yield of a log, byte by byte, whatever the reads and the buffer.
use k8spodlogreceiver.Prelude.{
  ℕ, suc, ◌+◌, ◌<◌, ◌≡◌, refl, ap, ◌∙◌, ◌⊎◌, inl, inr, Bool, true, false, none, some, List, [], ◌∷◌,
  ◌++◌, arith, leb, ◌==◌, ==_iff, Bool-cases, length, take, drop, All, length-append, Bytes,
  bytes_eq,
}
use mathlib.Core.List.{append_assoc, append-nil}
use k8spodlogreceiver.Logline.Line.{index_byte}
use k8spodlogreceiver.Logline.Split.{Behavior, truncates, newline, drop_cr}

-- The last record, where the log does not end with a newline.
abbrev pub last_record : Bytes → List Bytes
last_record [] = []
last_record (c ∷ cs) = drop_cr (c ∷ cs) ∷ []

module _ (max_size : ℕ) (behavior : Behavior) where
  -- The records of a log of which the bytes `cur` of the current line were read, or where a
  -- truncated line is skipped: a line ends at a newline, or where it has `max_size` bytes, and
  -- then the rest of it is a line of its own or is skipped.
  unfoldable pub records : Bool → Bytes → Bytes → List Bytes
  records true cur [] = []
  records true cur (c ∷ cs) = elim (c == newline) [
    | true ↦ records false [] cs
    | false ↦ records true [] cs
  ]
  records false cur [] = last_record cur
  records false cur (c ∷ cs) = elim (c == newline) [
    | true ↦ drop_cr cur ∷ records false [] cs
    | false ↦ elim (leb max_size (length (cur ++ c ∷ []))) [
      | true ↦ (cur ++ c ∷ []) ∷ records (truncates behavior) [] cs
      | false ↦ records false (cur ++ c ∷ []) cs
    ]
  ]

abbrev pub NotNewline : ℕ → Type 0
NotNewline c = c == newline ≡ false

abbrev pub NoNewline : Bytes → Type 0
NoNewline = All NotNewline

-- Where the first newline is.
pub record Cut (i : ℕ) (xs : Bytes) : Type 0 where
  pub cut : xs ≡ take i xs ++ (newline ∷ drop (suc i) xs)
  pub before : NoNewline (take i xs)
  pub inside : i < length xs

pub index_byte-cases :
    (xs : Bytes)
    → ((i : ℕ) × (index_byte newline xs ≡ some i) × Cut i xs)
      ⊎ ((index_byte newline xs ≡ none) × NoNewline xs)
unfolding index_byte
index_byte-cases [] = inr (refl, tt)
index_byte-cases (c ∷ cs) = elim (Bool-cases (c == newline)) [
  | inl h ↦ inl (
    0,
    rw h refl,
    record { cut = ap (λ x. x ∷ cs) ((==_iff c newline).0 h); before = tt; inside = omega arith },
  )
  | inr h ↦ elim (index_byte-cases cs) [
    | inl (i, e, k) ↦ inl (
      suc i,
      rw (h, e) refl,
      record {
        cut = ap (λ xs. c ∷ xs) k.cut;
        before = (h, k.before);
        inside = omega (arith, k.inside);
      },
    )
    | inr (e, k) ↦ inr (rw (h, e) refl, (h, k))
  ]
]

pub length-snoc : (xs : Bytes) (x : ℕ) → length (xs ++ x ∷ []) ≡ length xs + 1
length-snoc xs x = length-append xs (x ∷ [])

module _ (max_size : ℕ) (behavior : Behavior) where
  records-more :
      (cur cs : Bytes) (c : ℕ)
      → NotNewline c
      → length cur + 1 < max_size
      → records max_size behavior false cur (c ∷ cs)
        ≡ records max_size behavior false (cur ++ c ∷ []) cs
  unfolding records
  records-more cur cs c h l = rw (h, le, records) refl
    where
      le : leb max_size (length (cur ++ c ∷ [])) ≡ false
      le = ground (arith, length-snoc cur c)

  records-chop :
      (cur cs : Bytes) (c : ℕ)
      → NotNewline c
      → length cur + 1 ≡ max_size
      → records max_size behavior false cur (c ∷ cs)
        ≡ (cur ++ c ∷ []) ∷ records max_size behavior (truncates behavior) [] cs
  unfolding records
  records-chop cur cs c h l = rw (h, le, records) refl
    where
      le : leb max_size (length (cur ++ c ∷ [])) ≡ true
      le = ground (arith, length-snoc cur c)

  pub records-line :
      (cur xs ys : Bytes)
      → NoNewline xs
      → length cur + length xs < max_size
      → records max_size behavior false cur (xs ++ (newline ∷ ys))
        ≡ drop_cr (cur ++ xs) ∷ records max_size behavior false [] ys
  records-line cur [] ys h l = rw (append-nil cur) (unfold records in refl)
  records-line cur (x ∷ xs) ys h l =
      records-more cur (xs ++ (newline ∷ ys)) x h.0 (omega arith)
      ∙ records-line (cur ++ x ∷ []) xs ys h.1 (omega (arith, length-snoc cur x))
      ∙ ap (λ zs. drop_cr zs ∷ records max_size behavior false [] ys) (append_assoc cur (x ∷ []) xs)

  pub records-full :
      (cur xs ys : Bytes)
      → NoNewline xs
      → 0 < length xs
      → length cur + length xs ≡ max_size
      → records max_size behavior false cur (xs ++ ys)
        ≡ (cur ++ xs) ∷ records max_size behavior (truncates behavior) [] ys
  records-full cur [] ys h z l = absurd (omega arith)
  records-full cur (x ∷ []) ys h z l = records-chop cur ys x h.0 (omega arith)
  records-full cur (x ∷ y ∷ xs) ys h z l =
      records-more cur (y ∷ (xs ++ ys)) x h.0 (omega arith)
      ∙ records-full (cur ++ x ∷ []) (y ∷ xs) ys h.1 (omega arith)
          (omega (arith, length-snoc cur x))
      ∙ ap (λ zs. zs ∷ records max_size behavior (truncates behavior) [] ys)
          (append_assoc cur (x ∷ []) (y ∷ xs))

  pub records-end :
      (cur xs : Bytes)
      → NoNewline xs
      → length cur + length xs < max_size
      → records max_size behavior false cur xs ≡ last_record (cur ++ xs)
  records-end cur [] h l = rw (append-nil cur) (unfold records in refl)
  records-end cur (x ∷ xs) h l =
      records-more cur xs x h.0 (omega arith)
      ∙ records-end (cur ++ x ∷ []) xs h.1 (omega (arith, length-snoc cur x))
      ∙ ap last_record (append_assoc cur (x ∷ []) xs)

  pub records-skip :
      (xs ys : Bytes)
      → NoNewline xs
      → records max_size behavior true [] (xs ++ ys) ≡ records max_size behavior true [] ys
  unfolding records
  records-skip [] ys h = refl
  records-skip (x ∷ xs) ys h = rw (h.0, records) (records-skip xs ys h.1)
