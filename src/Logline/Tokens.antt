-- ===== src/Logline/Tokens.antt =====
-- One call of the split function, and the records that it takes off the data.
use k8spodlogreceiver.Prelude.{
  ℕ, suc, ◌-◌, ◌≤◌, ◌<◌, ◌≡◌, refl, sym, ap, ◌∙◌, inl, inr, Bool, true, false, ◌||◌, none, some, [],
  ◌∷◌, ◌++◌, arith, leb, Bool-cases, length, take, drop, length-take_le, Bytes, bytes_eq,
}
use mathlib.Core.Path.{subst}
use mathlib.Core.List.{append_assoc, append-nil}
use k8spodlogreceiver.Logline.Split.{
  Behavior, truncates, newline, drop_cr, scan_lines, Split, skip_tail, next_line, split_func,
}
use k8spodlogreceiver.Logline.Records.{
  records, NoNewline, Cut, index_byte-cases, records-line, records-full, records-end, records-skip,
}

take-length : (xs : Bytes) → take (length xs) xs ≡ xs
take-length [] = refl
take-length (x ∷ xs) = ap (λ ys. x ∷ ys) (take-length xs)

drop-length : (xs : Bytes) → drop (length xs) xs ≡ []
drop-length [] = refl
drop-length (x ∷ xs) = drop-length xs

NoNewline-Cut : (i : ℕ) (xs : Bytes) → NoNewline xs → Cut i xs → ⊥
NoNewline-Cut i xs h k = clash (take i xs) (drop (suc i) xs) (subst NoNewline k.cut h)
  where
    clash : (ys zs : Bytes) → NoNewline (ys ++ (newline ∷ zs)) → ⊥
    clash [] zs h = ground (arith, h.0)
    clash (y ∷ ys) zs h = clash ys zs h.1

module _ (max_size : ℕ) (behavior : Behavior) where
  -- What a call may return, for the data `buf`.
  pub data Splits (skipping : Bool) (buf : Bytes) (ended : Bool) : Split → Type 0 where
    yields :
        (advance : ℕ) (t : Bytes) (skipping' oversize : Bool)
        → 0 < advance
        → advance ≤ length buf
        → (skipping' ≡ true → truncates behavior ≡ true)
        → (ended ≡ true → skipping' ≡ false)
        → ((rest : Bytes)
            → (ended ≡ true → rest ≡ [])
            → records max_size behavior skipping [] (buf ++ rest)
              ≡ t ∷ records max_size behavior skipping' [] (drop advance buf ++ rest))
        → Splits skipping buf ended (record {
          advance = advance;
          token = some t;
          skipping = skipping';
          oversize = oversize;
        })
    drops :
        (advance : ℕ) (skipping' : Bool)
        → ended ≡ false
        → advance ≤ length buf
        → length buf - advance < max_size
        → (skipping' ≡ true → truncates behavior ≡ true)
        → (skipping' ≡ true → NoNewline (drop advance buf))
        → ((rest : Bytes)
            → records max_size behavior skipping [] (buf ++ rest)
              ≡ records max_size behavior skipping' [] (drop advance buf ++ rest))
        → Splits skipping buf ended
            (record { advance = advance; token = none; skipping = skipping'; oversize = false })
    finishes :
        (advance : ℕ) (skipping' : Bool)
        → ended ≡ true
        → (skipping' ≡ true → truncates behavior ≡ true)
        → records max_size behavior skipping [] buf ≡ []
        → Splits skipping buf ended
            (record { advance = advance; token = none; skipping = skipping'; oversize = false })

  by_value :
      {skipping ended : Bool} {buf : Bytes} {r r' : Split}
      → r ≡ r'
      → Splits skipping buf ended r'
      → Splits skipping buf ended r
  by_value {skipping} {ended} {buf} e s = subst (Splits skipping buf ended) (sym e) s

  records-resume :
      (xs ys : Bytes)
      → NoNewline xs
      → records max_size behavior true [] (xs ++ (newline ∷ ys))
        ≡ records max_size behavior false [] ys
  records-resume xs ys h =
      records-skip max_size behavior xs (newline ∷ ys) h ∙ unfold records in refl

  regroup-Cut :
      (i : ℕ) (buf rest : Bytes)
      → Cut i buf
      → buf ++ rest ≡ take i buf ++ (newline ∷ (drop (suc i) buf ++ rest))
  regroup-Cut i buf rest k =
      ap (λ xs. xs ++ rest) k.cut ∙ append_assoc (take i buf) (newline ∷ drop (suc i) buf) rest

  module _ (positive : 0 < max_size) where
    Splits-skip_tail :
        (buf : Bytes) (ended : Bool)
        → length buf ≤ max_size
        → truncates behavior ≡ true
        → (ended ≡ true → NoNewline buf)
        → Splits true buf ended (skip_tail max_size behavior buf ended)
    unfolding skip_tail
    Splits-skip_tail buf ended small cuts none_left = elim (index_byte-cases buf) [
      | inl (i, e, k) ↦ elim (Bool-cases ended) [
        | inl h ↦ absurd (NoNewline-Cut i buf (none_left h) k)
        | inr h ↦ by_value (rw (e, skip_tail) refl) (
            drops (suc i) false h k.inside (omega (arith, k.inside)) (λ e. absurd (ground arith))
              (λ e. absurd (ground arith))
              (λ rest.
                ap (records max_size behavior true []) (regroup-Cut i buf rest k)
                ∙ records-resume (take i buf) (drop (suc i) buf ++ rest) k.before))
      ]
      | inr (e, n) ↦ elim (Bool-cases ended) [
        | inl h ↦ by_value (rw (e, h, skip_tail) refl) (
            finishes (length buf) false h (λ e. absurd (ground arith))
              (ap (records max_size behavior true []) (sym (append-nil buf))
                ∙ records-skip max_size behavior buf [] n
                ∙ unfold records in refl))
        | inr h ↦ elim (Bool-cases (leb max_size (length buf))) [
          | inl l ↦ by_value (rw (e, h, l, skip_tail) refl) (
              drops (length buf) true h (omega arith) (omega arith) (λ e. cuts)
                (λ e. rw (drop-length buf) tt)
                (λ rest.
                  records-skip max_size behavior buf rest n
                  ∙ ap (λ xs. records max_size behavior true [] (xs ++ rest))
                      (sym (drop-length buf))))
          | inr l ↦
              by_value (rw (e, h, l, skip_tail) refl)
                (drops 0 true h (omega arith) (ground arith) (λ e. cuts) (λ e. n) (λ rest. refl))
        ]
      ]
    ]

    full_data :
        (buf : Bytes)
        → length buf ≤ max_size
        → leb max_size (length buf) ≡ true
        → (take max_size buf ≡ buf) × (drop max_size buf ≡ [])
    full_data buf small full =
        (ap (λ n. take n buf) e ∙ take-length buf, ap (λ n. drop n buf) e ∙ drop-length buf)
      where
        e : max_size ≡ length buf
        e = ground arith

    Splits-next_line :
        (buf : Bytes) (ended : Bool)
        → length buf ≤ max_size
        → (ended ≡ true → length buf < max_size)
        → Splits false buf ended (next_line max_size behavior false buf ended)
    unfolding next_line scan_lines
    Splits-next_line [] ended small ends = elim (Bool-cases ended) [
      | inl h ↦
          by_value (ground arith)
            (finishes 0 false h (λ e. absurd (ground arith)) (unfold records in refl))
      | inr h ↦ by_value (ground arith) (
          drops 0 false h (omega arith) (omega arith) (λ e. absurd (ground arith)) (λ e. tt)
            (λ rest. refl))
    ]
    Splits-next_line (c ∷ cs) ended small ends = elim (index_byte-cases (c ∷ cs)) [
      | inl (i, e, k) ↦ by_value (rw (e, next_line, scan_lines) (ground arith)) (
          yields (suc i) (drop_cr (take i (c ∷ cs))) false false (omega arith) k.inside
            (λ e. absurd (ground arith)) (λ e. refl)
            (λ rest _.
              ap (records max_size behavior false []) (regroup-Cut i (c ∷ cs) rest k)
              ∙ records-line max_size behavior [] (take i (c ∷ cs)) (drop (suc i) (c ∷ cs) ++ rest)
                  k.before (omega (arith, k.inside, length-take_le i (c ∷ cs)))))
      | inr (e, n) ↦ elim (Bool-cases ended) [
        | inl h ↦ by_value (rw (e, h, next_line, scan_lines) (ground arith)) (
            yields (length (c ∷ cs)) (drop_cr (c ∷ cs)) false false (omega arith) (omega arith)
              (λ e. absurd (ground arith)) (λ e. refl)
              (λ rest z.
                rw (z h, append-nil (c ∷ cs), drop-length cs)
                  (records-end max_size behavior [] (c ∷ cs) n (omega (arith, ends h))
                    ∙ unfold records in refl)))
        | inr h ↦ elim (Bool-cases (leb max_size (length (c ∷ cs)))) [
          | inl l ↦ by_value (rw (e, h, next_line, scan_lines) (ground (arith, l))) (
              yields max_size (take max_size (c ∷ cs)) (truncates behavior || false) true positive
                (ground (arith, l)) (λ e. ground (arith, e)) (λ e. absurd (ground (arith, e, h)))
                (λ rest _.
                  let w = full_data (c ∷ cs) small l in
                  rw (w.0, w.1)
                    (records-full max_size behavior [] (c ∷ cs) rest n (omega arith)
                        (ground (arith, l))
                      ∙ ground arith)))
          | inr l ↦ by_value (rw (e, h, next_line, scan_lines) (ground (arith, l))) (
              drops 0 false h (omega arith) (ground (arith, l)) (λ e. absurd (ground arith))
                (λ e. n) (λ rest. refl))
        ]
      ]
    ]

    -- The split function, within the bounds that the scanner keeps.
    pub Splits-split_func :
        (skipping ended : Bool) (buf : Bytes)
        → length buf ≤ max_size
        → (skipping ≡ true → truncates behavior ≡ true)
        → (ended ≡ true → length buf < max_size)
        → (ended ≡ true → skipping ≡ true → NoNewline buf)
        → Splits skipping buf ended (split_func max_size behavior skipping buf ended)
    unfolding split_func
    Splits-split_func true ended buf small mode ends none_left =
        by_value (rw (mode refl, split_func) refl)
          (Splits-skip_tail buf ended small (mode refl) (λ e. none_left e refl))
    Splits-split_func false ended buf small mode ends none_left =
        by_value (ground arith) (Splits-next_line buf ended small ends)
