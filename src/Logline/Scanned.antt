-- ===== src/Logline/Scanned.antt =====
-- What holds while a text is scanned, and that a read keeps it.
use k8spodlogreceiver.Prelude.{
  ℕ, zero, suc, ◌+◌, ◌-◌, ◌*◌, ◌≤◌, ◌<◌, ◌≡◌, refl, sym, ap, ◌∙◌, inl, inr, true, false, ◌||◌, [],
  ◌∷◌, ◌++◌, arith, if◌then◌else◌, Bool-cases, length, take, drop, length-append, length-take_le,
  take-append-drop, same, same_iff, Bytes, bytes_eq,
}
use mathlib.Core.Path.{subst}
use mathlib.Core.List.{append_assoc, append-nil}
use k8spodlogreceiver.Logline.Split.{Behavior, truncates}
use k8spodlogreceiver.Logline.Records.{records, NoNewline}
use k8spodlogreceiver.Logline.Scanner.{Scan, least, buf_end, first_wish, read}

-- How much is left to do.
abbrev pub work : Scan → ℕ
work s =
    if s.stopped
    then 0
    else 1 + ((if s.ended then 0 else 1) + (2 * length s.rest + length s.pending))

module _ (max_size : ℕ) (behavior : Behavior) (text : Bytes) where
  -- A state on the way: the tokens so far, and the records of what is left, are those of the text.
  pub record OnTheWay (s : Scan) : Type 0 where
    pub room : buf_end s ≤ s.size
    pub small : s.size ≤ max_size
    pub sized : 0 < s.size
    pub fine : s.too_long ≡ false
    pub mode : s.skipping ≡ true → truncates behavior ≡ true
    pub at_end : s.ended ≡ true → (s.rest ≡ []) × (length s.pending < max_size)
    pub left : s.ended ≡ true → s.skipping ≡ true → NoNewline s.pending
    pub done : s.stopped ≡ true → (s.pending ≡ []) × (s.rest ≡ [])
    pub future :
        s.tokens ++ records max_size behavior s.skipping [] (s.pending ++ s.rest)
        ≡ records max_size behavior false [] text

  -- A state before a read.
  pub record Ready (s : Scan) : Type 0 where
    pub free : buf_end s < s.size
    pub small : s.size ≤ max_size
    pub fine : s.too_long ≡ false
    pub mode : s.skipping ≡ true → truncates behavior ≡ true
    pub left : s.skipping ≡ true → NoNewline s.pending
    pub running : s.stopped ≡ false
    pub short : length s.pending < max_size
    pub future :
        s.tokens ++ records max_size behavior s.skipping [] (s.pending ++ s.rest)
        ≡ records max_size behavior false [] text

  take-nil : (n : ℕ) → take {A = ℕ} n [] ≡ []
  take-nil zero = refl
  take-nil (suc n) = refl

  drop-nil : (n : ℕ) → drop {A = ℕ} n [] ≡ []
  drop-nil zero = refl
  drop-nil (suc n) = refl

  take_some : (n : ℕ) (xs : Bytes) → 0 < n → same xs [] ≡ false → 0 < length (take n xs)
  take_some zero xs z h = absurd (omega arith)
  take_some (suc n) [] z h = absurd (ground arith)
  take_some (suc n) (x ∷ xs) z h = omega arith

  pub OnTheWay-read :
      (s : Scan)
      → Ready s
      → OnTheWay (read max_size behavior false s)
        × (work (read max_size behavior false s) < 2 + (2 * length s.rest + length s.pending))
  unfolding read
  OnTheWay-read s r = (
    record {
      room =
          omega (
            arith,
            r.free,
            length-append s.pending (take n s.rest),
            length-take_le n s.rest,
            n_free,
          );
      small = r.small;
      sized = omega (arith, r.free);
      fine = r.fine;
      mode = r.mode;
      at_end = λ h.
          (rw (nothing_left h) (drop-nil n), omega (arith, r.short, ap length (same_pending h)));
      left = λ h e. subst NoNewline (sym (same_pending h)) (r.left e);
      done = λ h. absurd (ground (arith, r.running));
      future =
          ap (λ xs. s.tokens ++ records max_size behavior s.skipping [] xs)
            (append_assoc s.pending (take n s.rest) (drop n s.rest)
              ∙ ap (λ xs. s.pending ++ xs) (take-append-drop n s.rest))
          ∙ r.future;
    },
    less,
  )
    where
      n : ℕ
      n = least (first_wish max_size behavior false s.wishes + 1) (s.size - buf_end s)

      n_free : n ≤ s.size - buf_end s
      n_free = ground arith

      some_byte : 0 < n
      some_byte = ground (arith, r.free)

      nothing_left : same s.rest [] || false ≡ true → s.rest ≡ []
      nothing_left h = (same_iff s.rest []).0 (ground (arith, h))

      same_pending : same s.rest [] || false ≡ true → s.pending ++ take n s.rest ≡ s.pending
      same_pending h = rw (nothing_left h, take-nil n) (append-nil s.pending)

      less : work (read max_size behavior false s) < 2 + (2 * length s.rest + length s.pending)
      less = elim (Bool-cases (same s.rest [])) [
        | inl h ↦
            let e = nothing_left (ground (arith, h)) in
            ground (
              arith,
              r.running,
              h,
              ap length (same_pending (ground (arith, h))),
              ap length (drop-nil n),
              ap (λ xs. length (drop n xs)) e,
            )
        | inr h ↦ ground (
          arith,
          r.running,
          h,
          take_some n s.rest some_byte h,
          length-append s.pending (take n s.rest),
          length-append (take n s.rest) (drop n s.rest),
          ap length (take-append-drop n s.rest),
        )
      ]
