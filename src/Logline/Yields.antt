-- ===== src/Logline/Yields.antt =====
-- A log scanned to its end.
use k8spodlogreceiver.Prelude.{
  ℕ, zero, suc, ◌+◌, ◌*◌, ◌≤◌, ◌<◌, ◌≡◌, refl, sym, ap, ◌∙◌, inl, inr, Bool, true, false, not, ◌&&◌,
  List, [], ◌++◌, arith, if◌then◌else◌, Bool-cases, length, same, same_iff, Bytes, bytes_eq,
}
use mathlib.Core.Path.{subst}
use mathlib.Core.List.{append-nil}
use k8spodlogreceiver.Logline.Split.{Behavior}
use k8spodlogreceiver.Logline.Records.{records, NoNewline}
use k8spodlogreceiver.Logline.Tokens.{Splits, drops, Splits-split_func}
use k8spodlogreceiver.Logline.Scanner.{
  Scan, ask, half_int, new_scanner, after_split, scan_step, scan,
}
use k8spodlogreceiver.Logline.Scanned.{OnTheWay, work}
use k8spodlogreceiver.Logline.Passes.{Advances, Advances-after_split}

module _ (max_size : ℕ) (behavior : Behavior) (text : Bytes) (positive : 0 < max_size)
    (fits : max_size ≤ half_int) where
  Splits-ask :
      (s : Scan)
      → OnTheWay max_size behavior text s
      → Splits max_size behavior s.skipping s.pending s.ended (ask max_size behavior false s)
  unfolding ask
  Splits-ask s o = elim (Bool-cases (same s.pending [] && not s.ended)) [
    | inl h ↦
        let e = (same_iff s.pending []).0 (ground (arith, h)) in
        rw (h, ask)
          (drops 0 s.skipping (ground (arith, h)) (omega arith) (omega (arith, ap length e)) o.mode
            (λ _. subst NoNewline (sym e) tt) (λ rest. refl))
    | inr h ↦
        rw (h, ask)
          (Splits-split_func max_size behavior positive s.skipping s.ended s.pending
            (omega (arith, o.room, o.small)) o.mode (λ e. (o.at_end e).1) o.left)
  ]

  Advances-scan_step :
      (s : Scan)
      → OnTheWay max_size behavior text s
      → s.stopped ≡ false
      → Advances max_size behavior text fits s (scan_step max_size behavior false s)
  unfolding scan_step
  Advances-scan_step s o run =
      subst (Advances max_size behavior text fits s)
        (sym (
          ap
            (λ b.
              if b
              then s
              else after_split max_size behavior false s (ask max_size behavior false s))
            run))
        (Advances-after_split max_size behavior text fits s (ask max_size behavior false s) o run
          (Splits-ask s o))

  scan_step-stopped : (s : Scan) → s.stopped ≡ true → scan_step max_size behavior false s ≡ s
  unfolding scan_step
  scan_step-stopped s h =
      ap
        (λ b.
          if b then s else after_split max_size behavior false s (ask max_size behavior false s))
        h

  OnTheWay-scan :
      (fuel : ℕ) (s : Scan)
      → OnTheWay max_size behavior text s
      → work s ≤ fuel
      → OnTheWay max_size behavior text (scan max_size behavior false fuel s)
        × ((scan max_size behavior false fuel s).stopped ≡ true)
  unfolding scan
  OnTheWay-scan zero s o le = (o, ground arith)
  OnTheWay-scan (suc fuel) s o le = elim (Bool-cases s.stopped) [
    | inl h ↦
        let e = sym (scan_step-stopped s h) in
        OnTheWay-scan fuel (scan_step max_size behavior false s)
          (subst (OnTheWay max_size behavior text) e o)
          (subst (λ t. work t ≤ fuel) e (ground (arith, h)))
    | inr h ↦
        let a = Advances-scan_step s o h in
        OnTheWay-scan fuel (scan_step max_size behavior false s) a.on_the_way
          (omega (arith, a.less))
  ]

  OnTheWay-new :
      (wishes : List ℕ) → OnTheWay max_size behavior text (new_scanner max_size text wishes)
  unfolding new_scanner
  OnTheWay-new wishes = record {
    room = omega arith;
    small = ground arith;
    sized = ground arith;
    fine = refl;
    mode = λ h. absurd (ground (arith, h));
    at_end = λ h. absurd (ground (arith, h));
    left = λ h. absurd (ground (arith, h));
    done = λ h. absurd (ground (arith, h));
    future = refl;
  }

  left_of_nothing : (sk : Bool) → records max_size behavior sk [] [] ≡ []
  unfolding records
  left_of_nothing true = refl
  left_of_nothing false = refl

  -- The scanner, with a largest size from 1 to 2^62 - 1, on a reader that gives the text in parts of any
  -- sizes and then ends, cleanly or by an error, in a read of its own: within `2 * length text + 2`
  -- passes of its loop it stops, never because a token was too long for the buffer, and it has
  -- yielded exactly the records of the text, however the reads were cut.
  pub scan-records :
      (wishes : List ℕ)
      → let s =
          scan max_size behavior false (2 * length text + 2) (new_scanner max_size text wishes) in
        (s.stopped ≡ true)
        × (s.too_long ≡ false)
        × (s.tokens ≡ records max_size behavior false [] text)
  unfolding new_scanner
  scan-records wishes = (
    w.1,
    w.0.fine,
    sym (append-nil _)
        ∙ ap (λ xs. s.tokens ++ xs)
            (sym (left_of_nothing s.skipping)
              ∙ ap (records max_size behavior s.skipping [])
                  (sym (ap (λ xs. xs ++ s.rest) (w.0.done w.1).0 ∙ (w.0.done w.1).1)))
        ∙ w.0.future,
  )
    where
      s : Scan
      s = scan max_size behavior false (2 * length text + 2) (new_scanner max_size text wishes)

      w : OnTheWay max_size behavior text s × (s.stopped ≡ true)
      w =
          OnTheWay-scan (2 * length text + 2) (new_scanner max_size text wishes)
            (OnTheWay-new wishes) (omega arith)
