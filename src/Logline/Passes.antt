-- ===== src/Logline/Passes.antt =====
-- One pass of the scanner's loop.
use k8spodlogreceiver.Prelude.{
  ℕ, ◌+◌, ◌*◌, ◌/◌, ◌≤◌, ◌<◌, ◌≡◌, refl, sym, ap, ◌∙◌, inl, inr, Bool, true, false, ◌&&◌, ◌||◌,
  none, [], ◌∷◌, ◌++◌, arith, ltb, ◌==◌, if◌then◌else◌, Bool-cases, length, drop, length-drop,
  Bytes, bytes_eq,
}
use k8spodlogreceiver.Logline.Tokens.{finishes, drops, yields, Splits}
use mathlib.Core.Path.{subst}
use mathlib.Core.List.{append_assoc, append-nil}
use k8spodlogreceiver.Logline.Split.{Split, Behavior}
use k8spodlogreceiver.Logline.Records.{records}
use k8spodlogreceiver.Logline.Scanner.{
  read_more, shift, after_split, grow, half_int, Scan, least, buf_end, read,
}
use k8spodlogreceiver.Logline.Scanned.{work, OnTheWay, Ready, OnTheWay-read}

module _ (max_size : ℕ) (behavior : Behavior) (text : Bytes) where
  records-nil : (sk : Bool) → records max_size behavior sk [] [] ≡ []
  unfolding records
  records-nil true = refl
  records-nil false = refl

  -- Where the data and the end of the buffer stand when there is room for a read.
  record Room (s t : Scan) : Type 0 where
    start' : ℕ
    size' : ℕ
    moved : t ≡ record s { start = start'; size = size' }
    free : start' + length s.pending < size'
    small : size' ≤ max_size

  module _ (fits : max_size ≤ half_int) where
    Room-grow :
        (s : Scan)
        → buf_end s ≤ s.size
        → s.size ≤ max_size
        → 0 < s.size
        → length s.pending < max_size
        → Room s (grow max_size (shift s))
    unfolding grow shift
    Room-grow s room small sized short =
        elim (Bool-cases (ltb 0 s.start && (buf_end s == s.size || ltb (s.size / 2) s.start))) [
          | inl h ↦ record {
            start' = 0;
            size' = s.size;
            moved = ground (arith, h);
            free = ground (arith, h);
            small = small;
          }
          | inr h ↦ elim (Bool-cases (buf_end s == s.size)) [
            | inl e ↦ record {
              start' = 0;
              size' = least (s.size * 2) max_size;
              moved = ground (arith, h, e);
              free = ground (arith, h, e);
              small = ground arith;
            }
            | inr e ↦ record {
              start' = s.start;
              size' = s.size;
              moved = ground (arith, h, e);
              free = ground (arith, e);
              small = small;
            }
          ]
        ]

    -- One pass, while Scan has not returned false.
    pub record Advances (s t : Scan) : Type 0 where
      pub on_the_way : OnTheWay max_size behavior text t
      pub less : work t < work s

    pub Advances-after_split :
        (s : Scan) (r : Split)
        → OnTheWay max_size behavior text s
        → s.stopped ≡ false
        → Splits max_size behavior s.skipping s.pending s.ended r
        → Advances s (after_split max_size behavior false s r)
    unfolding after_split
    Advances-after_split s _ o run (yields adv t sk ov pos le mode ends step) = record {
      on_the_way = record {
        room = omega (arith, o.room, length-drop adv s.pending);
        small = o.small;
        sized = o.sized;
        fine = o.fine;
        mode = mode;
        at_end = λ h. ((o.at_end h).0, omega (arith, (o.at_end h).1, length-drop adv s.pending));
        left = λ h e. absurd (ground (arith, e, ends h));
        done = λ h. absurd (ground (arith, run));
        future =
            append_assoc s.tokens (t ∷ []) _
            ∙ ap (λ xs. s.tokens ++ xs) (sym (step s.rest (λ h. (o.at_end h).0)))
            ∙ o.future;
      };
      less = ground (arith, run, length-drop adv s.pending);
    }
    Advances-after_split s _ o run (drops adv sk going le short mode none_left step) =
        subst (Advances s) (sym value)
          (record { on_the_way = (OnTheWay-read max_size behavior text s'' ready).0; less = less })
      where
        s' : Scan
        s' = record s { pending = drop adv s.pending; start = s.start + adv; skipping = sk }

        m : Room s' (grow max_size (shift s'))
        m =
            Room-grow s' (omega (arith, o.room, le, length-drop adv s.pending)) o.small o.sized
              (omega (arith, short, length-drop adv s.pending))

        s'' : Scan
        s'' = record s' { start = m.start'; size = m.size' }

        reads :
            s.ended ≡ false
            → after_split max_size behavior false s
                (record { advance = adv; token = none; skipping = sk; oversize = false })
              ≡ read_more max_size behavior false (grow max_size (shift s'))
        reads h =
            ap
              (λ b.
                if b
                then record s' { pending = []; start = 0; stopped = true }
                else read_more max_size behavior false (grow max_size (shift s')))
              h

        value :
            after_split max_size behavior false s
              (record { advance = adv; token = none; skipping = sk; oversize = false })
            ≡ read max_size behavior false s''
        value =
            reads going
            ∙ ap (read_more max_size behavior false) m.moved
            ∙ ap (λ b. if b then s'' else read max_size behavior false s'') run

        ready : Ready max_size behavior text s''
        ready = record {
          free = m.free;
          small = m.small;
          fine = o.fine;
          mode = mode;
          left = none_left;
          running = run;
          short = omega (arith, short, length-drop adv s.pending);
          future = ap (λ xs. s.tokens ++ xs) (sym (step s.rest)) ∙ o.future;
        }

        less : work (read max_size behavior false s'') < work s
        less = ground (
          arith,
          (OnTheWay-read max_size behavior text s'' ready).1,
          length-drop adv s.pending,
          run,
          going,
        )
    Advances-after_split s _ o run (finishes adv sk h mode step) =
        rw (h, after_split)
          (record {
            on_the_way = record {
              room = omega arith;
              small = o.small;
              sized = o.sized;
              fine = o.fine;
              mode = mode;
              at_end = λ _. (nothing, omega (arith, (o.at_end h).1));
              left = λ _ _. tt;
              done = λ _. (refl, nothing);
              future =
                  ap (λ xs. s.tokens ++ xs)
                    (ap (records max_size behavior sk []) nothing
                      ∙ records-nil sk
                      ∙ sym step
                      ∙ ap (records max_size behavior s.skipping [])
                          (sym (append-nil s.pending) ∙ ap (λ xs. s.pending ++ xs) (sym nothing)))
                  ∙ o.future;
            };
            less = ground (arith, run);
          })
      where
        nothing : s.rest ≡ []
        nothing = (o.at_end h).0
