-- ===== src/System/Behind.antt =====
-- A position behind which every line was brought in, and that the streams report only such ones.
use k8spodlogreceiver.Prelude.{
  Any-append_left, pick, Any, ℕ, ◌<◌, ◌≡◌, refl, sym, ◌∙◌, inl, inr, false, List, [], ◌∷◌, ◌++◌,
  arith, ltb, Bool-cases, length, All, length-append, Bytes, bytes_eq,
}
use mathlib.Core.List.{append-nil, append_assoc}
use mathlib.Core.Path.{subst}
use k8spodlogreceiver.Stream.Growing.{taken}
use k8spodlogreceiver.Stream.Moments.{StoodAt, Vouched, run-Vouching}
use k8spodlogreceiver.Receiver.{cursor_for}
use k8spodlogreceiver.Prelude.Int.{max_int}
use k8spodlogreceiver.Cursor.Counting.{Stands-zero, Stands}
use k8spodlogreceiver.Cursor.{is_zero, zero_cursor}
use k8spodlogreceiver.Stream.Delivery.{Exact}
use k8spodlogreceiver.System.Bringing.{Brings, Grows}
use k8spodlogreceiver.Cursor.Serving.{Ascending, Timed}
use k8spodlogreceiver.System.{
  now_at, Pod, another, this_one, Answers, Receiver, Cursor, Config, GetsOn, Live,
}
use k8spodlogreceiver.Container.{new_container_stream}
use k8spodlogreceiver.Logline.Line.{Line}

module _ (log : List Line) where
  abbrev pub AllBring : List Live → List Line → Type 0
  AllBring ls read = (i : ℕ) → i < length read → Any (Brings log i) ls

  -- The position stands after lines that the streams have brought in.
  pub record Behind (ls : List Live) (c : Cursor) : Type 0 where
    pub read : List Line
    pub tail : List Line
    pub cut : read ++ tail ≡ log
    pub stands : Stands c read
    pub all_bring : AllBring ls read

  -- How a stream began and what it has met.
  pub record Lived (all : List Live) (l : Live) : Type 0 where
    pub base : List Line
    pub began : Exact log base l.first
    pub quiet : l.first.reports ≡ []
    pub served : Answers log l.first l.met
    pub all_bring : AllBring all base

  pub Behind-Grows : (ls ms : List Live) (c : Cursor) → Grows log ls ms → Behind ls c → Behind ms c
  Behind-Grows ls ms c g b = record {
    read = b.read;
    tail = b.tail;
    cut = b.cut;
    stands = b.stands;
    all_bring = λ i h. g i (b.all_bring i h);
  }

  pub Lived-Grows :
      (ls ms : List Live) (streams : List Live)
      → Grows log ls ms
      → All (Lived ls) streams
      → All (Lived ms) streams
  Lived-Grows ls ms [] g h = tt
  Lived-Grows ls ms (l ∷ streams) g h = (
    record {
      base = h.0.base;
      began = h.0.began;
      quiet = h.0.quiet;
      served = h.0.served;
      all_bring = λ i k. g i (h.0.all_bring i k);
    },
    Lived-Grows ls ms streams g h.1,
  )

  pub Lived-GetsOn :
      (all : List Live) {ls ms : List Live}
      → GetsOn log ls ms
      → All (Lived all) ls
      → All (Lived all) ms
  Lived-GetsOn all (this_one l ls is f a) h = (
    record {
      base = h.0.base;
      began = h.0.began;
      quiet = h.0.quiet;
      served = a;
      all_bring = h.0.all_bring;
    },
    h.1,
  )
  Lived-GetsOn all (another l g) h = (h.0, Lived-GetsOn all g h.1)

  pub Behind-zero : (ls : List Live) → Behind ls zero_cursor
  Behind-zero ls = record {
    read = [];
    tail = log;
    cut = refl;
    stands = Stands-zero;
    all_bring = λ i h. absurd (omega (arith, h));
  }

  -- A stream begins where the receiver's position stands.
  pub Lived-new :
      (all : List Live) (cfg : Config) (r : Receiver) (pod : Pod) (name key : Bytes) (gen : ℕ)
      → Behind all (cursor_for r key)
      → Lived all (record { gen = gen; first = new_container_stream cfg r pod name key; met = [] })
  unfolding new_container_stream
  Lived-new all cfg r pod name key gen b = record {
    base = b.read;
    began = record {
      read = [];
      tail = b.tail;
      cut = b.cut;
      accepted_are = refl;
      stands = subst (Stands _) (sym (append-nil b.read)) b.stands;
    };
    quiet = refl;
    served = tt;
    all_bring = b.all_bring;
  }

  module _ (timed : All Timed log) (ascending : Ascending log) (short : length log < max_int) where
    stood :
        {base : List Line} {n : ℕ} (c : Cursor)
        → is_zero c ≡ false
        → Vouched log base n c
        → StoodAt log base n c
    stood c z (inl e) = absurd (ground (arith, z, e))
    stood c z (inr w) = w

    -- What a stream reports.
    pub Behind-report :
        (streams earlier : List Live) (gen : ℕ) (c : Cursor)
        → is_zero c ≡ false
        → All (Lived (streams ++ earlier)) streams
        → Any (λ l. (l.gen ≡ gen) × Any (λ d. d ≡ c) (now_at l).reports) streams
        → Behind (streams ++ earlier) c
    Behind-report streams earlier gen c z h q =
        let p = pick (Lived (streams ++ earlier)) _ streams h q in
        let v =
          run-Vouching log p.always.base p.item.first p.item.met timed ascending short
            p.always.served p.always.quiet p.always.began in
        let w = pick (Vouched log p.always.base (taken (now_at p.item))) _ _ v.reports p.this.1 in
        let s = stood w.item (subst (λ d. is_zero d ≡ false) (sym w.this) z) w.always in
        record {
          read = p.always.base ++ s.upto;
          tail = s.later;
          cut = append_assoc p.always.base s.upto s.later ∙ s.cut;
          stands = subst (λ d. Stands d (p.always.base ++ s.upto)) w.this s.stands;
          all_bring = λ i k. elim (Bool-cases (ltb i (length p.always.base))) [
            | inl e ↦ p.always.all_bring i (ground (arith, e))
            | inr e ↦ Any-append_left (Brings log i) streams earlier (
                p.stands_in (Brings log i) (record {
                  base = p.always.base;
                  began = p.always.began;
                  served = p.always.served;
                  from = ground (arith, e);
                  upto = omega (arith, k, s.within, length-append p.always.base s.upto);
                }))
          ];
        }
