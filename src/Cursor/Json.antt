-- ===== src/Cursor/Json.antt =====
-- internal/cursor/cursor.go: UnmarshalJSON, and what the positions of earlier versions mean. What
-- time.Time's UnmarshalJSON and json.Unmarshal into the two fields give is an argument.
use k8spodlogreceiver.Prelude.{
  ◌≡◌, refl, sym, ◌∙◌, inl, inr, Bool, true, false, not, List, [], ◌∷◌, arith, ◌==◌, if◌then◌else◌,
  Bool-cases, keep_if, All, Bytes, bytes_eq,
}
use mathlib.Core.Path.{subst}
use k8spodlogreceiver.Instant.{is_unset}
use k8spodlogreceiver.Cursor.Serving.{from_zero, Ascending, Timed}
use k8spodlogreceiver.Cursor.Counting.{FromOrUnset}
use k8spodlogreceiver.Cursor.{pos, Cursor}
use k8spodlogreceiver.Logline.Line.{Line}
use k8spodlogreceiver.Instant.{earlier, Instant}
use k8spodlogreceiver.Cursor.Resume.{resuming, keep_all_rest, keep_all-finished}
use k8spodlogreceiver.Cursor.Serving.{from_of_AtLeast}
use k8spodlogreceiver.Cursor.Filter.{new_filter, keep, keep_all}

-- What a decoder leaves, and whether it returns no error.
abbrev pub Decoder {ℓ} : Type ℓ → Type ℓ
Decoder A = Bytes → A × Bool

-- c.TS.UnmarshalJSON(raw), where the count is reset before
from_time : Instant × Bool → Cursor × Bool
from_time (t, fine) = (record { ts = t; delivered = pos 0 }, fine)

-- The part of UnmarshalJSON behind json.Unmarshal
from_wire : Cursor → Cursor × Bool → Cursor × Bool
from_wire c (w, fine) = (if fine then w else c, fine)

-- UnmarshalJSON: the cursor that it leaves, and whether it returns no error
unfoldable pub unmarshal_json : Decoder Instant → Decoder Cursor → Cursor → Bytes → Cursor × Bool
unfolding from_time from_wire
unmarshal_json time wire c [] = from_wire c (wire [])
unmarshal_json time wire c (b ∷ raw) =
    if b == b'"' then from_time (time (b ∷ raw)) else from_wire c (wire (b ∷ raw))

pub keep_if-All :
    (t : Instant) (ls : List Line)
    → All (FromOrUnset t) ls
    → All Timed ls
    → keep_if (λ l. not (earlier l.timestamp t)) ls ≡ ls
keep_if-All t [] h u = refl
keep_if-All t (l ∷ ls) h u = ground (arith, keep_if-All t ls h.1 u.1, h.0, u.0)

keep_all-uncounted :
    (t : Instant) (ls : List Line)
    → All Timed ls
    → Ascending ls
    → keep_all (resuming t 0) ls ≡ keep_if (λ l. not (earlier l.timestamp t)) ls
unfolding keep_all keep
keep_all-uncounted t [] u a = refl
keep_all-uncounted t (l ∷ ls) u a = elim (Bool-cases (earlier l.timestamp t)) [
  | inl e ↦ ground (arith, e, u.0, keep_all-uncounted t ls u.1 a.1)
  | inr e ↦ keep_all_rest t (l ∷ ls) (all_from e) ∙ sym (keep_if-All t (l ∷ ls) (all_from e) u)
]
  where
    all_from : earlier l.timestamp t ≡ false → All (FromOrUnset t) (l ∷ ls)
    all_from e = (inr (ground (arith, e)), from_of_AtLeast l.timestamp t ls (ground (arith, e)) a.0)

-- A position that an earlier version stored, a bare time which is read without an error, and a served
-- log, all of whose lines have timestamps, which never decrease: a connection that resumes from it
-- forwards exactly the lines that are not before that time, in order: those that carry it are
-- delivered again, none behind it is lost, and of the second that the time is in, which the server serves
-- from its start, the lines before the time are dropped: not the whole second comes again.
pub legacy_position :
    (time : Decoder Instant) (wire : Decoder Cursor) (c : Cursor) (raw : Bytes) (t : Instant)
    (ls : List Line)
    → time (b'"' ∷ raw) ≡ (t, true)
    → All Timed ls
    → Ascending ls
    → keep_all (new_filter (unmarshal_json time wire c (b'"' ∷ raw)).0) ls
      ≡ keep_if (λ l. not (earlier l.timestamp t)) ls
unfolding unmarshal_json new_filter
legacy_position time wire c raw t ls e u a = rw e (elim (Bool-cases (is_unset t)) [
  | inl z ↦ rw z (
      keep_all-finished t (pos 0) ls
      ∙ sym (
          keep_if-All t ls (subst (λ x. All (FromOrUnset x) ls) (ground (arith, z)) (from_zero ls))
            u))
  | inr z ↦ rw z (keep_all-uncounted t ls u a)
])
