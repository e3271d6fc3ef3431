-- ===== src/Cursor/Resume.antt =====
-- What the filter of a reconnect drops and what it forwards.
use k8spodlogreceiver.Prelude.{
  ℕ, zero, suc, ◌<◌, ◌≡◌, refl, sym, ap, ◌∙◌, inl, inr, true, false, List, [], ◌∷◌, ◌++◌, arith,
  Bool-cases, length, All, length-append, bytes_eq,
}
use k8spodlogreceiver.Prelude.Int.{dec-pos, max_int}
use k8spodlogreceiver.Cursor.Counting.{
  count_at-le-length, count_at_above, count_at-append, All-append_right, All-UpTo_mono, Stands-zero,
  Stands-record_all, Before, Stands, FromOrUnset, UpTo, untimed, count_at,
}
use k8spodlogreceiver.Cursor.{
  is_unset, ◌∷◌, false, true, pos, ℕ, Line, ℤ, Instant, List, Cursor, zero_cursor, record_all,
}
use k8spodlogreceiver.Cursor.Filter.{Filter, new_filter, keep, keep_all}

-- The filter of a connection that resumes at the timestamp `t` with `k` records still to drop.
abbrev pub resuming : Instant → ℕ → Filter
resuming t k = record { ts = t; skip = pos k; done = false }

abbrev finished : Instant → ℤ → Filter
finished t k = record { ts = t; skip = k; done = true }

pub keep_all-finished : (t : Instant) (k : ℤ) (ls : List Line) → keep_all (finished t k) ls ≡ ls
unfolding keep_all keep
keep_all-finished t k [] = refl
keep_all-finished t k (l ∷ ls) = ap (◌∷◌ l) (keep_all-finished t k ls)

-- With no record left to drop, lines from `t` on pass.
pub keep_all_rest :
    (t : Instant) (ls : List Line) → All (FromOrUnset t) ls → keep_all (resuming t 0) ls ≡ ls
unfolding keep_all keep
keep_all_rest t [] h = refl
keep_all_rest t (l ∷ ls) h = ground (arith, keep_all_rest t ls h.1, keep_all-finished t (pos 0) ls)

-- The re-read part: its timed lines are dropped.
keep_all_replay :
    (t : Instant) (k : ℕ) (mid post : List Line)
    → 0 < t
    → k < max_int
    → count_at t mid ≡ k
    → All (UpTo t) mid
    → keep_all (resuming t k) (mid ++ post) ≡ untimed mid ++ keep_all (resuming t 0) post
unfolding keep_all keep count_at untimed
keep_all_replay t k [] post z h e a = ground arith
keep_all_replay t zero (l ∷ mid) post z h e a =
    ground (arith, keep_all_replay t zero mid post z (omega arith))
keep_all_replay t (suc k) (l ∷ mid) post z h e a = ground (
  arith,
  keep_all_replay t k mid post z (omega arith),
  keep_all_replay t (suc k) mid post z h,
  dec-pos k,
)

untimed_of_zero : (ls : List Line) → All (UpTo 0) ls → untimed ls ≡ ls
unfolding untimed
untimed_of_zero [] a = refl
untimed_of_zero (l ∷ ls) a = ground (arith, untimed_of_zero ls a.1)

pub keep_all_from :
    (c : Cursor) (old mid post : List Line)
    → length (old ++ mid) < max_int
    → Stands c (old ++ mid)
    → All (Before c.ts) old
    → All (FromOrUnset c.ts) post
    → keep_all (new_filter c) (mid ++ post) ≡ untimed mid ++ post
unfolding new_filter
keep_all_from c old mid post h s b p = elim (Bool-cases (is_unset c.ts)) [
  | inl z ↦
      rw (z, new_filter)
        (keep_all-finished c.ts c.delivered (mid ++ post)
          ∙ ap (λ xs. xs ++ post)
              (sym (
                untimed_of_zero mid (
                  All-UpTo_mono c.ts 0 mid (ground arith)
                    (All-append_right (UpTo c.ts) old mid s.latest)))))
  | inr z ↦
      let k : ℕ = count_at c.ts mid in
      let e : c.delivered ≡ pos k =
        ground (arith, s.counted, count_at-append c.ts old mid, count_at_above c.ts old b) in
      rw (z, new_filter)
        (rw e (
          keep_all_replay c.ts k mid post (ground arith)
            (omega (arith, count_at-le-length c.ts mid, length-append old mid)) refl
            (All-append_right (UpTo c.ts) old mid s.latest)
          ∙ ap (λ xs. untimed mid ++ xs) (keep_all_rest c.ts post p)))
]

-- The connection that delivered the lines `old ++ mid`, timestamped in any order and less than
-- 2^63 - 1 of them, leaves a cursor. If the next connection is served again the lines `mid`, and
-- not `old`, all of them before the cursor's timestamp, and then new lines `post`, none of which
-- has a timestamp before the cursor's, it forwards every line of `post` exactly once and
-- in order, and of `mid` just the lines that carry no timestamp.
pub resume_exact :
    (old mid post : List Line)
    → length (old ++ mid) < max_int
    → All (Before (record_all zero_cursor (old ++ mid)).ts) old
    → All (FromOrUnset (record_all zero_cursor (old ++ mid)).ts) post
    → keep_all (new_filter (record_all zero_cursor (old ++ mid))) (mid ++ post)
      ≡ untimed mid ++ post
resume_exact old mid post h b p =
    keep_all_from _ old mid post h
      (Stands-record_all (old ++ mid) zero_cursor [] (omega arith) Stands-zero) b p
