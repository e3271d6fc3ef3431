-- ===== src/Receiver/Deletion.antt =====
-- What onPodDeleted removes.
use k8spodlogreceiver.Prelude.{
  ℕ, ◌≡◌, refl, sym, ap, ◌∙◌, inl, inr, Bool, true, false, not, ◌&&◌, ◌||◌, Option, none, some,
  List, [], ◌∷◌, ◌++◌, arith, ◌==◌, if◌then◌else◌, Bool-cases, same, same_iff, Bytes, bytes_eq,
}
use k8spodlogreceiver.Prelude.Maps.{lookup, has, lookup-remove}
use mathlib.Core.List.{append_assoc}
use k8spodlogreceiver.Pod.{Pod, Container, pod_containers}
use k8spodlogreceiver.Cursor.{zero_cursor}
use k8spodlogreceiver.Cursor.Store
use k8spodlogreceiver.Cursor.Store.{Store}
use k8spodlogreceiver.Receiver.{Receiver, key_of, delete_container, delete_all, on_pod_deleted}

-- The key belongs to one of the containers.
abbrev pub is_key_among : Pod → List Container → Bytes → Bool
is_key_among pod [] j = false
is_key_among pod (c ∷ cs) j = same (key_of pod c.name) j || is_key_among pod cs j

abbrev pub is_key_of : Pod → Bytes → Bool
is_key_of pod j = is_key_among pod (pod_containers pod) j

pub get-forget :
    (s : Store) (k j : Bytes)
    → Store.get (Store.forget s k) j ≡ (if same k j then zero_cursor else Store.get s j)
unfolding Store.get Store.forget
get-forget s k j = ground (arith, lookup-remove k j s.cursors)

-- The generation is one of those of the list.
abbrev pub member : ℕ → List ℕ → Bool
member g [] = false
member g (x ∷ xs) = x == g || member g xs

pub member-append_r : (g : ℕ) (xs ys : List ℕ) → member g ys ≡ true → member g (xs ++ ys) ≡ true
member-append_r g [] ys h = h
member-append_r g (x ∷ xs) ys h = ground (arith, member-append_r g xs ys h)

pub member-append_l : (g : ℕ) (xs ys : List ℕ) → member g xs ≡ true → member g (xs ++ ys) ≡ true
member-append_l g [] ys h = absurd (ground (arith, h))
member-append_l g (x ∷ xs) ys h = ground (arith, h, member-append_l g xs ys)

-- The cancel function of the handle, where there is one, is among those that were called.
abbrev pub is_called : Option ℕ → List ℕ → Bool
is_called none calls = true
is_called (some g) calls = member g calls

-- What a deletion leaves at the key `j`, if `gone` says whether `j` is one of the pod's.
pub record Deleted (r r' : Receiver) (inferred gone : Bool) (j : Bytes) : Type 0 where
  pub stream : lookup j r'.active_streams ≡ (if gone then none else lookup j r.active_streams)
  pub terminated : has j r'.terminated_containers ≡ (not gone && has j r.terminated_containers)
  pub drained : has j r'.drained_containers ≡ (not gone && has j r.drained_containers)
  pub cursor :
      Store.get r'.cursors j ≡ (if gone && not inferred then zero_cursor else Store.get r.cursors j)
  pub counts : r'.restart_counts ≡ r.restart_counts
  pub generation : r'.next_stream_gen ≡ r.next_stream_gen
  pub started : r'.started ≡ r.started
  pub calls : List ℕ  -- the cancel functions called
  pub cancelled : r'.cancelled ≡ calls ++ r.cancelled
  pub stopped : not gone || is_called (lookup j r.active_streams) calls ≡ true

Deleted-container :
    (r : Receiver) (inferred : Bool) (k j : Bytes)
    → Deleted r (delete_container r inferred k) inferred (same k j) j
unfolding delete_container
Deleted-container r inferred k j = record {
  stream = lookup-remove k j r.active_streams;
  terminated = ground (arith, lookup-remove k j r.terminated_containers);
  drained = ground (arith, lookup-remove k j r.drained_containers);
  cursor = ground (arith, get-forget r.cursors k j);
  counts = refl;
  generation = refl;
  started = refl;
  calls = elim (lookup k r.active_streams) [ none ↦ [] | some g ↦ g ∷ [] ];
  cancelled = ground arith;
  stopped = elim (Bool-cases (same k j)) [
    | inr e ↦ ground (arith, e)
    | inl e ↦ ground (arith, e, ap (λ x. lookup x r.active_streams) ((same_iff k j).0 e))
  ];
}

stopped_trans :
    (o m : Option ℕ) (a b : Bool) (xs ys : List ℕ)
    → m ≡ (if a then none else o)
    → not a || is_called o xs ≡ true
    → not b || is_called m ys ≡ true
    → not (a || b) || is_called o (ys ++ xs) ≡ true
stopped_trans none m a b xs ys e h k = ground arith
stopped_trans (some g) m true b xs ys e h k = member-append_r g ys xs h
stopped_trans (some g) m false false xs ys e h k = refl
stopped_trans (some g) m false true xs ys e h k =
    member-append_l g ys xs (ap (λ n. is_called n ys) (sym e) ∙ k)

Deleted-trans :
    (r s t : Receiver) (inferred a b : Bool) (j : Bytes)
    → Deleted r s inferred a j
    → Deleted s t inferred b j
    → Deleted r t inferred (a || b) j
Deleted-trans r s t inferred a b j p q = record {
  stream = ground (arith, p.stream, q.stream);
  terminated = ground (arith, p.terminated, q.terminated);
  drained = ground (arith, p.drained, q.drained);
  cursor = ground (arith, p.cursor, q.cursor);
  counts = q.counts ∙ p.counts;
  generation = q.generation ∙ p.generation;
  started = q.started ∙ p.started;
  calls = q.calls ++ p.calls;
  cancelled =
      q.cancelled
      ∙ ap (λ xs. q.calls ++ xs) p.cancelled
      ∙ sym (append_assoc q.calls p.calls r.cancelled);
  stopped =
      stopped_trans (lookup j r.active_streams) (lookup j s.active_streams) a b p.calls q.calls
        p.stream p.stopped q.stopped;
}

Deleted-all :
    (cs : List Container) (r : Receiver) (pod : Pod) (inferred : Bool) (j : Bytes)
    → Deleted r (delete_all r pod inferred cs) inferred (is_key_among pod cs j) j
unfolding delete_all
Deleted-all [] r pod inferred j = record {
  stream = refl;
  terminated = refl;
  drained = refl;
  cursor = refl;
  counts = refl;
  generation = refl;
  started = refl;
  calls = [];
  cancelled = refl;
  stopped = refl;
}
Deleted-all (c ∷ cs) r pod inferred j =
    let r1 = delete_container r inferred (key_of pod c.name) in
    Deleted-trans r r1 (delete_all r1 pod inferred cs) inferred _ _ j
      (Deleted-container r inferred (key_of pod c.name) j) (Deleted-all cs r1 pod inferred j)

pub on_pod_deleted-Deleted :
    (r : Receiver) (pod : Pod) (inferred : Bool) (j : Bytes)
    → Deleted r (on_pod_deleted r pod inferred) inferred (is_key_of pod j) j
unfolding on_pod_deleted
on_pod_deleted-Deleted r pod inferred j = Deleted-all (pod_containers pod) r pod inferred j
