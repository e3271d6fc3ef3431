-- ===== src/Prelude/Maps.antt =====
-- Go's `map` as an association list. The program never depends on the order of a map's entries.
use k8spodlogreceiver.Prelude.{
  ◌≡◌, ap, Bool, Option, none, some, List, [], ◌∷◌, arith, if◌then◌else◌, Eq, same, same_iff,
  is_some,
}

abbrev pub Map {ℓ} : Type 0 → Type ℓ → Type ℓ
Map K V = List (K × V)

module _ {ℓ} {K : Type 0} {V : Type ℓ} ⦃e : Eq K⦄ where
  abbrev pub lookup : K → List (K × V) → Option V
  lookup k [] = none
  lookup k ((j, v) ∷ m) = if same j k then some v else lookup k m

  abbrev pub has : K → List (K × V) → Bool
  has k m = is_some (lookup k m)

  -- delete(m, k)
  unfoldable pub remove : K → List (K × V) → List (K × V)
  remove k [] = []
  remove k ((j, v) ∷ m) = let rest = remove k m in if same j k then rest else (j, v) ∷ rest

  -- m[k] = v
  unfoldable pub put : K → V → List (K × V) → List (K × V)
  unfolding remove
  put k v m = (k, v) ∷ remove k m

  -- Deletes every key that the test does not pass.
  unfoldable pub retain : (K → Bool) → List (K × V) → List (K × V)
  retain p [] = []
  retain p ((j, v) ∷ m) = let rest = retain p m in if p j then (j, v) ∷ rest else rest

  pub lookup-remove :
      (k j : K) (m : List (K × V)) → lookup j (remove k m) ≡ (if same k j then none else lookup j m)
  unfolding remove
  lookup-remove k j [] = ground arith
  lookup-remove k j ((i, v) ∷ m) =
      ground (arith, lookup-remove k j m, same_iff i k, same_iff i j, same_iff k j)

  pub lookup-put :
      (k j : K) (v : V) (m : List (K × V))
      → lookup j (put k v m) ≡ (if same k j then some v else lookup j m)
  unfolding put
  lookup-put k j v m = ground (arith, lookup-remove k j m)

  pub lookup-retain :
      (p : K → Bool) (j : K) (m : List (K × V))
      → lookup j (retain p m) ≡ (if p j then lookup j m else none)
  unfolding retain
  lookup-retain p j [] = ground arith
  lookup-retain p j ((i, v) ∷ m) =
      ground (arith, lookup-retain p j m, same_iff i j, ap p {x = i} {y = j})

module _ {ℓ} {K : Type 0} {V : Type ℓ} where
  -- The keys of a map, as `range` gives them.
  abbrev pub keys : List (K × V) → List K
  keys [] = []
  keys ((j, v) ∷ m) = j ∷ keys m
