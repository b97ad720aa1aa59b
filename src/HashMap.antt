-- ===== src/HashMap.antt =====
-- `std::collections::HashMap`: an association list with at most one entry for each key, over a key
-- type with equality. The standard library promises no iteration order; code that iterates is
-- modelled over an order of its own, not over the order of this list.
pub mod Laws
pub mod Size
use f.Prelude.{
  ℕ, ◌≡◌, refl, Bool, true, false, Option, none, some, List, [], ◌∷◌, map, arith, Eq, ◌==◌,
  if◌then◌else◌,
}

abbrev pub HashMap {ℓ} : Type ℓ → Type ℓ → Type ℓ
HashMap K V = List (K × V)

abbrev pub is_some {ℓ} : {V : Type ℓ} → Option V → Bool
is_some none = false
is_some (some v) = true

module _ {ℓ} {K V : Type ℓ} ⦃e : Eq K⦄ where
  -- `map.get(&k)`
  unfoldable pub get : K → HashMap K V → Option V
  get k [] = none
  get k ((j, v) ∷ m) = if j == k then some v else get k m

  -- `map.insert(k, v)`
  unfoldable pub insert : K → V → HashMap K V → HashMap K V
  insert k v [] = (k, v) ∷ []
  insert k v ((j, w) ∷ m) = if j == k then (k, v) ∷ m else (j, w) ∷ insert k v m

  -- `map.remove(&k)`
  unfoldable pub remove : K → HashMap K V → HashMap K V
  remove k [] = []
  remove k ((j, w) ∷ m) = let rest = remove k m in if j == k then rest else (j, w) ∷ rest

  -- `map.contains_key(&k)`
  unfoldable pub contains_key : K → HashMap K V → Bool
  contains_key k m = is_some (get k m)

  -- `map.entry(k).or_insert(v)`: writes only where the key is missing
  unfoldable pub or_insert : K → V → HashMap K V → HashMap K V
  unfolding get
  or_insert k v m = elim (get k m) [ none ↦ insert k v m | some _ ↦ m ]
