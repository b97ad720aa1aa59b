-- ===== src/HashMap/Laws.antt =====
-- What the map operations do to a lookup, with no side condition.
use f.Prelude.{
  ◌≡◌, refl, true, false, ◌||◌, none, some, [], ◌∷◌, arith, Eq, ◌==◌, if◌then◌else◌, beq_refl,
}
use f.HashMap.{HashMap, get, insert, remove, contains_key, or_insert}

module _ {ℓ} {K V : Type ℓ} ⦃e : Eq K⦄ where
  pub get-insert :
      (k j : K) (v : V) (m : HashMap K V)
      → get j (insert k v m) ≡ (if k == j then some v else get j m)
  unfolding get insert
  get-insert k j v [] = refl
  get-insert k j v ((i, w) ∷ m) =
      ground (arith, e.beq_iff k j, e.beq_iff i k, e.beq_iff i j, get-insert k j v m)

  pub get-remove :
      (k j : K) (m : HashMap K V) → get j (remove k m) ≡ (if k == j then none else get j m)
  unfolding get remove
  get-remove k j [] = ground arith
  get-remove k j ((i, w) ∷ m) =
      ground (arith, e.beq_iff k j, e.beq_iff i k, e.beq_iff i j, get-remove k j m)

  pub get-insert_self : (k : K) (v : V) (m : HashMap K V) → get k (insert k v m) ≡ some v
  get-insert_self k v m = ground (arith, get-insert k k v m, beq_refl k)

  pub contains_key-insert :
      (k j : K) (v : V) (m : HashMap K V)
      → contains_key j (insert k v m) ≡ (k == j || contains_key j m)
  unfolding contains_key
  contains_key-insert k j v m = ground (arith, get-insert k j v m)

  pub get-or_insert :
      (k j : K) (v : V) (m : HashMap K V)
      → get j (or_insert k v m)
        ≡ (if contains_key j m then get j m else if k == j then some v else none)
  unfolding or_insert contains_key
  get-or_insert k j v m = ground (arith, get-insert k j v m, e.beq_iff k j)

  pub get-of-contains_key :
      (k : K) (m : HashMap K V) → contains_key k m ≡ true → (v : V) × (get k m ≡ some v)
  unfolding contains_key
  get-of-contains_key k m h = ground arith

  pub contains_key-of-get :
      (k : K) {v : V} (m : HashMap K V) → get k m ≡ some v → contains_key k m ≡ true
  unfolding contains_key
  contains_key-of-get k m h = ground arith

  pub get-not-contains_key : (k : K) (m : HashMap K V) → contains_key k m ≡ false → get k m ≡ none
  unfolding contains_key
  get-not-contains_key k m h = ground arith

pub ruleset map_laws = (get-insert, get-remove, get-insert_self, contains_key-insert)
