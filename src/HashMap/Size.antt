-- ===== src/HashMap/Size.antt =====
-- The number of entries.
use f.Prelude.{◌≤◌, ◌<◌, ◌+◌, ◌≡◌, true, false, [], ◌∷◌, arith, Eq, length}
use f.HashMap.{HashMap, get, insert, remove, contains_key}

module _ {ℓ} {K V : Type ℓ} ⦃e : Eq K⦄ where
  pub length-insert_new :
      (k : K) (v : V) (m : HashMap K V)
      → contains_key k m ≡ false
      → length (insert k v m) ≡ length m + 1
  unfolding insert contains_key get
  length-insert_new k v [] h = omega arith
  length-insert_new k v ((j, w) ∷ m) h = ground (arith, length-insert_new k v m)

  pub length-remove-le : (k : K) (m : HashMap K V) → length (remove k m) ≤ length m
  unfolding remove
  length-remove-le k [] = omega arith
  length-remove-le k ((j, w) ∷ m) = ground (arith, length-remove-le k m)

  pub length-remove :
      (k : K) (m : HashMap K V) → contains_key k m ≡ true → length (remove k m) < length m
  unfolding remove contains_key get
  length-remove k [] h = cc
  length-remove k ((j, w) ∷ m) h = ground (arith, length-remove k m, length-remove-le k m)
