-- ===== src/Crypto/Merkle/Duplicate.antt =====
-- src/crypto/merkle.rs: data of odd length, and the copy of the last node.
use mathlib.Core.List.{map-append}
use f.Prelude.{
  ℕ, zero, suc, ◌+◌, ◌%◌, ◌<◌, ◌≡◌, refl, sym, ◌∙◌, some, List, [], ◌∷◌, ◌++◌, map, arith, ok,
  >>=-eq-ok, length, last, length-append, length-map,
}
use f.Crypto.Hash.{Hashable}
use f.Crypto.Merkle.{MerkleTreeNode, MerkleTree, duplicate_last_node, next_level, build, leaf, new}

module _ (sha256 : List ℕ → List ℕ) where
  -- More fuel does not change a result.
  build-suc :
      (fuel : ℕ) (ns : List MerkleTreeNode) (levels : ℕ) (t : MerkleTree)
      → build sha256 fuel ns levels ≡ ok t
      → build sha256 (suc fuel) ns levels ≡ ok t
  unfolding build
  build-suc fuel [] levels t e = cc
  build-suc fuel (n ∷ []) levels t e = e
  build-suc zero (l ∷ r ∷ ns) levels t e = cc
  build-suc (suc fuel) (l ∷ r ∷ ns) levels t e =
      let (next, e₁, e₂) =
        >>=-eq-ok (next_level sha256 (l ∷ r ∷ ns)) (λ x. build sha256 fuel x (levels + 1)) e in
      rw e₁ (build-suc fuel next (levels + 1) t e₂)

  next_level-duplicate :
      (ns : List MerkleTreeNode) (n : MerkleTreeNode)
      → length ns % 2 ≡ 1
      → last ns ≡ some n
      → next_level sha256 (ns ++ n ∷ []) ≡ next_level sha256 ns
  unfolding next_level duplicate_last_node
  next_level-duplicate ns n odd e =
      let even : length (ns ++ n ∷ []) % 2 ≡ 0 = omega (arith, length-append ns (n ∷ [])) in
      ground (arith, length-append ns (n ∷ []))

  build-duplicate :
      (fuel : ℕ) (l r : MerkleTreeNode) (ns : List MerkleTreeNode) (n : MerkleTreeNode)
      (t : MerkleTree)
      → length (l ∷ r ∷ ns) % 2 ≡ 1
      → last (l ∷ r ∷ ns) ≡ some n
      → build sha256 (suc fuel) (l ∷ r ∷ ns) 1 ≡ ok t
      → build sha256 (suc (suc fuel)) ((l ∷ r ∷ ns) ++ n ∷ []) 1 ≡ ok t
  unfolding build
  build-duplicate fuel l r ns n t odd e b =
      let (next, e₁, e₂) =
        >>=-eq-ok (next_level sha256 (l ∷ r ∷ ns)) (λ x. build sha256 fuel x 2) b in
      rw (next_level-duplicate (l ∷ r ∷ ns) n odd e, e₁) (build-suc fuel next 2 t e₂)

  last-map {ℓ κ} :
      {A : Type ℓ} {B : Type κ} (g : A → B) (xs : List A) (a : A)
      → last xs ≡ some a
      → last (map g xs) ≡ some (g a)
  last-map g [] a e = cc
  last-map g (x ∷ []) a e = ground arith
  last-map g (x ∷ y ∷ xs) a e = last-map g (y ∷ xs) a e

module _ (sha256 : List ℕ → List ℕ) {T : Type 0} ⦃h : Hashable T⦄ where
  abbrev leaf_of : T → MerkleTreeNode
  leaf_of item = leaf sha256 (h.hash item)

  new-cons :
      (a : T) (items : List T)
      → new sha256 (a ∷ items) ≡ build sha256 (suc (length items)) (leaf_of a ∷ map leaf_of items) 1
  unfolding new
  new-cons a items = refl

  -- For data of odd length greater than one, appending a copy of the last datum gives a list for
  -- which `new` returns the same tree, and so the same root.
  pub new-duplicate :
      (items : List T) (x : T) (t : MerkleTree)
      → 1 < length items
      → length items % 2 ≡ 1
      → last items ≡ some x
      → new sha256 items ≡ ok t
      → new sha256 (items ++ x ∷ []) ≡ ok t
  new-duplicate [] x t big odd e b = absurd (omega arith)
  new-duplicate (a ∷ []) x t big odd e b = absurd (omega arith)
  new-duplicate (a ∷ c ∷ items) x t big odd e b =
      let same : build sha256 (suc (suc (length items))) (map leaf_of (a ∷ c ∷ items)) 1 ≡ ok t =
        sym (new-cons a (c ∷ items)) ∙ b in
      let size : length (items ++ x ∷ []) ≡ suc (length items) =
        omega (arith, length-append items (x ∷ [])) in
      new-cons a ((c ∷ items) ++ x ∷ [])
      ∙ rw (size, map-append)
          (build-duplicate sha256 (suc (length items)) (leaf_of a) (leaf_of c) (map leaf_of items)
            (leaf_of x) t (omega (arith, length-map leaf_of items))
            (last-map sha256 leaf_of (a ∷ c ∷ items) x e) same)
