-- ===== src/Crypto/Merkle/Level.antt =====
-- src/crypto/merkle.rs: paths from a node down to a leaf, with the siblings met on the way.
use mathlib.Core.List.{reverse-append}
use f.Prelude.{
  ℕ, zero, suc, ◌/◌, ◌%◌, ◌≡◌, refl, sym, ap, ◌∙◌, List, [], ◌∷◌, ◌++◌, reverse, arith, ◌⊎◌, inl,
  inr, Result, ok, panic, out_of_fuel, >>=-eq-ok, ok-injective, ◌>>=◌, length, length-append,
}
use f.Crypto.Hash.{H256}
use f.Crypto.Merkle.{
  MerkleTreeNode, node, present, node_hash, hash_children, binary_index, descend, climb, combine,
}
use f.Crypto.Merkle.Build.{Parent}

-- The position, `k` levels up, of the node above leaf `i`.
abbrev pub shift : ℕ → ℕ → ℕ
shift zero i = i
shift (suc k) i = shift k (i / 2)

pub shift-suc : (k i : ℕ) → shift (suc k) i ≡ shift k i / 2
shift-suc zero i = refl
shift-suc (suc k) i = shift-suc k (i / 2)

binary_index-snoc : (k i : ℕ) → binary_index (suc k) i ≡ binary_index k i ++ (shift k i % 2) ∷ []
unfolding binary_index
binary_index-snoc zero i = refl
binary_index-snoc (suc k) i = ap (λ (bs : List ℕ). (i % 2) ∷ bs) (binary_index-snoc k (i / 2))

pub length-binary_index : (k i : ℕ) → length (binary_index k i) ≡ k
unfolding binary_index
length-binary_index zero i = refl
length-binary_index (suc k) i = ap suc (length-binary_index k (i / 2))

-- The way down to leaf `i` starts with the highest bit.
reverse-binary_index :
    (k i : ℕ) → reverse (binary_index (suc k) i) ≡ (shift k i % 2) ∷ reverse (binary_index k i)
reverse-binary_index k i = ap reverse (binary_index-snoc k i) ∙ reverse-append (binary_index k i) _

>>=-ok {ℓ} : {A : Type ℓ} (m : Result A) → (m >>= λ a. ok a) ≡ m
>>=-ok (ok a) = refl
>>=-ok panic = refl
>>=-ok out_of_fuel = refl

parity : (n : ℕ) → (n % 2 ≡ 0) ⊎ (n % 2 ≡ 1)
parity n = grind arith

module _ (sha256 : List ℕ → List ℕ) where
  climb-snoc :
      (d e : H256) (bs : List ℕ) (ps : List H256) (b : ℕ) (s : H256)
      → length ps ≡ length bs
      → climb sha256 d bs ps ≡ ok e
      → climb sha256 d (bs ++ b ∷ []) (ps ++ s ∷ []) ≡ combine sha256 b e s
  unfolding climb
  climb-snoc d e [] [] b s h c =
      rw >>=-ok (ap (λ (x : H256). combine sha256 b x s) (ok-injective c))
  climb-snoc d e (x ∷ bs) [] b s h c = absurd (omega arith)
  climb-snoc d e [] (p ∷ ps) b s h c = absurd (omega arith)
  climb-snoc d e (x ∷ bs) (p ∷ ps) b s h c =
      let (curr, e₁, e₂) = >>=-eq-ok (combine sha256 x d p) (λ y. climb sha256 y bs ps) c in
      rw e₁ (climb-snoc curr e bs ps b s (omega arith) e₂)

  -- `n` stands `k` levels above leaf `i`, whose hash is `d`.
  pub record Reaches (k : ℕ) (n : MerkleTreeNode) (i : ℕ) (d : H256) : Type 0 where
    pub path : List H256
    pub size : length path ≡ k
    pub down : descend (reverse (binary_index k i)) n ≡ ok (reverse path)
    pub up : climb sha256 d (binary_index k i) path ≡ ok (node_hash n)

  module _ (l r : MerkleTreeNode) (k i : ℕ) (d : H256) where
    abbrev parent : MerkleTreeNode
    parent = node (present l) (present r) (hash_children sha256 (node_hash l) (node_hash r))

    Reaches-left : shift k i % 2 ≡ 0 → Reaches k l i d → Reaches (suc k) parent i d
    unfolding descend
    Reaches-left even q = record {
      path = q.path ++ node_hash r ∷ [];
      size = omega (arith, length-append q.path (node_hash r ∷ []), q.size);
      down = rw (reverse-binary_index k i, even, q.down) (rw reverse-append);
      up =
          rw (binary_index-snoc k i, even)
            (climb-snoc d (node_hash l) (binary_index k i) q.path 0 (node_hash r)
                (q.size ∙ sym (length-binary_index k i)) q.up
              ∙ unfold combine in refl);
    }

    Reaches-right : shift k i % 2 ≡ 1 → Reaches k r i d → Reaches (suc k) parent i d
    unfolding descend
    Reaches-right odd q = record {
      path = q.path ++ node_hash l ∷ [];
      size = omega (arith, length-append q.path (node_hash l ∷ []), q.size);
      down = rw (reverse-binary_index k i, odd, q.down) (rw reverse-append);
      up =
          rw (binary_index-snoc k i, odd)
            (climb-snoc d (node_hash r) (binary_index k i) q.path 1 (node_hash l)
                (q.size ∙ sym (length-binary_index k i)) q.up
              ∙ unfold combine in refl);
    }

  -- One level up, the parent reaches what its child reached.
  pub Reaches-Parent :
      {n p : MerkleTreeNode} (k i : ℕ) (d : H256)
      → Parent sha256 n (shift k i) p
      → Reaches k n i d
      → Reaches (suc k) p i d
  Reaches-Parent k i d v q = rw v.shape (elim (parity (shift k i)) [
    | inl even ↦ Reaches-left v.left v.right k i d even (rw (v.is_left even) at q)
    | inr odd ↦ Reaches-right v.left v.right k i d odd (rw (v.is_right odd) at q)
  ])
