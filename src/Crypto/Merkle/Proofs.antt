-- ===== src/Crypto/Merkle/Proofs.antt =====
-- src/crypto/merkle.rs: the trees of `MerkleTree::new`, their proofs and their number of levels.
use mathlib.Core.List.{reverse-reverse}
use f.Prelude.{
  ℕ, zero, suc, ◌+◌, ◌-◌, ◌*◌, ◌^◌, ◌≤◌, ◌<◌, ◌≡◌, refl, ap, true, List, [], ◌∷◌, map, arith, some,
  ok, length, get_elem?, length-map, beq_refl,
}
use f.Crypto.Hash.{H256, Hashable, h256_eq}
use f.Crypto.Merkle.{MerkleTreeNode, MerkleTree, node_hash, leaf, new, root, proof, verify}
use f.Crypto.Merkle.Rounds.{leaves-IsLevel, Built, build-Built}
use f.Crypto.Merkle.Level.{Reaches, shift}

get_elem?-pos {ℓ} :
    {A : Type ℓ} (xs : List A) (i : ℕ) {a : A} → get_elem? xs i ≡ some a → 0 < length xs
get_elem?-pos [] i e = cc
get_elem?-pos (x ∷ xs) i e = omega arith

module _ (sha256 : List ℕ → List ℕ) where
  module _ {T : Type 0} ⦃h : Hashable T⦄ where
    hashes : List T → List H256
    hashes items = map (λ item. h.hash item) items

    leaves-hashes :
        (items : List T)
        → map (λ item. leaf sha256 (h.hash item)) items ≡ map (leaf sha256) (hashes items)
    unfolding hashes
    leaves-hashes [] = refl
    leaves-hashes (x ∷ items) =
        ap (λ (ns : List MerkleTreeNode). leaf sha256 (h.hash x) ∷ ns) (leaves-hashes items)

    new-Built :
        (items : List T)
        → 0 < length items
        → (t : MerkleTree) × (new sha256 items ≡ ok t) × Built sha256 t (hashes items)
    unfolding new hashes
    new-Built [] pos = absurd (omega arith)
    new-Built (x ∷ items) pos = rw leaves-hashes (
        build-Built sha256 (suc (length items)) 0 (leaf sha256 (h.hash x))
          (map (leaf sha256) (hashes items)) (hashes (x ∷ items))
          (omega (
            arith,
            length-map (leaf sha256) (hashes items),
            length-map (λ item. h.hash item) items,
          ))
          (leaves-IsLevel sha256 (hashes (x ∷ items)) (omega arith)))

    get_elem?-hashes :
        (items : List T) (i : ℕ) (x : T)
        → get_elem? items i ≡ some x
        → get_elem? (hashes items) i ≡ some (h.hash x)
    unfolding hashes
    get_elem?-hashes [] i x e = cc
    get_elem?-hashes (y ∷ items) zero x e = ground arith
    get_elem?-hashes (y ∷ items) (suc i) x e = get_elem?-hashes items i x e

  only : (n r : MerkleTreeNode) (i : ℕ) → get_elem? (r ∷ []) i ≡ some n → r ≡ n
  only n r zero e = cc
  only n r (suc i) e = cc

  root-Reaches :
      (t : MerkleTree) (ds : List H256) (i : ℕ) (d : H256)
      → (b : Built sha256 t ds) → get_elem? ds i ≡ some d
      → Reaches sha256 b.height t.tree_root i d
  root-Reaches t ds i d b e =
      let (n, at_n, q) = b.top.above i d e in rw (only n t.tree_root (shift b.height i) at_n) q

  proof-path :
      (t : MerkleTree) (k i : ℕ) (d : H256) (q : Reaches sha256 k t.tree_root i d)
      → t.level_count ≡ suc k
      → proof t i ≡ ok q.path
  unfolding proof
  proof-path t k i d q e =
      let count : t.level_count - 1 ≡ k = omega arith in
      rw (count, q.down) (ap ok (reverse-reverse q.path))

  verify-path :
      (t : MerkleTree) (k i : ℕ) (d : H256) (q : Reaches sha256 k t.tree_root i d) (leaf_size : ℕ)
      → verify sha256 (root t) d q.path i leaf_size ≡ ok true
  unfolding verify root
  verify-path t k i d q leaf_size = rw (q.size, q.up) (ap ok (beq_refl (node_hash t.tree_root)))

module _ (sha256 : List ℕ → List ℕ) {T : Type 0} ⦃h : Hashable T⦄ where
  -- For data that is not empty, `new` returns a tree; for each index of a datum, `proof` returns a
  -- list of siblings, one for each level below the root, and `verify` accepts the hash of that datum
  -- with those siblings against the root, at that index and whatever number of leaves is given.
  pub verify-proof :
      (items : List T) (i : ℕ) (x : T) (leaf_size : ℕ)
      → get_elem? items i ≡ some x
      → (t : MerkleTree) × (siblings : List H256) × (new sha256 items ≡ ok t)
        × (proof t i ≡ ok siblings)
        × (length siblings + 1 ≡ t.level_count)
        × (verify sha256 (root t) (h.hash x) siblings i leaf_size ≡ ok true)
  verify-proof items i x leaf_size e =
      let (t, made, b) = new-Built sha256 items (get_elem?-pos items i e) in
      let q =
        root-Reaches sha256 t (hashes sha256 items) i (h.hash x) b
          (get_elem?-hashes sha256 items i x e) in
      (
        t,
        q.path,
        made,
        proof-path sha256 t b.height i (h.hash x) q b.levels,
        omega (arith, q.size, b.levels),
        verify-path sha256 t b.height i (h.hash x) q leaf_size,
      )

  -- For data that is not empty, the levels below the root are the fewest whose number of leaves, if
  -- all were used, is at least the number of data.
  pub level_count_bounds :
      (items : List T)
      → 0 < length items
      → (t : MerkleTree) × (new sha256 items ≡ ok t)
        × (0 < t.level_count)
        × (length items ≤ 2 ^ (t.level_count - 1))
        × (2 ^ (t.level_count - 1) < 2 * length items)
  level_count_bounds items pos =
      let (t, made, b) = new-Built sha256 items pos in
      let count : t.level_count - 1 ≡ b.height = omega (arith, b.levels) in
      let size : length (hashes sha256 items) ≡ length items =
        unfold hashes in length-map (λ item. h.hash item) items in
      (
        t,
        made,
        omega (arith, b.levels),
        rw count (omega (arith, b.top.many, size)),
        rw count (omega (arith, b.top.tight, size)),
      )
