-- ===== src/Crypto/Merkle.antt =====
-- src/crypto/merkle.rs: Merkle trees, their proofs, and the check of a proof.
pub mod Build
pub mod Level
pub mod Rounds
pub mod Proofs
pub mod Binding
pub mod Duplicate
use f.Prelude.{
  ℕ, zero, suc, ◌+◌, ◌-◌, ◌/◌, ◌%◌, ◌≡◌, Bool, true, false, Option, none, some, List, [], ◌∷◌, ◌++◌,
  map, reverse, Result, ok, panic, out_of_fuel, ◌>>=◌, ◌>>◌, unwrap, assert, ◌==◌, nat_beq, length,
  is_empty, last, if◌then◌else◌,
}
use f.Crypto.Hash.{H256, default_h256, h256_eq, Hashable, from_digest}

-- `Option<Box<MerkleTreeNode>>` is the second type of the block.
mutual
  pub data MerkleTreeNode : Type 0 where
    node : OptionNode → OptionNode → H256 → MerkleTreeNode

  pub data OptionNode : Type 0 where
    absent : OptionNode
    present : MerkleTreeNode → OptionNode

unfoldable pub node_hash : MerkleTreeNode → H256
node_hash (node l r h) = h

unwrap_node : OptionNode → Result MerkleTreeNode
unwrap_node absent = panic
unwrap_node (present n) = ok n

-- `node.left.as_ref().unwrap()`
unfoldable pub left_of : MerkleTreeNode → Result MerkleTreeNode
unfolding unwrap_node
left_of (node l r h) = unwrap_node l

-- `node.right.as_ref().unwrap()`
unfoldable pub right_of : MerkleTreeNode → Result MerkleTreeNode
unfolding unwrap_node
right_of (node l r h) = unwrap_node r

pub record MerkleTree : Type 0 where
  pub tree_root : MerkleTreeNode
  pub level_count : ℕ

-- `MerkleTree::root`
unfoldable pub root : MerkleTree → H256
unfolding node_hash
root t = node_hash t.tree_root

-- Pushes a copy of the last node.
unfoldable pub duplicate_last_node : List MerkleTreeNode → Result (List MerkleTreeNode)
duplicate_last_node nodes = do n ← unwrap (last nodes); ok (nodes ++ n ∷ [])

-- The `count` low bits of `index`, lowest first.
unfoldable pub binary_index : ℕ → ℕ → List ℕ
binary_index zero index = []
binary_index (suc count) index = (index % 2) ∷ binary_index count (index / 2)

-- From a node towards the leaves along `bits`: the siblings in the order in which they are met.
unfoldable pub descend : List ℕ → MerkleTreeNode → Result (List H256)
unfolding left_of right_of node_hash
descend [] n = ok []
descend (zero ∷ bits) n = do
  sibling ← right_of n
  child ← left_of n
  rest ← descend bits child
  ok (node_hash sibling ∷ rest)
descend (suc zero ∷ bits) n = do
  sibling ← left_of n
  child ← right_of n
  rest ← descend bits child
  ok (node_hash sibling ∷ rest)
descend (suc (suc _) ∷ bits) n = panic

-- `MerkleTree::proof`
unfoldable pub proof : MerkleTree → ℕ → Result (List H256)
unfolding binary_index descend
proof t index = do
  proof_rev ← descend (reverse (binary_index (t.level_count - 1) index)) t.tree_root
  ok (reverse proof_rev)

-- `sha256` is the digest of the crate `ring`.
module _ (sha256 : List ℕ → List ℕ) where
  unfoldable pub hash_children : H256 → H256 → H256
  hash_children left right = from_digest (sha256 (left.bytes ++ right.bytes))

  -- The nodes 2i and 2i + 1 for i below half of the length. Each slot of the source's vector is
  -- `Some` until its only `take`.
  unfoldable pub pair_up : List MerkleTreeNode → List MerkleTreeNode
  unfolding hash_children node_hash
  pair_up [] = []
  pair_up (n ∷ []) = []
  pair_up (l ∷ r ∷ rest) =
      node (present l) (present r) (hash_children (node_hash l) (node_hash r)) ∷ pair_up rest

  -- One round of the loop in `new`.
  unfoldable pub next_level : List MerkleTreeNode → Result (List MerkleTreeNode)
  unfolding duplicate_last_node pair_up
  next_level curr_level = do
    even_level ←
        (if nat_beq (length curr_level % 2) 1
          then duplicate_last_node curr_level
          else ok curr_level)
    assert (nat_beq (length even_level % 2) 0)
    ok (pair_up even_level)

  -- `while curr_level.len() > 1`, then `curr_level[0].take().unwrap()`.
  unfoldable pub build : ℕ → List MerkleTreeNode → ℕ → Result MerkleTree
  unfolding next_level
  build fuel [] level_count = panic
  build fuel (n ∷ []) level_count = ok (record { tree_root = n; level_count = level_count })
  build zero (l ∷ r ∷ rest) level_count = out_of_fuel
  build (suc fuel) (l ∷ r ∷ rest) level_count = do
    next ← next_level (l ∷ r ∷ rest)
    build fuel next (level_count + 1)

  abbrev pub leaf : H256 → MerkleTreeNode
  leaf h = node absent absent h

  -- `MerkleTree::new`. Each round halves the level, so the number of leaves is fuel enough.
  unfoldable pub new : {T : Type 0} ⦃h : Hashable T⦄ → List T → Result MerkleTree
  unfolding build
  new ⦃h⦄ items = do
    assert (if is_empty items then false else true)
    build (length items) (map (λ item. leaf (h.hash item)) items) 1

  -- One step of `verify`.
  unfoldable pub combine : ℕ → H256 → H256 → Result H256
  unfolding hash_children
  combine zero curr sibling = ok (hash_children curr sibling)
  combine (suc zero) curr sibling = ok (hash_children sibling curr)
  combine (suc (suc _)) curr sibling = panic

  -- The loop of `verify`, over the bits and the siblings from the leaf upwards.
  unfoldable pub climb : H256 → List ℕ → List H256 → Result H256
  unfolding combine
  climb curr bits [] = ok curr
  climb curr [] (s ∷ siblings) = panic
  climb curr (b ∷ bits) (s ∷ siblings) = do curr' ← combine b curr s; climb curr' bits siblings

  -- `verify`. The number of leaves is an argument that the code does not read.
  unfoldable pub verify : H256 → H256 → List H256 → ℕ → ℕ → Result Bool
  unfolding binary_index climb
  verify expected datum siblings index leaf_size = do
    curr_hash ← climb datum (binary_index (length siblings) index) siblings
    ok (expected == curr_hash)
