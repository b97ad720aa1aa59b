-- ===== src/Block/Random.antt =====
-- src/block.rs: the helper of the unit tests that makes a block. What `rand` gives are arguments.
use f.Prelude.{ℕ, [], ◌∷◌, Result, ok, ◌>>=◌}
use f.Crypto.Hash.{H256}
use f.Crypto.Merkle
use f.Transaction.{default_signed}
use f.Transaction.Signing.{signed_hashable}
use f.Block.{Block, default_difficulty}
use f.Externals.{Externals}

module _ (ext : Externals) where
  -- The block, for the root of the tree over its one transaction.
  unfoldable pub random_block : (nonce timestamp : ℕ) → (parent merkle_root : H256) → Block
  unfolding default_difficulty
  random_block nonce timestamp parent merkle_root = record {
    header = record {
      parent = parent;
      nonce = nonce;
      difficulty = record { bytes = default_difficulty };
      timestamp = timestamp;
      merkle_root = merkle_root;
    };
    content = record { transactions = default_signed ∷ [] };
  }

  unfoldable pub generate_random_block : (nonce timestamp : ℕ) → (parent : H256) → Result Block
  unfolding random_block
  generate_random_block nonce timestamp parent = do
    tree ← f.Crypto.Merkle.new ext.sha256 ⦃h = signed_hashable ext⦄ (default_signed ∷ [])
    ok (random_block nonce timestamp parent (f.Crypto.Merkle.root tree))
