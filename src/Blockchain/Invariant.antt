-- ===== src/Blockchain/Invariant.antt =====
-- src/blockchain.rs: the invariant of the chain, what the maps and the tip have to do with one another.
use f.Prelude.{ℕ, suc, ◌≤◌, ◌<◌, ◌≡◌, some, arith, length}
use f.Crypto.Hash.{H256, h256_eq, h256_beq_iff}
use f.HashMap.{get}
use f.Block.{Block, genesis}
use f.Block.Hashing.{hash_block}
use f.Blockchain.{Blockchain, new}
use f.Externals.{Externals}

-- The blocks of a chain stand under their hashes and have heights; the genesis block alone has
-- height 0, and any other block is one higher than its parent, which is in the chain; heights are
-- below the number of blocks; the tip is a block of the greatest height.
pub record IsWellFormed (ext : Externals) (c : Blockchain) : Type 0 where
  pub hashed : (h : H256) (b : Block) → get h c.hash_to_block ≡ some b → hash_block ext b ≡ h
  pub height_of_block :
      (h : H256) (b : Block)
      → get h c.hash_to_block ≡ some b
      → (n : ℕ) × (get h c.hash_to_height ≡ some n)
  pub block_of_height :
      (h : H256) (n : ℕ)
      → get h c.hash_to_height ≡ some n
      → (b : Block) × (get h c.hash_to_block ≡ some b)
  pub root_only : (h : H256) → get h c.hash_to_height ≡ some 0 → h ≡ hash_block ext genesis
  pub parent_height :
      (h : H256) (b : Block) (n : ℕ)
      → get h c.hash_to_block ≡ some b
      → get h c.hash_to_height ≡ some (suc n)
      → get b.header.parent c.hash_to_height ≡ some n
  pub bounded : (h : H256) (n : ℕ) → get h c.hash_to_height ≡ some n → n < length c.hash_to_block
  pub tip_height : ℕ
  pub tip_at : get c.tip c.hash_to_height ≡ some tip_height
  pub tip_highest : (h : H256) (n : ℕ) → get h c.hash_to_height ≡ some n → n ≤ tip_height

-- A new chain is well-formed: it holds the genesis block alone, at height 0.
pub new-IsWellFormed : (ext : Externals) → IsWellFormed ext (new ext)
unfolding new get
new-IsWellFormed ext = record {
  hashed = λ h b e. ground (arith, h256_beq_iff (hash_block ext genesis) h);
  height_of_block = λ h b e. (0, ground arith);
  block_of_height = λ h n e. (genesis, ground arith);
  root_only = λ h e. ground (arith, h256_beq_iff (hash_block ext genesis) h);
  parent_height = λ h b n e e'. ground arith;
  bounded = λ h n e. ground arith;
  tip_height = 0;
  tip_at = ground (arith, h256_beq_iff (hash_block ext genesis) (hash_block ext genesis));
  tip_highest = λ h n e. ground arith;
}
