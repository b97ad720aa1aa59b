-- ===== src/Block.antt =====
-- src/block.rs: the layout of a block and the genesis block.
pub mod Hashing
pub mod Random
use f.Prelude.{ℕ, List, [], ◌∷◌, replicate}
use f.Crypto.Hash.{H256, default_h256}
use f.Transaction.{SignedTransaction}

pub record Header : Type 0 where
  pub parent : H256
  pub nonce : ℕ
  pub difficulty : H256
  pub timestamp : ℕ
  pub merkle_root : H256

pub record Content : Type 0 where
  pub transactions : List SignedTransaction

pub record Block : Type 0 where
  pub header : Header
  pub content : Content

-- The big-endian 32-byte number 256 ^ 31.
unfoldable pub default_difficulty : List ℕ
default_difficulty = 1 ∷ replicate 31 0

-- `Block::genesis`
unfoldable pub genesis : Block
unfolding default_difficulty
genesis = record {
  header = record {
    parent = default_h256;
    nonce = 0;
    difficulty = record { bytes = default_difficulty };
    timestamp = 0;
    merkle_root = default_h256;
  };
  content = record { transactions = [] };
}
