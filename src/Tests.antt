-- ===== src/Tests.antt =====
-- Small concrete externals, blocks and chains, on which the tests run the code.
pub mod Merkle
pub mod Chain
pub mod Pool
pub mod Worker
pub mod Miner
pub mod Generator
pub mod Peer
pub mod Server
pub mod Frontend
pub mod System
pub mod Whole
use f.Prelude.{
  ℕ, ◌≡◌, refl, Bool, true, false, List, [], ◌∷◌, bytes_beq, beq_refl, bytes_beq_iff, replicate,
  length, ok, some,
}
use f.Crypto.Hash.{H256, default_h256}
use f.HashMap
use f.Transaction.{Transaction, SignedTransaction}
use f.Block.{Block, genesis, default_difficulty}
use f.Block.Hashing.{hash_block}
use f.Blockchain.{Blockchain, new, insert_block}
use f.Externals.{Externals, KeyPair, IsKeyPair}

-- Every message is its own signature.
abbrev pub toy_key : List ℕ → KeyPair
toy_key seed = record { public_key = seed; sign = λ m. m }

-- The digest is the message, and a header is serialised as its nonce and its parent.
abbrev pub toy : Externals
toy = record {
  sha256 = λ m. m;
  verify_ed25519 = λ key m signature. bytes_beq m signature;
  from_seed = toy_key;
  serialize_header = λ h. h.nonce ∷ h.parent.bytes;
  serialize_block = λ b. b.header.nonce ∷ [];
  serialize_transaction = λ t. length t.inputs ∷ length t.outputs ∷ [];
  serialize_signed = λ t. length t.raw.inputs ∷ length t.raw.outputs ∷ t.pub_key;
  overflow_checks = true;
}

pub toy_key-IsKeyPair : IsKeyPair toy (toy_key [])
toy_key-IsKeyPair = record { verifies = λ m. (bytes_beq_iff m m).1 refl }

abbrev pub genesis_hash : H256
genesis_hash = record { bytes = 0 ∷ replicate 32 0 }

abbrev pub child_hash : H256
child_hash = record { bytes = 0 ∷ 0 ∷ replicate 32 0 }

-- A block on `parent` with `nonce` and without transactions.
abbrev pub block_on : H256 → ℕ → Block
block_on parent nonce = record {
  header = record {
    parent = parent;
    nonce = nonce;
    difficulty = record { bytes = 1 ∷ replicate 31 0 };
    timestamp = 5;
    merkle_root = default_h256;
  };
  content = record { transactions = [] };
}

abbrev pub child : Block
child = block_on genesis_hash 0

abbrev pub grandchild : Block
grandchild = block_on child_hash 0

-- A new chain with the child inserted.
abbrev pub grown : Blockchain
grown = record (new toy) {
  hash_to_block = (genesis_hash, genesis) ∷ (child_hash, child) ∷ [];
  hash_to_height = (genesis_hash, 0) ∷ (child_hash, 1) ∷ [];
  tip = child_hash;
}

pub insert_child : insert_block toy child (new toy) ≡ ok grown
unfolding new insert_block HashMap.get f.Crypto.Hash.h256_beq bytes_beq hash_block
    f.Prelude.add_word HashMap.insert f.Blockchain.process_all_transactions
insert_child = refl
