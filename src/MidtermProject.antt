-- ===== src/MidtermProject.antt =====
-- MidtermProject1/block.rs: the first layout of a block in the course, over unsigned transactions and with
-- a difficulty of its own. `default_difficulty` and `genesis` bear the names that they have there.
use f.Prelude.{
  ℕ, zero, suc, ap, ◌<◌, ◌*◌, ◌^◌, ◌≡◌, refl, ◌∙◌, List, [], ◌∷◌, replicate, leb, All, arith,
}
use f.Crypto.Hash.{
  H256, IsH256, IsByte, be_bytes, default_h256, from_digest, from_be_bytes, h256_le,
}
use f.Crypto.Hash.Number.{h256_le-number}
use f.Transaction.{Transaction}
use f.Block as Program
use f.Block.{Header}

-- The header has the fields of the header in src/block.rs.
pub record Content : Type 0 where
  pub transactions : List Transaction

pub record Block : Type 0 where
  pub header : Header
  pub content : Content

unfoldable pub default_difficulty : List ℕ
default_difficulty = 4 ∷ replicate 31 0

-- `Block::genesis`
unfoldable pub genesis : Block
unfolding default_difficulty
genesis = record {
  header = record {
    parent = default_h256;
    nonce = 0;
    difficulty = record { bytes = default_difficulty };
    timestamp = 0;
    merkle_root = default_h256;
  };
  content = record { transactions = [] };
}

zeros : (n : ℕ) → All IsByte (replicate n 0)
zeros zero = tt
zeros (suc n) = (omega arith, zeros n)

-- A first byte, followed by 31 zeros, as both difficulties are.
leading-IsH256 : (b : ℕ) → b < 256 → IsH256 (record { bytes = b ∷ replicate 31 0 })
leading-IsH256 b small = record { size = refl; in_range = (small, zeros 31) }

from_be_bytes-default_difficulty :
    (from_be_bytes default_difficulty ≡ 4 * 2 ^ 248)
    × (from_be_bytes Program.default_difficulty ≡ 2 ^ 248)
unfolding be_bytes default_difficulty Program.default_difficulty
from_be_bytes-default_difficulty = (refl, refl)

-- The parameters are SHA-256 and the serialisation of a header.
module _ (sha256 : List ℕ → List ℕ) (serialize_header : Header → List ℕ) where
  unfoldable pub hash_header : Header → H256
  hash_header h = from_digest (sha256 (serialize_header h))

  unfoldable pub hash_block : Block → H256
  unfolding hash_header
  hash_block b = hash_header b.header

  -- A block of the course meets the difficulty of its genesis block exactly if the number that its hash
  -- is, is at most four times 2 ^ 248; the difficulty in src/block.rs asks for at most 2 ^ 248.
  pub hash_block-difficulty :
      (b : Block)
      → IsH256 (hash_block b)
      → (h256_le (hash_block b) genesis.header.difficulty
          ≡ leb (from_be_bytes (hash_block b).bytes) (4 * 2 ^ 248))
        × (h256_le (hash_block b) Program.genesis.header.difficulty
            ≡ leb (from_be_bytes (hash_block b).bytes) (2 ^ 248))
  unfolding genesis Program.genesis default_difficulty Program.default_difficulty
  hash_block-difficulty b v = (
    h256_le-number (hash_block b) genesis.header.difficulty v (leading-IsH256 4 (omega arith))
        ∙ ap (leb (from_be_bytes (hash_block b).bytes)) from_be_bytes-default_difficulty.0,
    h256_le-number (hash_block b) Program.genesis.header.difficulty v
          (leading-IsH256 1 (omega arith))
        ∙ ap (leb (from_be_bytes (hash_block b).bytes)) from_be_bytes-default_difficulty.1,
  )
