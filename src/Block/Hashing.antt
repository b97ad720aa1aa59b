-- ===== src/Block/Hashing.antt =====
-- src/block.rs: the hash of a block is that of its header alone.
use f.Prelude.{ℕ, length}
use f.Crypto.Hash.{H256, from_digest}
use f.Block.{Header, Block}
use f.Externals.{Externals}

module _ (ext : Externals) where
  unfoldable pub hash_header : Header → H256
  hash_header h = from_digest (ext.sha256 (ext.serialize_header h))

  unfoldable pub hash_block : Block → H256
  unfolding hash_header
  hash_block b = hash_header b.header

  -- `Block::size`
  unfoldable pub size : Block → ℕ
  size b = length (ext.serialize_block b)
