-- ===== src/Network/Message.antt =====
-- src/network/message.rs: the messages of the protocol. A `String` is the list of its bytes.
use f.Prelude.{ℕ, Option, List}
use f.Crypto.Hash.{H256}
use f.Transaction.{SignedTransaction}
use f.Block.{Block}

pub data Message : Type 0 where
  ping pong : List ℕ → Message
  new_block_hashes get_blocks : List H256 → Message
  blocks : List Block → Message
  new_transaction_hashes get_transactions : List H256 → Message
  transactions : List SignedTransaction → Message

-- `bincode::serialize` and `bincode::deserialize` for messages
pub record Codec : Type 0 where
  pub serialize : Message → List ℕ
  pub deserialize : List ℕ → Option Message
