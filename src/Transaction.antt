-- ===== src/Transaction.antt =====
-- src/transaction.rs: transactions over unspent outputs. The hashes and signatures are in `Signing`.
pub mod Signing
pub mod Random
use f.Prelude.{ℕ, ◌≡◌, ◌↔◌, Bool, true, List, [], Eq, ◌==◌, ◌&&◌, nat_beq, nat_beq_iff, arith}
use f.Crypto.Hash.{H256, h256_beq, h256_beq_iff}
use f.Address.{H160}
use f.HashMap.{HashMap}

pub record TransactionInput : Type 0 where
  pub txid : ℕ
  pub prev_tx : H256

pub record TransactionOutput : Type 0 where
  pub recipient : H160
  pub value : H256

pub record Transaction : Type 0 where
  pub inputs : List TransactionInput
  pub outputs : List TransactionOutput

pub record SignedTransaction : Type 0 where
  pub raw : Transaction
  pub pub_key : List ℕ
  pub signature : List ℕ

-- `SignedTransaction::default()`
abbrev pub default_signed : SignedTransaction
default_signed = record { raw = record { inputs = []; outputs = [] }; pub_key = []; signature = [] }

unfoldable pub input_beq : TransactionInput → TransactionInput → Bool
input_beq a b = nat_beq a.txid b.txid && h256_beq a.prev_tx b.prev_tx

pub input_beq_iff : (a b : TransactionInput) → (input_beq a b ≡ true) ↔ (a ≡ b)
unfolding input_beq
input_beq_iff a b = ground (arith, h256_beq_iff a.prev_tx b.prev_tx)

instance abbrev pub input_eq : Eq TransactionInput
input_eq = record { beq = input_beq; beq_iff = input_beq_iff }

-- The unspent outputs.
abbrev pub State : Type 0
State = HashMap TransactionInput TransactionOutput
