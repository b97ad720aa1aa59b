-- ===== src/Mempool.antt =====
-- src/mempool.rs: the transactions that are waiting for a block.
pub mod Pop
pub mod Abstract
use f.Prelude.{ℕ, ◌%◌, Option, none, some, List, [], ◌∷◌, map, length, get_elem?}
use f.Crypto.Hash.{H256, h256_eq}
use f.HashMap.{HashMap, get, insert, remove}
use f.Transaction.{SignedTransaction}
use f.Transaction.Signing.{hash_signed}
use f.Externals.{Externals}

pub record Mempool : Type 0 where
  pub hash_to_transaction : HashMap H256 SignedTransaction

-- `Mempool::new`
abbrev pub new : Mempool
new = record { hash_to_transaction = [] }

unfoldable pub get_transaction : H256 → Mempool → Option SignedTransaction
get_transaction hash m = get hash m.hash_to_transaction

abbrev pub key_of : H256 × SignedTransaction → H256
key_of (h, t) = h

-- `keys().next()`: the hash order is not specified, so `choice` picks the key.
unfoldable pub next_key : ℕ → HashMap H256 SignedTransaction → Option H256
next_key choice m = get_elem? (map key_of m) (choice % length m)

-- `pop`
unfoldable pub pop : ℕ → Mempool → Option SignedTransaction × Mempool
unfolding next_key
pop choice m = elim (next_key choice m.hash_to_transaction) [
  | none ↦ (none, m)
  | some hash ↦ (
    get hash m.hash_to_transaction,
    record { hash_to_transaction = remove hash m.hash_to_transaction },
  )
]

module _ (ext : Externals) where
  unfoldable pub insert_transaction : SignedTransaction → Mempool → Mempool
  insert_transaction t m = record {
    hash_to_transaction = insert (hash_signed ext t) t m.hash_to_transaction;
  }

  unfoldable pub remove_transaction : SignedTransaction → Mempool → Mempool
  remove_transaction t m = record {
    hash_to_transaction = remove (hash_signed ext t) m.hash_to_transaction;
  }
