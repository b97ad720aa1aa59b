-- ===== src/Generator.antt =====
-- src/transaction_generator.rs: one round of `generation_loop`, with both locks held, on what the threads
-- share. The map of unspent outputs is iterated in the order of `iter`, an argument.
pub mod Round
use f.Prelude.{List, [], ◌∷◌, map, filter, ◌==◌, Result, ok, ◌>>=◌, Bool}
use f.Address.{from_pubkey, h160_eq}
use f.Transaction.{TransactionInput, TransactionOutput, SignedTransaction, State}
use f.Transaction.Signing.{hash_signed, from_raw}
use f.Blockchain.{Blockchain}
use f.Blockchain.Reads.{get_state}
use f.Mempool.{insert_transaction}
use f.Network.Message.{new_transaction_hashes}
use f.Network.Worker.{Node, Effect, broadcast}
use f.Externals.{Externals, KeyPair}

abbrev pub Entry : Type 0
Entry = TransactionInput × TransactionOutput

module _ (ext : Externals) (controlled random : KeyPair) (iter : State → List Entry) where
  -- Whether the loop over the state takes the entry, for the key pair of the generator.
  unfoldable pub is_owned : Entry → Bool
  is_owned (tx_input, tx_output) =
      tx_output.recipient == from_pubkey ext.sha256 controlled.public_key

  -- The transaction of a round, signed by a key pair made for it.
  unfoldable pub generated : State → SignedTransaction
  unfolding is_owned from_raw
  generated state =
      let owned = filter is_owned (iter state) in
      from_raw ext
        (record {
          inputs = map (λ (e : Entry). e.0) owned;
          outputs = map (λ (e : Entry). e.1) owned;
        })
        random

  unfoldable pub generation_round : Node → Result (Node × List Effect)
  unfolding generated get_state insert_transaction
  generation_round node = do
    state ← get_state node.blockchain.tip node.blockchain
    let signed_trans = generated state
    ok (
      record node { mempool = insert_transaction ext signed_trans node.mempool },
      broadcast (new_transaction_hashes (hash_signed ext signed_trans ∷ [])) ∷ [],
    )
