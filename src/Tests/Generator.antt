-- ===== src/Tests/Generator.antt =====
-- A generated transaction on concrete data.
use f.Prelude.{
  ℕ, ◌<◌, ◌≡◌, ◌≢◌, refl, Bool, true, false, some, List, [], ◌∷◌, map, replicate, length, All,
  Result, ok, arith,
}
use f.Address.{from_pubkey, default_h160}
use f.HashMap.{get}
use f.Transaction.{TransactionInput, SignedTransaction, State, input_eq}
use f.Blockchain.{new, genesis_state}
use f.Blockchain.Reads.{get_state}
use f.Network.Worker.Transactions.{is_valid}
use f.Generator.{Entry, generated}
use f.Generator.Round.{generated-is_valid}
use f.Externals.{KeyPair}
use f.Tests.{toy, toy_key}
use f.Tests.Pool.{fresh_node}

-- The owner of the first initial output.
abbrev owner : KeyPair
owner = toy_key (replicate 32 100)

-- An iteration over a state in the order of its entries.
abbrev in_order : State → List Entry
in_order s = s

genesis_entries :
    All (λ (e : Entry). get e.0 (genesis_state toy) ≡ some e.1) (in_order (genesis_state toy))
unfolding genesis_state f.HashMap.insert f.HashMap.get f.Transaction.input_beq
    f.Crypto.Hash.h256_beq f.Prelude.bytes_beq
genesis_entries = (
  refl,
  (refl, (refl, (refl, (refl, (refl, (refl, (refl, (refl, (refl, (refl, (refl, tt))))))))))),
)

state_of_fresh : get_state fresh_node.blockchain.tip fresh_node.blockchain ≡ ok (genesis_state toy)
unfolding new get_state get f.Crypto.Hash.h256_beq f.Prelude.bytes_beq f.Block.Hashing.hash_block
state_of_fresh = refl

addresses_differ : from_pubkey toy.sha256 owner.public_key ≢ from_pubkey toy.sha256 []
unfolding from_pubkey
addresses_differ e = cc

owner_spends : 0 < length (generated toy owner (toy_key []) in_order (genesis_state toy)).raw.inputs
unfolding genesis_state generated f.HashMap.insert f.Transaction.input_beq f.Crypto.Hash.h256_beq
    f.Prelude.bytes_beq f.Prelude.filter f.Address.h160_beq from_pubkey
owner_spends = omega arith

generated-is_valid_example :
    is_valid toy (genesis_state toy) (generated toy owner (toy_key []) in_order (genesis_state toy))
    ≡ false
generated-is_valid_example =
    generated-is_valid toy owner (toy_key []) in_order (genesis_state toy) genesis_entries
      addresses_differ owner_spends
