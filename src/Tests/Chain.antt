-- ===== src/Tests/Chain.antt =====
-- The chain on concrete blocks.
use f.Prelude.{
  ℕ, zero, suc, ◌+◌, ◌≤◌, ◌<◌, ◌^◌, ◌≡◌, ◌≢◌, ◌||◌, ◌&&◌, refl, Bool, true, false, Option, none,
  some, List, [], ◌∷◌, ◌++◌, reverse, replicate, leb, ltb, if◌then◌else◌, length, get_elem?, Result,
  ok, panic, out_of_fuel, arith,
}
use f.Crypto.Hash.{H256, h256_eq, h256_beq}
use f.HashMap
use f.HashMap.{get}
use f.Address.{default_h160}
use f.Transaction.{TransactionInput, SignedTransaction, State, input_eq}
use f.Transaction.Signing.{hash_transaction}
use f.Block.{genesis}
use f.Block.Hashing.{hash_block}
use f.Blockchain
use f.Blockchain.{
  Blockchain, new, contains_block, insert_block, insert_recursively, add_to_orphan_buffer,
  genesis_state, process_one_transaction, repeated,
}
use f.Blockchain.{mined, received}
use f.Blockchain.Reads.{all_blocks_in_longest_chain}
use f.Blockchain.Invariant.{IsWellFormed, new-IsWellFormed}
use f.Blockchain.Insert.{insert_block-IsWellFormed, insert_block_effect}
use f.Blockchain.Chain.{Descent, longest_chain}
use f.Blockchain.Recursive.{elem, insert_recursively_adds}
use f.Blockchain.States.{process_one_transaction_effect, spends, or_else}
use f.Blockchain.Reach.{Reachable, start, mine, buffer, Reachable-IsWellFormed}
use f.Blockchain.Stalled.{Reachable-stalled, waiting_orphan_panics}
use f.Tests.{toy, child_hash, child, grandchild, grown, insert_child}

child_missing : contains_block (hash_block toy child) (new toy) ≡ false
unfolding contains_block new HashMap.contains_key get h256_beq f.Prelude.bytes_beq hash_block
child_missing = refl

pub grown-IsWellFormed : IsWellFormed toy grown
unfolding new
grown-IsWellFormed =
    Reachable-IsWellFormed (mine child (start refl) child_missing (omega arith) insert_child)

insert_block-IsWellFormed_example : IsWellFormed toy grown
unfolding new
insert_block-IsWellFormed_example =
    insert_block-IsWellFormed toy child (new toy) grown (new-IsWellFormed toy) child_missing
      (omega arith) insert_child

insert_block_effect_example :
    (n : ℕ) × (get child.header.parent (new toy).hash_to_height ≡ some n)
    × (grown.tip ≡ (
        if ltb (new-IsWellFormed toy).tip_height (n + 1)
        then hash_block toy child
        else (new toy).tip))
    × ((h : H256)
        → (get h grown.hash_to_block ≡ (
            if h256_beq (hash_block toy child) h
            then some child
            else get h (new toy).hash_to_block))
          × (get h grown.hash_to_height ≡ (
              if h256_beq (hash_block toy child) h
              then some (n + 1)
              else get h (new toy).hash_to_height)))
    × (grown.orphan_buffer ≡ (new toy).orphan_buffer)
    × (grown.hash_to_origin ≡ (new toy).hash_to_origin)
    × (grown.hash_to_state ≡ (new toy).hash_to_state)
unfolding new
insert_block_effect_example =
    insert_block_effect toy child (new toy) grown (new-IsWellFormed toy) child_missing (omega arith)
      insert_child

longest_chain_example :
    (backward : List H256) × (all_blocks_in_longest_chain grown ≡ ok (reverse backward))
    × Descent toy grown backward child_hash grown-IsWellFormed.tip_height
    × (length backward ≡ suc grown-IsWellFormed.tip_height)
longest_chain_example = longest_chain toy grown grown-IsWellFormed

-- The new chain with the grandchild in the orphan buffer.
abbrev waiting : Blockchain
waiting = record (new toy) { orphan_buffer = (child_hash, grandchild ∷ []) ∷ [] }

adopt_child : insert_recursively toy 1 child (new toy, []) ≡ ok (grown, child_hash ∷ [])
unfolding new insert_recursively insert_block HashMap.contains_key get h256_beq f.Prelude.bytes_beq
    hash_block f.Prelude.add_word HashMap.insert Blockchain.process_all_transactions
adopt_child = refl

insert_recursively_adds_example :
    (extra : List H256) × (contains_block (hash_block toy child) grown ≡ true)
    × (child_hash ∷ [] ≡ extra)
    × ((h : H256) → contains_block h grown ≡ (contains_block h (new toy) || elem h extra))
    × (length grown.hash_to_block ≡ length (new toy).hash_to_block + length extra)
insert_recursively_adds_example =
    insert_recursively_adds toy 1 child (new toy) grown [] (child_hash ∷ []) adopt_child

waiting-Reachable : Reachable toy waiting
unfolding new add_to_orphan_buffer HashMap.insert get
waiting-Reachable = buffer grandchild (start refl) refl

Reachable-stalled_example :
    (child.header.parent ≡ hash_block toy genesis)
    × (get (hash_block toy child) grown.hash_to_height ≡ some 1)
    × (grown.hash_to_state ≡ (hash_block toy genesis, genesis_state toy) ∷ [])
Reachable-stalled_example =
    Reachable-stalled toy child grown (start refl) child_missing insert_child

insert_awaited :
    insert_block toy child waiting
    ≡ ok (record grown { orphan_buffer = (child_hash, grandchild ∷ []) ∷ [] })
unfolding new insert_block get h256_beq f.Prelude.bytes_beq hash_block f.Prelude.add_word
    HashMap.insert Blockchain.process_all_transactions
insert_awaited = refl

child_stateless : get child_hash waiting.hash_to_state ≡ none
unfolding new get h256_beq f.Prelude.bytes_beq hash_block
child_stateless = refl

child_awaited : get child_hash waiting.orphan_buffer ≡ some (grandchild ∷ [])
unfolding get h256_beq f.Prelude.bytes_beq
child_awaited = refl

child_of_waiting : contains_block child_hash waiting ≡ false
unfolding contains_block new HashMap.contains_key get h256_beq f.Prelude.bytes_beq hash_block
child_of_waiting = refl

grandchild_missing :
    contains_block
      (hash_block toy grandchild)
      (record grown { orphan_buffer = (child_hash, grandchild ∷ []) ∷ [] })
    ≡ false
unfolding contains_block new HashMap.contains_key get h256_beq f.Prelude.bytes_beq hash_block
grandchild_missing = refl

waiting_orphan_panics_example : insert_recursively toy 2 child (waiting, []) ≡ panic
unfolding hash_block
waiting_orphan_panics_example =
    waiting_orphan_panics toy 0 child grandchild [] waiting
      (record grown { orphan_buffer = (child_hash, grandchild ∷ []) ∷ [] }) [] child_of_waiting
      insert_awaited child_stateless child_awaited refl grandchild_missing

-- A transaction with one input and one output.
abbrev transfer : SignedTransaction
transfer = record {
  raw = record {
    inputs = record { txid = 1; prev_tx = repeated 50 } ∷ [];
    outputs = record { recipient = default_h160; value = repeated 10 } ∷ [];
  };
  pub_key = [];
  signature = [];
}

process_one_transaction_effect_example :
    (s' : State) × (process_one_transaction toy transfer (genesis_state toy) ≡ ok s')
    × ((k : TransactionInput)
        → get k s'
          ≡ or_else
              (if h256_beq (hash_transaction toy transfer.raw) k.prev_tx
                then get_elem? transfer.raw.outputs k.txid
                else none)
              (if spends k transfer.raw.inputs then none else get k (genesis_state toy)))
process_one_transaction_effect_example =
    process_one_transaction_effect toy transfer (genesis_state toy) (omega arith)
