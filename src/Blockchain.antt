-- ===== src/Blockchain.antt =====
-- src/blockchain.rs: the tree of blocks, its tip, the orphan buffer and the states of unspent
-- outputs. The methods that change the chain are here, the reading methods in `Reads`.
pub mod Reads
pub mod Invariant
pub mod Insert
pub mod Chain
pub mod Loops
pub mod Fuel
pub mod Recursive
pub mod States
pub mod Reach
pub mod Stalled
pub mod Work
pub mod UnitTests
pub mod Orphans
pub mod Delays
use f.Prelude.{
  ℕ, zero, suc, ◌+◌, ◌%◌, Bool, Option, none, some, List, [], ◌∷◌, ◌++◌, replicate, ltb, nat_beq,
  ◌==◌, ◌&&◌, if◌then◌else◌, Result, ok, out_of_fuel, ◌>>=◌, ◌>>◌, unwrap, add_word,
}
use f.Crypto.Hash.{H256, h256_eq, h256_le}
use f.HashMap.{HashMap, get, insert, remove, contains_key}
use f.Address.{from_pubkey}
use f.Transaction.{TransactionInput, TransactionOutput, SignedTransaction, State, input_eq}
use f.Transaction.Signing.{hash_transaction}
use f.Block.{Block, genesis}
use f.Block.Hashing.{hash_block}
use f.Externals.{Externals, KeyPair}

pub data BlockOrigin : Type 0 where
  mined : BlockOrigin
  received : ℕ → BlockOrigin

pub record Blockchain : Type 0 where
  pub hash_to_block : HashMap H256 Block
  pub hash_to_height : HashMap H256 ℕ
  pub tip : H256
  pub difficulty : H256
  pub orphan_buffer : HashMap H256 (List Block)
  pub hash_to_origin : HashMap H256 BlockOrigin
  pub hash_to_state : HashMap H256 State

-- A loop `for a in xs` whose body may fail.
unfoldable pub for_each {ℓ κ} :
    {A : Type ℓ} {S : Type κ} → (A → S → Result S) → List A → S → Result S
for_each body [] s = ok s
for_each body (a ∷ as') s = body a s >>= for_each body as'

-- `[byte; 32]` as a hash
abbrev pub repeated : ℕ → H256
repeated byte = record { bytes = replicate 32 byte }

-- The inputs of the transaction leave the state.
unfoldable pub remove_inputs : List TransactionInput → State → State
remove_inputs [] state = state
remove_inputs (i ∷ is) state = remove_inputs is (remove i state)

unfoldable pub contains_block : H256 → Blockchain → Bool
contains_block hash c = contains_key hash c.hash_to_block

unfoldable pub parent_check : Block → Blockchain → Bool
unfolding contains_block
parent_check block c = contains_block block.header.parent c

-- `entry(parent).or_insert(vec![]).push(block)`
unfoldable pub add_to_orphan_buffer : Block → Blockchain → Blockchain
add_to_orphan_buffer block c =
    let siblings : List Block = elim (get block.header.parent c.orphan_buffer) [
      | none ↦ []
      | some bs ↦ bs
    ] in
    record c { orphan_buffer = insert block.header.parent (siblings ++ block ∷ []) c.orphan_buffer }

module _ (ext : Externals) where
  -- The outputs enter the state under the hash of the transaction, numbered by a `u32`.
  unfoldable pub insert_outputs : H256 → ℕ → List TransactionOutput → State → Result State
  insert_outputs prev_tx count [] state = ok state
  insert_outputs prev_tx count (o ∷ os) state = do
    count' ← add_word ext.overflow_checks 32 count 1
    insert_outputs prev_tx count' os (insert (record { txid = count; prev_tx = prev_tx }) o state)

  unfoldable pub process_one_transaction : SignedTransaction → State → Result State
  unfolding remove_inputs insert_outputs
  process_one_transaction transaction state =
      let tx = transaction.raw in
      insert_outputs (hash_transaction ext tx) 0 tx.outputs (remove_inputs tx.inputs state)

  unfoldable pub process_all_transactions : Block → State → Result State
  unfolding for_each process_one_transaction
  process_all_transactions block state =
      for_each process_one_transaction block.content.transactions state

  -- The key pair of round `count` of the loop in `new`.
  unfoldable pub controlled_keypair : ℕ → KeyPair → KeyPair
  controlled_keypair count current =
      let val = count % 3 in
      if nat_beq val 1
      then ext.from_seed (replicate 32 100)
      else if nat_beq val 2
      then ext.from_seed (replicate 32 200)
      else if nat_beq val 0
      then ext.from_seed (replicate 32 0)
      else current

  -- `while count < 13`, with fuel for the rounds.
  unfoldable pub initial_outputs : ℕ → ℕ → KeyPair → State → State
  unfolding controlled_keypair
  initial_outputs zero count keypair state = state
  initial_outputs (suc fuel) count keypair state =
      let keypair' = controlled_keypair count keypair in
      let input : TransactionInput = record { txid = count; prev_tx = repeated 50 } in
      let output : TransactionOutput = record {
        recipient = from_pubkey ext.sha256 keypair'.public_key;
        value = repeated 10;
      } in
      let rest = initial_outputs fuel (count + 1) keypair' (insert input output state) in
      if ltb count 13 then rest else state

  unfoldable pub genesis_state : State
  unfolding initial_outputs
  genesis_state = initial_outputs 13 1 (ext.from_seed (replicate 32 0)) []

  -- `Blockchain::new`
  unfoldable pub new : Blockchain
  unfolding genesis
  new = record {
    hash_to_block = (hash_block ext genesis, genesis) ∷ [];
    hash_to_height = (hash_block ext genesis, 0) ∷ [];
    tip = hash_block ext genesis;
    difficulty = genesis.header.difficulty;
    orphan_buffer = [];
    hash_to_origin = [];
    hash_to_state = (hash_block ext genesis, genesis_state) ∷ [];
  }

  -- `insert` up to the choice of the tip.
  unfoldable pub index_block : Block → Blockchain → Result Blockchain
  index_block block c = do
    parent_height ← unwrap (get block.header.parent c.hash_to_height)
    height ← add_word ext.overflow_checks 64 parent_height 1
    let block_hash = hash_block ext block
    let heights = insert block_hash height c.hash_to_height
    tip_height ← unwrap (get c.tip heights)
    ok (record c {
      hash_to_block = insert block_hash block c.hash_to_block;
      hash_to_height = heights;
      tip = if ltb tip_height height then block_hash else c.tip;
    })

  -- `Blockchain::insert`. The state that the transactions lead to is a clone, which is dropped.
  unfoldable pub insert_block : Block → Blockchain → Result Blockchain
  unfolding index_block
  insert_block block c = do
    indexed ← index_block block c
    state ← unwrap (get block.header.parent indexed.hash_to_state)
    dropped ← process_all_transactions block state
    ok indexed

  unfoldable pub pow_validity_check : Block → Blockchain → Bool
  pow_validity_check block c =
      h256_le (hash_block ext block) block.header.difficulty
      && block.header.difficulty == c.difficulty

  -- The chain and `out_hashes`. The fuel bounds the depth of the recursion.
  unfoldable pub insert_recursively :
      ℕ → Block → Blockchain × List H256 → Result (Blockchain × List H256)
  unfolding for_each contains_block insert_block
  insert_recursively zero block s = out_of_fuel
  insert_recursively (suc fuel) block (c, out_hashes) =
      let block_hash = hash_block ext block in
      let fresh = (do
        c' ← insert_block block c
        let out' = out_hashes ++ block_hash ∷ []
        elim (get block_hash c'.orphan_buffer) [
          | none ↦ ok (c', out')
          | some children ↦
              for_each (insert_recursively fuel) children
                (record c' { orphan_buffer = remove block_hash c'.orphan_buffer }, out')
        ]) in
      if contains_block block_hash c then ok (c, out_hashes) else fresh
