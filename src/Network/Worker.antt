-- ===== src/Network/Worker.antt =====
-- src/network/worker.rs: one message of the worker loop, from its reception to the next. The locks
-- are held for the whole of a handler, so a handler is one step on the shared state; what it sends is
-- a list of effects in order. A panic poisons the locks and ends the program's service.
pub mod Transactions
pub mod Blocks
pub mod Requests
pub mod Sync
pub mod Relay
pub mod Order
pub mod Work
use f.Prelude.{
  ℕ, suc, ◌+◌, Bool, true, false, not, Option, none, some, List, [], ◌∷◌, ◌++◌, length, is_empty,
  filter, if◌then◌else◌, ◌==◌, Result, ok, panic, ◌>>=◌, unwrap, sub_word,
}
use f.Crypto.Hash.{H256, h256_lt, h256_eq}
use f.Address.{H160, from_pubkey, h160_eq}
use f.HashMap.{HashMap, get, or_insert, is_some}
use f.Transaction.{TransactionInput, SignedTransaction, State, input_eq}
use f.Transaction.Signing.{hash_signed, verify_signature}
use f.Block.{Block}
use f.Block.Hashing.{hash_block}
use f.Blockchain.{
  Blockchain, received, for_each, contains_block, pow_validity_check, parent_check,
  add_to_orphan_buffer, insert_recursively,
}
use f.Blockchain.Reads.{get_block, get_state}
use f.Mempool.{Mempool, get_transaction, insert_transaction}
use f.Network.Message.{
  Message, Codec, ping, pong, new_block_hashes, get_blocks, blocks, new_transaction_hashes,
  get_transactions, transactions,
}
use f.Externals.{Externals}

-- `peer.write(m)` to the sender of the message, and `server.broadcast(m)`
pub data Effect : Type 0 where
  write broadcast : Message → Effect

-- What the workers share.
pub record Node : Type 0 where
  pub blockchain : Blockchain
  pub mempool : Mempool

-- A message is sent only if its list is not empty.
abbrev pub unless_empty {ℓ} : {A : Type ℓ} → List A → Effect → List Effect
unless_empty [] e = []
unless_empty (x ∷ xs) e = e ∷ []

unfoldable pub on_new_block_hashes : List H256 → Node → List Effect
on_new_block_hashes hashes node =
    let missing_hashes = filter (λ h. not (contains_block h node.blockchain)) hashes in
    unless_empty missing_hashes (write (get_blocks missing_hashes))

-- `map(get_block)` over hashes that the chain contains
unfoldable pub fetch_blocks : List H256 → Blockchain → Result (List Block)
fetch_blocks [] c = ok []
fetch_blocks (h ∷ hs) c = do b ← get_block h c; rest ← fetch_blocks hs c; ok (b ∷ rest)

unfoldable pub on_get_blocks : List H256 → Node → Result (List Effect)
unfolding fetch_blocks
on_get_blocks hashes node = do
  found ← fetch_blocks (filter (λ h. contains_block h node.blockchain) hashes) node.blockchain
  ok (unless_empty found (write (blocks found)))

-- The variables of the loop over received blocks.
pub record Adoption : Type 0 where
  pub blockchain : Blockchain
  pub relay_hashes : List H256
  pub missing_hashes : List H256
  pub effects : List Effect

unfoldable pub on_new_transaction_hashes : List H256 → Node → List Effect
on_new_transaction_hashes hashes node =
    let missing_hashes = filter (λ h. not (is_some (get_transaction h node.mempool))) hashes in
    unless_empty missing_hashes (write (get_transactions missing_hashes))

unfoldable pub fetch_transactions : List H256 → Mempool → Result (List SignedTransaction)
fetch_transactions [] m = ok []
fetch_transactions (h ∷ hs) m = do
  t ← unwrap (get_transaction h m)
  rest ← fetch_transactions hs m
  ok (t ∷ rest)

unfoldable pub on_get_transactions : List H256 → Node → Result (List Effect)
unfolding fetch_transactions
on_get_transactions hashes node = do
  tx_list ← fetch_transactions hashes node.mempool
  ok (unless_empty tx_list (write (transactions tx_list)))

module _ (ext : Externals) where
  -- One received block. The difference of the times is taken before `or_insert` looks at the entry.
  unfoldable pub on_block : ℕ → Block → Adoption → Result Adoption
  on_block now block s = do
    delay_ms ← sub_word ext.overflow_checks 128 now block.header.timestamp
    let block_hash = hash_block ext block
    let c = record s.blockchain {
      hash_to_origin = or_insert block_hash (received delay_ms) s.blockchain.hash_to_origin;
    }
    let orphaned = record s {
      blockchain = add_to_orphan_buffer block c;
      missing_hashes = s.missing_hashes ++ block.header.parent ∷ [];
    }
    let adopted = (do
      (c', relay) ← insert_recursively ext (suc (length c.orphan_buffer)) block (c, s.relay_hashes)
      ok (record s {
        blockchain = c';
        relay_hashes = relay;
        effects = s.effects ++ write (transactions block.content.transactions) ∷ [];
      }))
    if contains_block block_hash c
        then ok (record s { blockchain = c })
        else if not (pow_validity_check ext block c)
        then ok (record s { blockchain = c })
        else if not (parent_check block c)
        then ok orphaned
        else adopted

  unfoldable pub on_blocks : ℕ → List Block → Node → Result (Node × List Effect)
  unfolding on_block for_each
  on_blocks now bs node = do
    s ← for_each (on_block now) bs (record {
      blockchain = node.blockchain;
      relay_hashes = [];
      missing_hashes = [];
      effects = [];
    })
    ok (
      record node { blockchain = s.blockchain },
      s.effects
          ++ (unless_empty s.missing_hashes (write (get_blocks s.missing_hashes))
              ++ unless_empty s.relay_hashes (broadcast (new_block_hashes s.relay_hashes))),
    )

  -- The loop over the inputs of a transaction: whether it ends without a `break`.
  unfoldable pub check_inputs : State → List ℕ → List TransactionInput → Bool
  check_inputs curr_state publickey [] = true
  check_inputs curr_state publickey (each_input ∷ rest) = elim (get each_input curr_state) [
    | none ↦ false
    | some each_output ↦
        if not (each_output.recipient == from_pubkey ext.sha256 publickey)
        then false
        else if h256_lt each_input.prev_tx each_output.value
        then false
        else check_inputs curr_state publickey rest
  ]

  -- One received transaction; the pool and the hashes of the valid ones.
  unfoldable pub on_transaction :
      Blockchain → SignedTransaction → Mempool × List H256 → Result (Mempool × List H256)
  unfolding check_inputs
  on_transaction c tx (pool, valid_tx) =
      let checked = (do
        curr_state ← get_state c.tip c
        ok (
            if check_inputs curr_state tx.pub_key tx.raw.inputs
            then (insert_transaction ext tx pool, valid_tx ++ hash_signed ext tx ∷ [])
            else (pool, valid_tx))) in
      if verify_signature ext tx then checked else ok (pool, valid_tx)

  unfoldable pub on_transactions : List SignedTransaction → Node → Result (Node × List Effect)
  unfolding on_transaction for_each
  on_transactions txs node = do
    (pool, valid_tx) ← for_each (on_transaction node.blockchain) txs (node.mempool, [])
    ok (
      record node { mempool = pool },
      unless_empty valid_tx (broadcast (new_transaction_hashes valid_tx)),
    )

  -- One round of `worker_loop`, on a message that has been deserialised.
  unfoldable pub on_message : ℕ → Message → Node → Result (Node × List Effect)
  unfolding on_new_block_hashes on_get_blocks on_blocks on_new_transaction_hashes
      on_get_transactions on_transactions
  on_message now (ping nonce) node = ok (node, write (pong nonce) ∷ [])
  on_message now (pong nonce) node = ok (node, [])
  on_message now (new_block_hashes hashes) node = ok (node, on_new_block_hashes hashes node)
  on_message now (get_blocks hashes) node = do
    effects ← on_get_blocks hashes node
    ok (node, effects)
  on_message now (blocks bs) node = on_blocks now bs node
  on_message now (new_transaction_hashes hashes) node =
      ok (node, on_new_transaction_hashes hashes node)
  on_message now (get_transactions hashes) node = do
    effects ← on_get_transactions hashes node
    ok (node, effects)
  on_message now (transactions txs) node = on_transactions txs node

  -- The same, from the bytes that the server passes on.
  unfoldable pub on_bytes : Codec → ℕ → List ℕ → Node → Result (Node × List Effect)
  unfolding on_message
  on_bytes codec now bytes node = do msg ← unwrap (codec.deserialize bytes); on_message now msg node
