-- ===== src/Network/Worker/Transactions.antt =====
-- src/network/worker.rs, Transactions: which received transactions are accepted.
use f.Prelude.{
  ◌≡◌, refl, sym, ap, ◌∙◌, Bool, true, false, ◌&&◌, none, List, [], ◌∷◌, ◌++◌, map, filter,
  if◌then◌else◌, ok, panic, >>=-of-ok, Bool-cases, inl, inr,
}
use mathlib.Core.List.{append_assoc, append-nil}
use f.Crypto.Hash.{H256, h256_eq}
use f.Address.{h160_eq}
use f.HashMap.{get}
use f.Transaction.{SignedTransaction, State, input_eq}
use f.Transaction.Signing.{hash_signed, verify_signature}
use f.Blockchain.{Blockchain, for_each}
use f.Blockchain.Reads.{get_state}
use f.Mempool.{Mempool, insert_transaction}
use f.Network.Message.{new_transaction_hashes}
use f.Network.Worker.{Node, broadcast, unless_empty, check_inputs, on_transaction, on_transactions}
use f.Externals.{Externals}

module _ (ext : Externals) where
  -- What the handler accepts, in the state of the tip.
  unfoldable pub is_valid : State → SignedTransaction → Bool
  is_valid s t = verify_signature ext t && check_inputs ext s t.pub_key t.raw.inputs

  unfoldable pub insert_all : List SignedTransaction → Mempool → Mempool
  insert_all [] pool = pool
  insert_all (t ∷ ts) pool = insert_all ts (insert_transaction ext t pool)

  module _ (c : Blockchain) (s : State) (e : get_state c.tip c ≡ ok s) where
    on_transaction-is_valid :
        (t : SignedTransaction) (pool : Mempool) (out : List H256)
        → on_transaction ext c t (pool, out)
          ≡ ok (
              if is_valid s t
              then (insert_transaction ext t pool, out ++ hash_signed ext t ∷ [])
              else (pool, out))
    unfolding on_transaction is_valid
    on_transaction-is_valid t pool out = elim (Bool-cases (verify_signature ext t)) [
      | inl signed ↦ rw (signed, e)
      | inr unsigned ↦ rw unsigned
    ]

    for_each-on_transaction :
        (ts : List SignedTransaction) (pool : Mempool) (out : List H256)
        → for_each (on_transaction ext c) ts (pool, out)
          ≡ ok (
            insert_all (filter (is_valid s) ts) pool,
            out ++ map (hash_signed ext) (filter (is_valid s) ts),
          )
    unfolding for_each insert_all filter
    for_each-on_transaction [] pool out =
        ap (λ (hs : List H256). ok (pool, hs)) (sym (append-nil out))
    for_each-on_transaction (t ∷ ts) pool out = elim (Bool-cases (is_valid s t)) [
      | inl valid ↦
          >>=-of-ok (on_transaction ext c t (pool, out)) _ (on_transaction-is_valid t pool out)
          ∙ rw valid (
              for_each-on_transaction ts (insert_transaction ext t pool)
                (out ++ hash_signed ext t ∷ [])
              ∙ rw append_assoc)
      | inr invalid ↦
          >>=-of-ok (on_transaction ext c t (pool, out)) _ (on_transaction-is_valid t pool out)
          ∙ rw invalid (for_each-on_transaction ts pool out)
    ]

  -- Where the tip has a state, received transactions are handled without a panic: exactly those whose
  -- signature verifies and whose inputs all pass the checks enter the pool, in their order, and their
  -- hashes are broadcast, unless there are none; the chain stays.
  pub on_transactions_lem :
      (txs : List SignedTransaction) (node : Node) (s : State)
      → get_state node.blockchain.tip node.blockchain ≡ ok s
      → on_transactions ext txs node
        ≡ ok (
          record node { mempool = insert_all (filter (is_valid s) txs) node.mempool },
          unless_empty (map (hash_signed ext) (filter (is_valid s) txs)) (
              broadcast (new_transaction_hashes (map (hash_signed ext) (filter (is_valid s) txs)))),
        )
  unfolding on_transactions
  on_transactions_lem txs node s e =
      >>=-of-ok (for_each (on_transaction ext node.blockchain) txs (node.mempool, [])) _
        (for_each-on_transaction node.blockchain s e txs node.mempool [])

  unfoldable pub any_signed : List SignedTransaction → Bool
  any_signed [] = false
  any_signed (t ∷ ts) = if verify_signature ext t then true else any_signed ts

  for_each-no_state :
      (c : Blockchain) (ts : List SignedTransaction) (pool : Mempool) (out : List H256)
      → get c.tip c.hash_to_state ≡ none
      → for_each (on_transaction ext c) ts (pool, out)
        ≡ (if any_signed ts then panic else ok (pool, out))
  unfolding for_each on_transaction any_signed get_state
  for_each-no_state c [] pool out e = refl
  for_each-no_state c (t ∷ ts) pool out e = elim (Bool-cases (verify_signature ext t)) [
    | inl signed ↦ rw (signed, e)
    | inr unsigned ↦ rw unsigned (for_each-no_state c ts pool out e)
  ]

  -- Where the tip has no state, as any tip but the genesis block, received transactions make the
  -- worker panic exactly if one of them carries a signature that verifies; otherwise nothing happens.
  pub on_transactions_no_state :
      (txs : List SignedTransaction) (node : Node)
      → get node.blockchain.tip node.blockchain.hash_to_state ≡ none
      → on_transactions ext txs node ≡ (if any_signed txs then panic else ok (node, []))
  unfolding on_transactions
  on_transactions_no_state txs node e = elim (Bool-cases (any_signed txs)) [
    | inl signed ↦ rw (for_each-no_state node.blockchain txs node.mempool [] e, signed)
    | inr unsigned ↦ rw (for_each-no_state node.blockchain txs node.mempool [] e, unsigned)
  ]
