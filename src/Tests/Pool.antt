-- ===== src/Tests/Pool.antt =====
-- The pool and the received transactions on concrete data.
use f.Prelude.{
  ℕ, ◌+◌, ◌<◌, ◌≡◌, ◌↔◌, ◌⊎◌, refl, subst, Bool, true, false, Option, none, some, List, [], ◌∷◌,
  map, filter, replicate, if◌then◌else◌, length, Result, ok, panic, All,
}
use f.Crypto.Hash.{H256, h256_eq, h256_beq}
use f.HashMap
use f.HashMap.{get}
use f.Transaction.{TransactionInput, SignedTransaction, State, default_signed, input_eq}
use f.Transaction.Signing.{hash_signed}
use f.Blockchain.{new, genesis_state, repeated}
use f.Blockchain.Reads.{get_state}
use f.Mempool
use f.Mempool.{Mempool, pop, get_transaction, insert_transaction}
use f.Mempool.Pop.{IsKeyed, insert_transaction-IsKeyed, pop_effect}
use f.Network.Message.{transactions, get_transactions, new_transaction_hashes}
use f.Network.Worker.{
  Node, Effect, write, broadcast, unless_empty, on_transactions, on_get_transactions, on_message,
}
use f.Network.Worker.Transactions.{
  is_valid, insert_all, on_transactions_lem, any_signed, on_transactions_no_state,
}
use f.Network.Worker.Relay.{Knows, lacked, requested, answered, announced, transactions_exchanged}
use f.Network.Worker.Requests.{lacks, pooled, on_get_transactions_lem}
use f.Mempool.Abstract.{view, IsCollisionFree}
use f.Network.Worker.Order.{on_transactions_order}
use mathlib.Core.List.Perm
use f.Tests.{toy, grown}

-- The first initial output, spent by its owner.
abbrev pub payment : SignedTransaction
payment = record {
  raw = record { inputs = record { txid = 1; prev_tx = repeated 50 } ∷ []; outputs = [] };
  pub_key = replicate 32 100;
  signature = 1 ∷ 0 ∷ [];
}

abbrev pub payment_hash : H256
payment_hash = record { bytes = 1 ∷ 0 ∷ replicate 32 100 }

abbrev pub pool : Mempool
pool = record { hash_to_transaction = (payment_hash, payment) ∷ [] }

abbrev pub fresh_node : Node
fresh_node = record { blockchain = new toy; mempool = Mempool.new }

empty-IsKeyed : IsKeyed toy Mempool.new
unfolding get
empty-IsKeyed = record { keyed = λ h t e. cc }

inserted_payment : insert_transaction toy payment Mempool.new ≡ pool
unfolding insert_transaction HashMap.insert hash_signed
inserted_payment = refl

pub pool-IsKeyed : IsKeyed toy pool
pool-IsKeyed =
    subst (IsKeyed toy) inserted_payment
      (insert_transaction-IsKeyed toy payment Mempool.new empty-IsKeyed)

pop_effect_example :
    ((pool.hash_to_transaction ≡ []) × (pop 4 pool ≡ (none, pool)))
    ⊎ ((t : SignedTransaction) × (m' : Mempool) × (pop 4 pool ≡ (some t, m'))
        × (get_transaction (hash_signed toy t) pool ≡ some t)
        × ((h : H256)
            → get_transaction h m'
              ≡ (if h256_beq (hash_signed toy t) h then none else get_transaction h pool))
        × (length m'.hash_to_transaction < length pool.hash_to_transaction)
        × IsKeyed toy m')
pop_effect_example = pop_effect toy 4 pool pool-IsKeyed

state_of_new : get_state (new toy).tip (new toy) ≡ ok (genesis_state toy)
unfolding new get_state get h256_beq f.Prelude.bytes_beq f.Block.Hashing.hash_block
state_of_new = refl

on_transactions_lem_example :
    on_transactions toy (payment ∷ default_signed ∷ []) fresh_node
    ≡ ok (
      record fresh_node {
        mempool =
            insert_all toy
              (filter (is_valid toy (genesis_state toy)) (payment ∷ default_signed ∷ []))
              Mempool.new;
      },
      unless_empty
          (map
            (hash_signed toy)
            (filter (is_valid toy (genesis_state toy)) (payment ∷ default_signed ∷ [])))
          (broadcast (
            new_transaction_hashes (
              map
                (hash_signed toy)
                (filter (is_valid toy (genesis_state toy)) (payment ∷ default_signed ∷ []))))),
    )
on_transactions_lem_example =
    on_transactions_lem toy (payment ∷ default_signed ∷ []) fresh_node (genesis_state toy)
      state_of_new

no_state_of_grown : get grown.tip grown.hash_to_state ≡ none
unfolding new get h256_beq f.Prelude.bytes_beq f.Block.Hashing.hash_block
no_state_of_grown = refl

on_transactions_no_state_example :
    on_transactions toy (payment ∷ []) (record { blockchain = grown; mempool = Mempool.new })
    ≡ panic
unfolding any_signed f.Transaction.Signing.verify_signature f.Prelude.bytes_beq
on_transactions_no_state_example =
    on_transactions_no_state toy (payment ∷ [])
      (record { blockchain = grown; mempool = Mempool.new }) no_state_of_grown

on_get_transactions_lem_example :
    on_get_transactions (payment_hash ∷ []) (record { blockchain = grown; mempool = pool })
    ≡ ok (write (transactions (payment ∷ [])) ∷ [])
unfolding lacks pooled get_transaction get h256_beq f.Prelude.bytes_beq
on_get_transactions_lem_example =
    on_get_transactions_lem (payment_hash ∷ []) (record { blockchain = grown; mempool = pool })

abbrev with_payment : Node
with_payment = record { blockchain = new toy; mempool = pool }

payment_found : get_transaction (hash_signed toy payment) pool ≡ some payment
unfolding get_transaction get h256_beq f.Prelude.bytes_beq hash_signed
payment_found = refl

transactions_exchanged_example :
    (on_message toy 9 (new_transaction_hashes (map (hash_signed toy) (payment ∷ []))) fresh_node
      ≡ ok (fresh_node, requested toy (lacked toy Mempool.new (payment ∷ []))))
    × (on_message toy 9
          (get_transactions (map (hash_signed toy) (lacked toy Mempool.new (payment ∷ []))))
          with_payment
        ≡ ok (with_payment, answered toy (lacked toy Mempool.new (payment ∷ []))))
    × ((pool' : Mempool.Mempool) × (on_message toy 9
            (transactions (lacked toy Mempool.new (payment ∷ [])))
            fresh_node
          ≡ ok (
            record fresh_node { mempool = pool' },
            announced toy
                (filter (is_valid toy (genesis_state toy)) (lacked toy Mempool.new (payment ∷ []))),
          ))
        × Knows toy (genesis_state toy) (payment ∷ []) pool')
transactions_exchanged_example =
    transactions_exchanged toy 9 (payment ∷ []) fresh_node with_payment (genesis_state toy)
      (payment_found, tt) state_of_new

apart : IsCollisionFree toy (payment ∷ default_signed ∷ [])
unfolding hash_signed
apart = ((λ same. cc, tt), (tt, tt))

on_transactions_order_example :
    (r r' : Node × List Effect) × (on_transactions toy (payment ∷ default_signed ∷ []) fresh_node
      ≡ ok r)
    × (on_transactions toy (default_signed ∷ payment ∷ []) fresh_node ≡ ok r')
    × (view r.0.mempool ≡ view r'.0.mempool)
    × (r.0.blockchain ≡ r'.0.blockchain)
on_transactions_order_example =
    on_transactions_order toy (payment ∷ default_signed ∷ []) (default_signed ∷ payment ∷ [])
      fresh_node (genesis_state toy) state_of_new (Perm.swap default_signed payment []) apart
