-- ===== src/Network/Worker/Order.antt =====
-- src/network/worker.rs, Transactions: the order of the transactions in a message.
use mathlib.Core.Logic.{∥∥₁_elim}
use mathlib.Core.List.{Perm}
use mathlib.Core.Quot
use mathlib.Core.Quot.{Quot, Quot-set}
use f.Prelude.{◌≡◌, refl, Bool, List, [], ◌∷◌, filter, ok, Bool-cases, inl, inr}
use f.Transaction.{SignedTransaction, State}
use f.Blockchain.Reads.{get_state}
use f.Mempool.{Mempool}
use f.Mempool.Abstract.{view, IsCollisionFree, offer_all, offer_all-Perm}
use f.Network.Worker.{Node, Effect, on_transactions}
use f.Network.Worker.Transactions.{is_valid, insert_all, on_transactions_lem}
use f.Externals.{Externals}

module _ (ext : Externals) where
  insert_all-filter :
      (p : SignedTransaction → Bool) (ts : List SignedTransaction) (m : Mempool)
      → insert_all ext (filter p ts) m ≡ offer_all ext p ts m
  unfolding insert_all filter
  insert_all-filter p [] m = refl
  insert_all-filter p (t ∷ ts) m = elim (Bool-cases (p t)) [
    | inl taken ↦ rw taken (insert_all-filter p ts _)
    | inr left ↦ rw left (insert_all-filter p ts m)
  ]

  -- Where the tip has a state, the same transactions in another order, of which no two have the same hash,
  -- are handled without a panic, too, and lead to the same pool up to the order of its entries; the chain
  -- is the same.
  pub on_transactions_order :
      (txs us : List SignedTransaction) (node : Node) (s : State)
      → get_state node.blockchain.tip node.blockchain ≡ ok s
      → Perm txs us
      → IsCollisionFree ext txs
      → (r r' : Node × List Effect) × (on_transactions ext txs node ≡ ok r)
        × (on_transactions ext us node ≡ ok r')
        × (view r.0.mempool ≡ view r'.0.mempool)
        × (r.0.blockchain ≡ r'.0.blockchain)
  on_transactions_order txs us node s e same apart = (
    _,
    _,
    on_transactions_lem ext txs node s e,
    on_transactions_lem ext us node s e,
    rw
        (
          insert_all-filter (is_valid ext s) txs node.mempool,
          insert_all-filter (is_valid ext s) us node.mempool,
        )
        (∥∥₁_elim same (Quot-set _ _)
          (λ d. Quot.sound (offer_all-Perm ext (is_valid ext s) txs us node.mempool d apart))),
    refl,
  )
