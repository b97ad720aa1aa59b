-- ===== src/System/Soundness.antt =====
-- What a message and a round of the miner do to what the threads share.
use f.Prelude.{
  ℕ, ◌^◌, ◌≤◌, ◌≡◌, ◌⊎◌, inl, inr, sym, ap, subst, List, [], length, Bool-cases, Result, ok,
  >>=-eq-ok, ok-injective,
}
use f.Crypto.Hash.{H256}
use f.Transaction.{SignedTransaction}
use f.Transaction.Signing.{verify_signature}
use f.Blockchain.{Blockchain, for_each}
use f.Blockchain.Loops.{for_each_keeps}
use f.Blockchain.Reads.{get_state}
use f.Blockchain.Reach.{Reachable}
use f.Mempool.{Mempool}
use f.Mempool.Pop.{IsKeyed, insert_transaction-IsKeyed}
use f.Network.Message.{
  Message, ping, pong, new_block_hashes, get_blocks, blocks, new_transaction_hashes,
  get_transactions, transactions,
}
use f.Network.Worker.{
  Node, Effect, on_get_blocks, on_get_transactions, on_transaction, on_transactions, check_inputs,
  on_message,
}
use f.Network.Worker.Blocks.{on_blocks-Reachable}
use f.Miner.{
  Context, Incoming, signal, empty, disconnected, OperatingState, paused, run, shut_down,
  handle_control_signal, mine_round, mine_in, round_in,
}
use f.Externals.{Externals}

module _ (ext : Externals) where
  -- The chain is one that insertions make, and the pool has each transaction under its hash.
  abbrev pub Keeps : Node → Type 0
  Keeps node = Reachable ext node.blockchain × IsKeyed ext node.mempool

  on_transaction-IsKeyed :
      (c : Blockchain) (t : SignedTransaction) (s s' : Mempool × List H256)
      → IsKeyed ext s.0
      → on_transaction ext c t s ≡ ok s'
      → IsKeyed ext s'.0
  unfolding on_transaction
  on_transaction-IsKeyed c t (pool, out) s' v e = elim (Bool-cases (verify_signature ext t)) [
    | inr forged ↦
        subst (λ (x : Mempool × List H256). IsKeyed ext x.0) (ok-injective (rw forged at e)) v
    | inl signed ↦
        let (state, found, k) = >>=-eq-ok (get_state c.tip c) _ (rw signed at e) in
        elim (Bool-cases (check_inputs ext state t.pub_key t.raw.inputs)) [
          | inl valid ↦
              subst (λ (x : Mempool × List H256). IsKeyed ext x.0) (ok-injective (rw valid at k))
                (insert_transaction-IsKeyed ext t pool v)
          | inr invalid ↦
              subst (λ (x : Mempool × List H256). IsKeyed ext x.0) (ok-injective (rw invalid at k))
                v
        ]
  ]

  unchanged :
      (node node' : Node) (effects effects' : List Effect)
      → Keeps node
      → ◌≡◌ {A = Result (Node × List Effect)} (ok (node, effects)) (ok (node', effects'))
      → Keeps node'
  unchanged node node' effects effects' v e =
      subst (λ (x : Node × List Effect). Keeps x.0) (ok-injective e) v

  pub on_message-Keeps :
      (now : ℕ) (message : Message) (node node' : Node) (effects : List Effect)
      → Keeps node
      → on_message ext now message node ≡ ok (node', effects)
      → length node'.blockchain.hash_to_block ≤ 2 ^ 64
      → Keeps node'
  unfolding on_message on_transactions
  on_message-Keeps now (ping nonce) node node' effects v e room = unchanged node node' _ effects v e
  on_message-Keeps now (pong nonce) node node' effects v e room = unchanged node node' _ effects v e
  on_message-Keeps now (new_block_hashes hashes) node node' effects v e room =
      unchanged node node' _ effects v e
  on_message-Keeps now (get_blocks hashes) node node' effects v e room =
      let (sent, ran, k) = >>=-eq-ok (on_get_blocks hashes node) _ e in
      unchanged node node' _ effects v k
  on_message-Keeps now (blocks bs) node node' effects v e room =
      let (chain, pool) = on_blocks-Reachable ext now bs node node' effects v.0 e room in
      (chain, subst (IsKeyed ext) (sym pool) v.1)
  on_message-Keeps now (new_transaction_hashes hashes) node node' effects v e room =
      unchanged node node' _ effects v e
  on_message-Keeps now (get_transactions hashes) node node' effects v e room =
      let (sent, ran, k) = >>=-eq-ok (on_get_transactions hashes node) _ e in
      unchanged node node' _ effects v k
  on_message-Keeps now (transactions txs) node node' effects v e room =
      let (r, ran, k) =
        >>=-eq-ok (for_each (on_transaction ext node.blockchain) txs (node.mempool, [])) _ e in
      let keyed : IsKeyed ext r.0 =
        for_each_keeps (λ (x : Mempool × List H256). IsKeyed ext x.0)
          (on_transaction ext node.blockchain) (on_transaction-IsKeyed node.blockchain) txs
          (node.mempool, []) r v.1 ran in
      subst (λ (x : Node × List Effect). Keeps x.0) (ok-injective k) (v.0, keyed)

  idle :
      (ctx : Context) (node : Node) (r : Context × (Node × List Effect))
      → ok (ctx, (node, [])) ≡ ok r
      → r.1.0 ≡ node
  idle ctx node r e = ap (λ (x : Context × (Node × List Effect)). x.1.0) (sym (ok-injective e))

  -- A round of the miner leaves the node as it is, or mines.
  abbrev pub Mines : ℕ → ℕ → (ℕ → ℕ) → Node → Context × (Node × List Effect) → Type 0
  Mines now nonce choices node r =
      (r.1.0 ≡ node) ⊎ ((ctx : Context) × (mine_round ext now nonce choices ctx node ≡ ok r))

  mine_in-Mines :
      (state : OperatingState) (now nonce : ℕ) (choices : ℕ → ℕ) (ctx : Context) (node : Node)
      (r : Context × (Node × List Effect))
      → mine_in ext state now nonce choices ctx node ≡ ok r
      → Mines now nonce choices node r
  unfolding mine_in
  mine_in-Mines (run i) now nonce choices ctx node r e = inr (ctx, e)
  mine_in-Mines paused now nonce choices ctx node r e = inl (idle ctx node r e)
  mine_in-Mines shut_down now nonce choices ctx node r e = inl (idle ctx node r e)

  pub round_in-Mines :
      (state : OperatingState) (now nonce : ℕ) (choices : ℕ → ℕ) (incoming : Incoming)
      (ctx : Context) (node : Node) (r : Context × (Node × List Effect))
      → round_in ext state now nonce choices incoming ctx node ≡ ok r
      → Mines now nonce choices node r
  unfolding round_in
  round_in-Mines shut_down now nonce choices incoming ctx node r e = inl (idle ctx node r e)
  round_in-Mines paused now nonce choices (signal s) ctx node r e =
      let (ctx', handled, k) =
        >>=-eq-ok (handle_control_signal ext now s node.blockchain ctx) _ e in
      inl (idle ctx' node r k)
  round_in-Mines paused now nonce choices empty ctx node r e = inl (idle ctx node r e)
  round_in-Mines paused now nonce choices disconnected ctx node r e = cc
  round_in-Mines (run i) now nonce choices (signal s) ctx node r e =
      let (ctx', handled, k) =
        >>=-eq-ok (handle_control_signal ext now s node.blockchain ctx) _ e in
      mine_in-Mines ctx'.operating_state now nonce choices ctx' node r k
  round_in-Mines (run i) now nonce choices empty ctx node r e =
      mine_in-Mines (run i) now nonce choices ctx node r e
  round_in-Mines (run i) now nonce choices disconnected ctx node r e = cc
