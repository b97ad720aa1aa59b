-- ===== src/Network/Worker/Work.antt =====
-- src/network/worker.rs: what received blocks do to the proof of work in the chain.
use f.Prelude.{ℕ, ◌≡◌, sym, subst, List, [], ok, Result, >>=-eq-ok, ok-injective}
use f.Crypto.Hash.{h256_eq}
use f.Block.{Block}
use f.Blockchain.{for_each}
use f.Blockchain.Loops.{for_each_keeps}
use f.Blockchain.Work.{
  AllWorked, insert_recursively-AllWorked, pow_validity_check-IsWorked, buffered-AllWorked,
}
use f.Network.Message.{
  Message, ping, pong, new_block_hashes, get_blocks, blocks, new_transaction_hashes,
  get_transactions, transactions,
}
use f.Network.Worker.{
  Node, Effect, Adoption, on_block, on_blocks, on_get_blocks, on_get_transactions, on_transaction,
  on_transactions, on_message,
}
use f.Network.Worker.Blocks.{noted, Handled, skipped, orphaned, adopted, on_block-Handled}
use f.Externals.{Externals}

module _ (ext : Externals) where
  noted-AllWorked :
      (now : ℕ) (b : Block) (s : Adoption) (delay : ℕ)
      → AllWorked ext s.blockchain
      → AllWorked ext (noted ext now b s delay)
  unfolding noted
  noted-AllWorked now b s delay v = record {
    target = v.target;
    in_chain = v.in_chain;
    waiting = v.waiting;
  }

  Handled-AllWorked :
      (now : ℕ) (b : Block) (s s' : Adoption)
      → AllWorked ext s.blockchain
      → Handled ext now b s s'
      → AllWorked ext s'.blockchain
  Handled-AllWorked now b s s' v (skipped delay r) =
      subst (λ (x : Adoption). AllWorked ext x.blockchain) (sym r) (noted-AllWorked now b s delay v)
  Handled-AllWorked now b s s' v (orphaned delay strong lost r) =
      let w = noted-AllWorked now b s delay v in
      subst (λ (x : Adoption). AllWorked ext x.blockchain) (sym r)
        (buffered-AllWorked ext b (noted ext now b s delay)
          (pow_validity_check-IsWorked ext b (noted ext now b s delay) w strong) w)
  Handled-AllWorked now b s s' v (adopted delay c' relay strong known ran r) =
      let w = noted-AllWorked now b s delay v in
      subst (λ (x : Adoption). AllWorked ext x.blockchain) (sym r)
        (insert_recursively-AllWorked ext _ b (noted ext now b s delay, s.relay_hashes) (c', relay)
          (pow_validity_check-IsWorked ext b (noted ext now b s delay) w strong) w ran)

  on_blocks-AllWorked :
      (now : ℕ) (bs : List Block) (node node' : Node) (effects : List Effect)
      → AllWorked ext node.blockchain
      → on_blocks ext now bs node ≡ ok (node', effects)
      → AllWorked ext node'.blockchain
  unfolding on_blocks
  on_blocks-AllWorked now bs node node' effects v e =
      let s₀ : Adoption = record {
        blockchain = node.blockchain;
        relay_hashes = [];
        missing_hashes = [];
        effects = [];
      } in
      let (s, ran, k) = >>=-eq-ok (for_each (on_block ext now) bs s₀) _ e in
      let p =
        for_each_keeps (λ x. AllWorked ext x.blockchain) (on_block ext now)
          (λ b t t' w ran'. Handled-AllWorked now b t t' w (on_block-Handled ext now b t t' ran'))
          bs s₀ s v ran in
      subst (λ (x : Node × List Effect). AllWorked ext x.0.blockchain) (ok-injective k) p

  pub unchanged :
      (node node' : Node) (effects effects' : List Effect)
      → AllWorked ext node.blockchain
      → ◌≡◌ {A = Result (Node × List Effect)} (ok (node, effects)) (ok (node', effects'))
      → AllWorked ext node'.blockchain
  unchanged node node' effects effects' v e =
      subst (λ (x : Node × List Effect). AllWorked ext x.0.blockchain) (ok-injective e) v

  pub on_message-AllWorked :
      (now : ℕ) (message : Message) (node node' : Node) (effects : List Effect)
      → AllWorked ext node.blockchain
      → on_message ext now message node ≡ ok (node', effects)
      → AllWorked ext node'.blockchain
  unfolding on_message on_transactions
  on_message-AllWorked now (ping nonce) node node' effects v e = unchanged node node' _ effects v e
  on_message-AllWorked now (pong nonce) node node' effects v e = unchanged node node' _ effects v e
  on_message-AllWorked now (new_block_hashes hashes) node node' effects v e =
      unchanged node node' _ effects v e
  on_message-AllWorked now (get_blocks hashes) node node' effects v e =
      let (sent, ran, k) = >>=-eq-ok (on_get_blocks hashes node) _ e in
      unchanged node node' _ effects v k
  on_message-AllWorked now (blocks bs) node node' effects v e =
      on_blocks-AllWorked now bs node node' effects v e
  on_message-AllWorked now (new_transaction_hashes hashes) node node' effects v e =
      unchanged node node' _ effects v e
  on_message-AllWorked now (get_transactions hashes) node node' effects v e =
      let (sent, ran, k) = >>=-eq-ok (on_get_transactions hashes node) _ e in
      unchanged node node' _ effects v k
  on_message-AllWorked now (transactions txs) node node' effects v e =
      let (r, ran, k) =
        >>=-eq-ok (for_each (on_transaction ext node.blockchain) txs (node.mempool, [])) _ e in
      unchanged (record node { mempool = r.0 }) node' _ effects v k
