-- ===== src/System/Work.antt =====
-- The proof of work over the runs of all the threads.
use f.Prelude.{
  ℕ, ◌≡◌, ◌⊎◌, inl, inr, sym, ap, ◌∙◌, subst, List, [], ◌∷◌, ok, >>=-eq-ok, ok-injective,
  unwrap-eq-ok,
}
use f.Crypto.Hash.{h256_eq}
use f.HashMap.{get}
use f.Transaction.{default_signed}
use f.Block.{Block, Header, genesis}
use f.Blockchain.{Blockchain}
use f.Blockchain.Reads.{get_block, get_state}
use f.Blockchain.Work.{IsWorked, AllWorked, new-AllWorked, insert_block-AllWorked}
use f.Crypto.Merkle
use f.Mempool.{Mempool}
use f.Miner.{Context, header_on_tip, collect, submit, mine_round, loop_round}
use f.Miner.Round.{Round, missed, found, submit-Round}
use f.Generator.{generation_round}
use f.Network.Worker.{Node, Effect, on_message}
use f.System.{System, Action, receive, mine, generate, new_system, act, act_all}
use f.System.Soundness.{Mines, round_in-Mines}
use f.Externals.{Externals, KeyPair}
use f.Network.Worker.Work.{unchanged, on_message-AllWorked}

module _ (ext : Externals) where
  -- A header of the miner has the difficulty of the block at the tip.
  header_on_tip-target :
      (now nonce : ℕ) (c : Blockchain) (h : Header)
      → AllWorked ext c
      → header_on_tip ext now nonce c ≡ ok h
      → h.difficulty ≡ genesis.header.difficulty
  unfolding header_on_tip get_block f.Crypto.Merkle.new f.Crypto.Merkle.build f.Crypto.Merkle.root
  header_on_tip-target now nonce c h v e =
      let (tip_block, at_tip, k) = >>=-eq-ok (get_block c.tip c) _ e in
      ap (λ (x : Header). x.difficulty) (sym (ok-injective k))
      ∙ of_tip tip_block
          (v.in_chain c.tip tip_block (unwrap-eq-ok (get c.tip c.hash_to_block) at_tip))
    where
      of_tip :
          (b : Block)
          → (b ≡ genesis) ⊎ IsWorked ext b
          → b.header.difficulty ≡ genesis.header.difficulty
      of_tip b (inl root) = ap (λ (x : Block). x.header.difficulty) root
      of_tip b (inr worked) = worked.target

  Round-AllWorked :
      (ctx : Context) (c : Blockchain) (block : Block) (pool : Mempool)
      (r : Context × (Node × List Effect))
      → block.header.difficulty ≡ genesis.header.difficulty
      → AllWorked ext c
      → Round ext ctx c block pool r
      → AllWorked ext r.1.0.blockchain
  Round-AllWorked ctx c block pool r target v (missed weak done) =
      subst (λ (x : Context × (Node × List Effect)). AllWorked ext x.1.0.blockchain) (sym done) v
  Round-AllWorked ctx c block pool r target v (found c' total strong inserted counted done) =
      let w =
        insert_block-AllWorked ext block c c' (record { target = target; hard = strong }) v
          inserted in
      subst (λ (x : Context × (Node × List Effect)). AllWorked ext x.1.0.blockchain) (sym done)
        (record { target = w.target; in_chain = w.in_chain; waiting = w.waiting })

  mine_round-AllWorked :
      (now nonce : ℕ) (choices : ℕ → ℕ) (ctx : Context) (node : Node)
      (r : Context × (Node × List Effect))
      → AllWorked ext node.blockchain
      → mine_round ext now nonce choices ctx node ≡ ok r
      → AllWorked ext r.1.0.blockchain
  unfolding mine_round
  mine_round-AllWorked now nonce choices ctx node r v e =
      let (header, made, k) = >>=-eq-ok (header_on_tip ext now nonce node.blockchain) _ e in
      let (taken, ran, k') =
        >>=-eq-ok (collect choices 20 (default_signed ∷ []) node.mempool)
          (λ x.
            submit ext ctx node.blockchain x.1
              (record { header = header; content = record { transactions = x.0 } }))
          k in
      let block : Block = record { header = header; content = record { transactions = taken.0 } } in
      Round-AllWorked ctx node.blockchain block taken.1 r
        (header_on_tip-target now nonce node.blockchain header v made) v
        (submit-Round ext ctx node.blockchain taken.1 block r k')

  pub act-AllWorked :
      (controlled : KeyPair) (a : Action) (s : System) (r : System × List Effect)
      → AllWorked ext s.node.blockchain
      → act ext controlled a s ≡ ok r
      → AllWorked ext r.0.node.blockchain
  unfolding act
  act-AllWorked controlled (receive now message) s r v e =
      let ((node, sent), ran, k) = >>=-eq-ok (on_message ext now message s.node) _ e in
      subst (λ (x : System × List Effect). AllWorked ext x.0.node.blockchain) (ok-injective k)
        (on_message-AllWorked ext now message s.node node sent v ran)
  act-AllWorked controlled (mine now nonce choices incoming) s r v e =
      let (q, ran, k) = >>=-eq-ok (loop_round ext now nonce choices incoming s.miner s.node) _ e in
      subst (λ (x : System × List Effect). AllWorked ext x.0.node.blockchain) (ok-injective k)
        (mines q (
          round_in-Mines ext s.miner.operating_state now nonce choices incoming s.miner s.node q
            (unfold loop_round in ran)))
    where
      mines :
          (q : Context × (Node × List Effect))
          → Mines ext now nonce choices s.node q
          → AllWorked ext q.1.0.blockchain
      mines q (inl same) = subst (λ (x : Node). AllWorked ext x.blockchain) (sym same) v
      mines q (inr (ctx, mined)) = mine_round-AllWorked now nonce choices ctx s.node q v mined
  act-AllWorked controlled (generate random iter) s r v e =
      let ((node, sent), ran, k) =
        >>=-eq-ok (generation_round ext controlled random iter s.node) _ e in
      let (state, known, k') =
        >>=-eq-ok (get_state s.node.blockchain.tip s.node.blockchain) _
          (unfold generation_round in ran) in
      subst (λ (x : System × List Effect). AllWorked ext x.0.node.blockchain) (ok-injective k)
        (unchanged ext _ node _ sent v k')

  act_all-AllWorked :
      (controlled : KeyPair) (actions : List Action) (s : System) (r : System × List Effect)
      → AllWorked ext s.node.blockchain
      → act_all ext controlled actions s ≡ ok r
      → AllWorked ext r.0.node.blockchain
  unfolding act_all
  act_all-AllWorked controlled [] s r v e =
      subst (λ (x : System × List Effect). AllWorked ext x.0.node.blockchain) (ok-injective e) v
  act_all-AllWorked controlled (a ∷ as') s r v e =
      let (t, ran, k) = >>=-eq-ok (act ext controlled a s) _ e in
      let (end, ran_on, k') = >>=-eq-ok (act_all ext controlled as' t.0) _ k in
      subst (λ (x : System × List Effect). AllWorked ext x.0.node.blockchain) (ok-injective k')
        (act_all-AllWorked controlled as' t.0 end (act-AllWorked controlled a s t v ran) ran_on)

  -- After any run from the start that returns, whatever the messages of the peers are and in whatever
  -- order the threads take the locks, every block of the chain but the genesis block, and every block that
  -- waits for its parent, has the difficulty of the genesis block and a hash that is not above it.
  pub act_all_worked :
      (controlled : KeyPair) (actions : List Action) (s : System) (effects : List Effect)
      → act_all ext controlled actions (new_system ext) ≡ ok (s, effects)
      → AllWorked ext s.node.blockchain
  act_all_worked controlled actions s effects e =
      act_all-AllWorked controlled actions (new_system ext) (s, effects) (new-AllWorked ext) e
