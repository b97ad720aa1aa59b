-- ===== src/Network/Worker/Sync.antt =====
-- src/network/worker.rs: the messages with which a node gets a block of another one.
use f.Prelude.{
  ℕ, suc, ◌≡◌, refl, sym, ap, ◌∙◌, subst, true, false, List, [], ◌∷◌, ◌++◌, arith, length, filter,
  Result, ok, >>=-eq-ok, ok-injective, sub_word, unwrap-eq-ok,
}
use f.Crypto.Hash.{H256, h256_eq}
use f.HashMap.{get, or_insert, contains_key, is_some}
use f.Block.{Block}
use f.Block.Hashing.{hash_block}
use f.Blockchain.{
  Blockchain, received, for_each, contains_block, pow_validity_check, parent_check,
  insert_recursively,
}
use f.Blockchain.Reads.{get_block}
use f.Blockchain.Recursive.{elem, insert_recursively_adds}
use f.Network.Message.{new_block_hashes, get_blocks, blocks, transactions}
use f.Network.Worker.{
  Node, Effect, write, broadcast, unless_empty, Adoption, fetch_blocks, on_new_block_hashes,
  on_get_blocks, on_block, on_blocks, on_message,
}
use f.Externals.{Externals}

module _ (ext : Externals) (now : ℕ) (b : Block) where
  -- What a node does with a block that it takes in: it has the block, it sends the transactions back, and it
  -- relays the block and the orphans that the block has released.
  pub record Adopts (node' : Node) (effects : List Effect) : Type 0 where
    pub has : contains_block (hash_block ext b) node'.blockchain ≡ true
    pub relayed : List H256
    pub with_block : elem (hash_block ext b) relayed ≡ true
    pub sends :
        effects
        ≡ write (transactions b.content.transactions) ∷ broadcast (new_block_hashes relayed) ∷ []

  not_empty :
      (h : H256) (hashes : List H256) (e : Effect)
      → elem h hashes ≡ true
      → unless_empty hashes e ≡ e ∷ []
  not_empty h [] e found = unfold elem in cc
  not_empty h (x ∷ hashes) e found = refl

  -- The chain of a node that has noted the origin of the block.
  abbrev noting : ℕ → Adoption → Blockchain
  noting delay s = record s.blockchain {
    hash_to_origin = or_insert (hash_block ext b) (received delay) s.blockchain.hash_to_origin;
  }

  on_block-insert_recursively :
      (s s' : Adoption)
      → contains_block (hash_block ext b) s.blockchain ≡ false
      → pow_validity_check ext b s.blockchain ≡ true
      → parent_check b s.blockchain ≡ true
      → on_block ext now b s ≡ ok s'
      → (delay : ℕ) × (r : Blockchain × List H256) × (insert_recursively ext
            (suc (length s.blockchain.orphan_buffer))
            b
            (noting delay s, s.relay_hashes)
          ≡ ok r)
        × (s' ≡ record s {
          blockchain = r.0;
          relay_hashes = r.1;
          effects = s.effects ++ write (transactions b.content.transactions) ∷ [];
        })
  unfolding on_block contains_block pow_validity_check parent_check
  on_block-insert_recursively s s' unknown strong rooted e =
      let (delay, timed, k) =
        >>=-eq-ok (sub_word ext.overflow_checks 128 now b.header.timestamp) _ e in
      let k' = rw (unknown, strong, rooted) at (k) in
      let (r, ran, done) =
        >>=-eq-ok
          (insert_recursively ext (suc (length s.blockchain.orphan_buffer)) b
            (noting delay s, s.relay_hashes))
          _ k' in
      (delay, r, ran, sym (ok-injective done))

  -- What the end of `on_blocks` sends, for the variables of the loop.
  abbrev sent : Adoption → List Effect
  sent s =
      s.effects
      ++ (unless_empty s.missing_hashes (write (get_blocks s.missing_hashes))
          ++ unless_empty s.relay_hashes (broadcast (new_block_hashes s.relay_hashes)))

  adopted :
      (node node' : Node) (effects : List Effect) (s : Adoption) (r : Blockchain × List H256)
      → s ≡ record {
        blockchain = r.0;
        relay_hashes = r.1;
        missing_hashes = [];
        effects = write (transactions b.content.transactions) ∷ [];
      }
      → contains_block (hash_block ext b) r.0 ≡ true
      → elem (hash_block ext b) r.1 ≡ true
      → ◌≡◌ {A = Result (Node × List Effect)}
          (ok (record node { blockchain = s.blockchain }, sent s))
          (ok (node', effects))
      → Adopts node' effects
  adopted node node' effects s r same known relayed e =
      let whole : (record node { blockchain = s.blockchain }, sent s) ≡ (node', effects) =
        ok-injective e in
      let chain : r.0 ≡ node'.blockchain =
        ap (λ (x : Adoption). x.blockchain) (sym same)
        ∙ ap (λ (x : Node × List Effect). x.0.blockchain) whole in
      record {
        has = subst (λ (c : Blockchain). contains_block (hash_block ext b) c ≡ true) chain known;
        relayed = r.1;
        with_block = relayed;
        sends =
            ap (λ (x : Node × List Effect). x.1) (sym whole)
            ∙ ap sent same
            ∙ ap (λ es. write (transactions b.content.transactions) ∷ es)
                (not_empty (hash_block ext b) r.1 (broadcast (new_block_hashes r.1)) relayed);
      }

  blocks-Adopts :
      (node node' : Node) (effects : List Effect)
      → contains_block (hash_block ext b) node.blockchain ≡ false
      → pow_validity_check ext b node.blockchain ≡ true
      → parent_check b node.blockchain ≡ true
      → on_blocks ext now (b ∷ []) node ≡ ok (node', effects)
      → Adopts node' effects
  unfolding on_blocks for_each contains_block pow_validity_check parent_check
  blocks-Adopts node node' effects unknown strong rooted e =
      let s₀ : Adoption = record {
        blockchain = node.blockchain;
        relay_hashes = [];
        missing_hashes = [];
        effects = [];
      } in
      let (s, ran, k) = >>=-eq-ok (for_each (on_block ext now) (b ∷ []) s₀) _ e in
      let (s₁, ran₁, k₁) = >>=-eq-ok (on_block ext now b s₀) _ ran in
      let (delay, r, inserted, done) =
        on_block-insert_recursively s₀ s₁ unknown strong rooted ran₁ in
      let (extra, known, pushed, holds, sizes) =
        insert_recursively_adds ext (suc (length node.blockchain.orphan_buffer)) b (noting delay s₀)
          r.0 [] r.1 inserted in
      let elem_new : elem (hash_block ext b) extra ≡ true =
        ground (arith, holds (hash_block ext b), known, unknown) in
      adopted node node' effects s r (sym (ok-injective k₁) ∙ done) known
        (subst (λ hs. elem (hash_block ext b) hs ≡ true) (sym pushed) elem_new) k

  -- A node that lacks a block asks the peer that announces it for the block. The peer, whose chain has the
  -- block, answers with it, and the chain stays. If the block passes the proof-of-work check of the first
  -- node, which has its parent, and the handling of the answer returns, then the first node has the block:
  -- it sends its transactions back, and it announces a list of hashes with that of the block.
  pub blocks_exchanged :
      (asking asking' answering : Node) (effects : List Effect)
      → contains_block (hash_block ext b) asking.blockchain ≡ false
      → pow_validity_check ext b asking.blockchain ≡ true
      → parent_check b asking.blockchain ≡ true
      → get_block (hash_block ext b) answering.blockchain ≡ ok b
      → on_message ext now (blocks (b ∷ [])) asking ≡ ok (asking', effects)
      → (on_message ext now (new_block_hashes (hash_block ext b ∷ [])) asking
          ≡ ok (asking, write (get_blocks (hash_block ext b ∷ [])) ∷ []))
        × (on_message ext now (get_blocks (hash_block ext b ∷ [])) answering
            ≡ ok (answering, write (blocks (b ∷ [])) ∷ []))
        × Adopts asking' effects
  unfolding on_message on_new_block_hashes on_get_blocks fetch_blocks filter get_block
      contains_block contains_key
  blocks_exchanged asking asking' answering effects unknown strong rooted found e =
      let there = unwrap-eq-ok (get (hash_block ext b) answering.blockchain.hash_to_block) found in
      let has : contains_block (hash_block ext b) answering.blockchain ≡ true = ap is_some there in
      (rw unknown, rw (has, found), blocks-Adopts asking asking' effects unknown strong rooted e)
