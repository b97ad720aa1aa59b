-- ===== src/Miner/Round.antt =====
-- src/miner.rs: what a round of a running miner does to the chain and to the pool.
use f.Prelude.{
  ℕ, ◌<◌, ◌^◌, ◌≡◌, inl, inr, refl, sym, ap, ◌∙◌, subst, true, false, List, [], ◌∷◌, arith, length,
  ok, >>=-eq-ok, >>=-of-ok, ok-injective, Bool-cases, add_word,
}
use f.Crypto.Hash.{h256_eq, h256_le}
use f.Crypto.Merkle
use f.Transaction.{default_signed}
use f.Transaction.Signing.{hash_signed}
use f.HashMap.{insert}
use f.Block.{Block, Header}
use f.Block.Hashing.{hash_block, hash_header}
use f.Blockchain.{Blockchain, mined, insert_block, contains_block}
use f.Blockchain.Reads.{get_block}
use f.Blockchain.Reach.{Reachable, mine, note_origin}
use f.Mempool.{Mempool}
use f.Mempool.Pop.{IsKeyed}
use f.Miner.{Context, collect, header_on_tip, submit, mine_round}
use f.Network.Worker.{Node, Effect, broadcast}
use f.Network.Message.{new_block_hashes}
use f.Miner.Collect.{Collected, collect_effect}
use f.Externals.{Externals}

module _ (ext : Externals) where
  pub header_of :
      (now nonce : ℕ) (c : Blockchain) (h : Header)
      → header_on_tip ext now nonce c ≡ ok h
      → (h.parent ≡ c.tip) × (h.merkle_root ≡ hash_signed ext default_signed)
  unfolding header_on_tip f.Crypto.Merkle.new f.Crypto.Merkle.build f.Crypto.Merkle.root
      f.Crypto.Merkle.node_hash
  header_of now nonce c h e =
      let (tip_block, found, k) = >>=-eq-ok (get_block c.tip c) _ e in
      let same = ok-injective k in
      (ap (λ (x : Header). x.parent) (sym same), ap (λ (x : Header). x.merkle_root) (sym same))

  -- The ways in which a round ends, for the block that it tried.
  pub data Round (ctx : Context) (c : Blockchain) (block : Block) (pool : Mempool)
      (r : Context × (Node × List Effect)) : Type 0 where
    missed :
        h256_le (hash_block ext block) block.header.difficulty ≡ false
        → r ≡ (ctx, (record { blockchain = c; mempool = pool }, []))
        → Round ctx c block pool r
    found :
        (c' : Blockchain) (total : ℕ)
        → h256_le (hash_block ext block) block.header.difficulty ≡ true
        → insert_block ext block c ≡ ok c'
        → add_word ext.overflow_checks 64 ctx.total_blocks_mined 1 ≡ ok total
        → r ≡ (
          record ctx { total_blocks_mined = total },
          (
            record {
              blockchain = record c' {
                hash_to_origin = insert (hash_block ext block) mined c'.hash_to_origin;
              };
              mempool = pool;
            },
            broadcast (new_block_hashes (hash_block ext block ∷ [])) ∷ [],
          ),
        )
        → Round ctx c block pool r

  pub submit-Round :
      (ctx : Context) (c : Blockchain) (pool : Mempool) (block : Block)
      (r : Context × (Node × List Effect))
      → submit ext ctx c pool block ≡ ok r
      → Round ctx c block pool r
  unfolding submit
  submit-Round ctx c pool block r e =
      elim (Bool-cases (h256_le (hash_block ext block) block.header.difficulty)) [
        | inr weak ↦ missed weak (sym (ok-injective (rw weak at e)))
        | inl strong ↦
            let (c', inserted, k) = >>=-eq-ok (insert_block ext block c) _ (rw strong at e) in
            let (total, counted, k') =
              >>=-eq-ok (add_word ext.overflow_checks 64 ctx.total_blocks_mined 1) _ k in
            found c' total strong inserted counted (sym (ok-injective k'))
      ]

  -- A round that returns, from a pool whose transactions stand under their hashes, has tried one block
  -- on the tip, of at most 20 transactions: the default one, then those that were taken out of the
  -- pool. Its Merkle root is the hash of the default transaction, whatever was taken. If the hash of
  -- the block is above the difficulty, nothing changes but the pool, which has lost the transactions;
  -- otherwise the block is inserted as mined, counted and announced.
  pub mine_round_lem :
      (now nonce : ℕ) (choices : ℕ → ℕ) (ctx : Context) (node : Node)
      (r : Context × (Node × List Effect))
      → IsKeyed ext node.mempool
      → mine_round ext now nonce choices ctx node ≡ ok r
      → (block : Block) × (pool : Mempool) × (block.header.parent ≡ node.blockchain.tip)
        × (block.header.merkle_root ≡ hash_signed ext default_signed)
        × Collected ext (default_signed ∷ []) node.mempool (block.content.transactions, pool)
        × Round ctx node.blockchain block pool r
  unfolding mine_round
  mine_round_lem now nonce choices ctx node r v e =
      let (header, made, k) = >>=-eq-ok (header_on_tip ext now nonce node.blockchain) _ e in
      let (taken, ran, collected) =
        collect_effect ext choices 20 (default_signed ∷ []) node.mempool v (omega arith)
          (omega arith) in
      let block : Block = record { header = header; content = record { transactions = taken.0 } } in
      let (parent, merkle_root) = header_of now nonce node.blockchain header made in
      let k' : submit ext ctx node.blockchain taken.1 block ≡ ok r =
        sym (>>=-of-ok (collect choices 20 (default_signed ∷ []) node.mempool) _ ran) ∙ k in
      (
        block,
        taken.1,
        parent,
        merkle_root,
        collected,
        submit-Round ctx node.blockchain taken.1 block r k',
      )

  -- A round that returns keeps the chain reachable, if no block of the chain has the hash of a header
  -- that the round could have made and there is room for a block; it keeps the transactions of the
  -- pool under their hashes.
  pub mine_round-Reachable :
      (now nonce : ℕ) (choices : ℕ → ℕ) (ctx : Context) (node : Node)
      (r : Context × (Node × List Effect))
      → IsKeyed ext node.mempool
      → Reachable ext node.blockchain
      → length node.blockchain.hash_to_block < 2 ^ 64
      → ((header : Header)
          → header_on_tip ext now nonce node.blockchain ≡ ok header
          → contains_block (hash_header ext header) node.blockchain ≡ false)
      → mine_round ext now nonce choices ctx node ≡ ok r
      → Reachable ext r.1.0.blockchain × IsKeyed ext r.1.0.mempool
  unfolding mine_round hash_block
  mine_round-Reachable now nonce choices ctx node r v reachable room fresh e =
      let (header, made, k) = >>=-eq-ok (header_on_tip ext now nonce node.blockchain) _ e in
      let (taken, ran, collected) =
        collect_effect ext choices 20 (default_signed ∷ []) node.mempool v (omega arith)
          (omega arith) in
      let block : Block = record { header = header; content = record { transactions = taken.0 } } in
      let k' : submit ext ctx node.blockchain taken.1 block ≡ ok r =
        sym (>>=-of-ok (collect choices 20 (default_signed ∷ []) node.mempool) _ ran) ∙ k in
      go block taken.1 collected.keyed (fresh header made)
        (submit-Round ctx node.blockchain taken.1 block r k')
    where
      go :
          (block : Block) (pool : Mempool)
          → IsKeyed ext pool
          → contains_block (hash_block ext block) node.blockchain ≡ false
          → Round ctx node.blockchain block pool r
          → Reachable ext r.1.0.blockchain × IsKeyed ext r.1.0.mempool
      go block pool keyed missing (missed weak done) =
          subst
            (λ (x : Context × (Node × List Effect)).
              Reachable ext x.1.0.blockchain × IsKeyed ext x.1.0.mempool)
            (sym done) (reachable, keyed)
      go block pool keyed missing (found c' total strong inserted counted done) =
          subst
            (λ (x : Context × (Node × List Effect)).
              Reachable ext x.1.0.blockchain × IsKeyed ext x.1.0.mempool)
            (sym done) (note_origin _ (mine block reachable missing room inserted) refl, keyed)
