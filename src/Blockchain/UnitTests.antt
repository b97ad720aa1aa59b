-- ===== src/Blockchain/UnitTests.antt =====
-- src/blockchain.rs: the unit test `insert_one`, for every block that it may make.
use f.Prelude.{
  ℕ, ◌≡◌, ◌≢◌, refl, true, false, some, arith, ltb, ◌+◌, ◌<◌, ◌^◌, ◌∙◌, ok, add_word-fits,
}
use f.Crypto.Hash.{h256_eq, h256_beq, h256_beq_iff}
use f.HashMap.{get, insert}
use f.HashMap.Laws.{get-insert}
use f.Transaction.Signing.{hash_signed}
use f.Transaction.{State, default_signed}
use f.Block.{Block, genesis}
use f.Block.Hashing.{hash_block}
use f.Block.Random.{random_block, generate_random_block}
use f.Blockchain.{
  Blockchain, new, index_block, insert_block, process_all_transactions, genesis_state,
}
use f.Crypto.Merkle
use f.Externals.{Externals}

module _ (ext : Externals) where
  -- A block at the height above the tip, of a new hash and without panics on the way, becomes the tip.
  insert_on_tip :
      (b : Block) (c : Blockchain) (n : ℕ) (s s' : State)
      → get b.header.parent c.hash_to_height ≡ some n
      → get c.tip c.hash_to_height ≡ some n
      → n + 1 < 2 ^ 64
      → hash_block ext b ≢ c.tip
      → get b.header.parent c.hash_to_state ≡ some s
      → process_all_transactions ext b s ≡ ok s'
      → (c' : Blockchain) × (insert_block ext b c ≡ ok c') × (c'.tip ≡ hash_block ext b)
  unfolding insert_block index_block
  insert_on_tip b c n s s' above height room fresh known processed =
      let added = add_word-fits ext.overflow_checks 64 n 1 room in
      let other : h256_beq (hash_block ext b) c.tip ≡ false =
        ground (arith, fresh, h256_beq_iff (hash_block ext b) c.tip) in
      let still : get c.tip (insert (hash_block ext b) (n + 1) c.hash_to_height) ≡ some n =
        get-insert (hash_block ext b) c.tip (n + 1) c.hash_to_height ∙ rw other height in
      let higher : ltb n (n + 1) ≡ true = ground arith in
      (
        record c {
          hash_to_block = insert (hash_block ext b) b c.hash_to_block;
          hash_to_height = insert (hash_block ext b) (n + 1) c.hash_to_height;
          tip = hash_block ext b;
        },
        rw (above, added, still, higher, known, processed) refl,
        refl,
      )

  -- The unit test `insert_one`, for whatever the random nonce and timestamp are: a random block on the tip
  -- of a new chain is made and inserted without a panic, and its hash is the new tip, if it is not that of
  -- the genesis block.
  pub insert_one :
      (nonce timestamp : ℕ)
      → hash_block ext
          (random_block ext nonce timestamp (new ext).tip (hash_signed ext default_signed))
        ≢ hash_block ext genesis
      → (b : Block) × (c : Blockchain) × (generate_random_block ext nonce timestamp (new ext).tip
          ≡ ok b)
        × (insert_block ext b (new ext) ≡ ok c)
        × (c.tip ≡ hash_block ext b)
  unfolding generate_random_block f.Crypto.Merkle.new f.Crypto.Merkle.build f.Crypto.Merkle.root
      f.Crypto.Merkle.node_hash random_block new get process_all_transactions
      f.Blockchain.process_one_transaction
  insert_one nonce timestamp fresh =
      let b = random_block ext nonce timestamp (new ext).tip (hash_signed ext default_signed) in
      let same : h256_beq (hash_block ext genesis) (hash_block ext genesis) ≡ true =
        (h256_beq_iff (hash_block ext genesis) (hash_block ext genesis)).1 refl in
      let (c, inserted, tip) =
        insert_on_tip b (new ext) 0 (genesis_state ext) (genesis_state ext) (rw same refl)
          (rw same refl) (omega arith) fresh (rw same refl) refl in
      (b, c, refl, inserted, tip)
