-- ===== src/Blockchain/Insert.antt =====
-- src/blockchain.rs: what `insert` does to the maps, the tip and the invariant.
use f.Prelude.{
  ℕ, ◌+◌, ◌<◌, ◌^◌, ◌≡◌, ap, ◌∙◌, false, some, none, arith, length, if◌then◌else◌, ok, unwrap,
  add_word-fits, ltb, inl, inr, Bool-cases, >>=-eq-ok, unwrap-eq-ok,
}
use f.Crypto.Hash.{H256, h256_eq, h256_beq, h256_beq_iff}
use f.HashMap.{get, insert}
use f.HashMap.Laws.{get-insert, get-not-contains_key, get-insert_self}
use f.HashMap.Size.{length-insert_new}
use f.Block.{Block}
use f.Block.Hashing.{hash_block}
use f.Blockchain.{Blockchain, index_block, insert_block, contains_block, process_all_transactions}
use f.Blockchain.Invariant.{IsWellFormed}
use f.Externals.{Externals}

module _ (ext : Externals) (b : Block) (c : Blockchain) (v : IsWellFormed ext c) where
  -- The chain after the insertion of `b`, whose parent has height `n`.
  indexed : ℕ → Blockchain
  indexed n = record c {
    hash_to_block = insert (hash_block ext b) b c.hash_to_block;
    hash_to_height = insert (hash_block ext b) (n + 1) c.hash_to_height;
    tip = if ltb v.tip_height (n + 1) then hash_block ext b else c.tip;
  }

  module _ (fresh : contains_block (hash_block ext b) c ≡ false) where
    no_block : get (hash_block ext b) c.hash_to_block ≡ none
    unfolding contains_block
    no_block = get-not-contains_key (hash_block ext b) c.hash_to_block fresh

    -- A hash with a height is not that of the new block.
    known_ne :
        (h : H256) (m : ℕ) → get h c.hash_to_height ≡ some m → h256_beq (hash_block ext b) h ≡ false
    known_ne h m e =
        ground (arith, v.block_of_height h m e, h256_beq_iff (hash_block ext b) h, no_block)

    module _ (n : ℕ) (parent : get b.header.parent c.hash_to_height ≡ some n) where
      index_block-indexed : length c.hash_to_block < 2 ^ 64 → index_block ext b c ≡ ok (indexed n)
      unfolding index_block indexed
      index_block-indexed room = rw (
        parent,
        add_word-fits ext.overflow_checks 64 n 1
            (omega (arith, v.bounded b.header.parent n parent)),
        get-insert,
        known_ne c.tip v.tip_height v.tip_at,
        v.tip_at,
      )

      indexed-IsWellFormed : IsWellFormed ext (indexed n)
      unfolding indexed
      indexed-IsWellFormed = record {
        hashed = λ h x e. ground (
          arith,
          get-insert (hash_block ext b) h b c.hash_to_block,
          h256_beq_iff (hash_block ext b) h,
          v.hashed h x,
        );
        height_of_block = λ h x e. elim (Bool-cases (h256_beq (hash_block ext b) h)) [
          | inl same ↦ (n + 1, rw (get-insert, same))
          | inr other ↦
              let old : get h c.hash_to_block ≡ some x =
                ground (arith, get-insert (hash_block ext b) h b c.hash_to_block) in
              let (m, q) = v.height_of_block h x old in (m, rw (get-insert, other) q)
        ];
        block_of_height = λ h m e. elim (Bool-cases (h256_beq (hash_block ext b) h)) [
          | inl same ↦ (b, rw (get-insert, same))
          | inr other ↦
              let old : get h c.hash_to_height ≡ some m =
                ground (arith, get-insert (hash_block ext b) h (n + 1) c.hash_to_height) in
              let (x, q) = v.block_of_height h m old in (x, rw (get-insert, other) q)
        ];
        root_only = λ h e.
            ground (arith, get-insert (hash_block ext b) h (n + 1) c.hash_to_height, v.root_only h);
        parent_height = λ h x m e e'. ground (
          arith,
          get-insert (hash_block ext b) h b c.hash_to_block,
          get-insert (hash_block ext b) h (n + 1) c.hash_to_height,
          get-insert (hash_block ext b) x.header.parent (n + 1) c.hash_to_height,
          h256_beq_iff (hash_block ext b) h,
          v.parent_height h x m,
          known_ne x.header.parent m,
          known_ne b.header.parent n,
          parent,
        );
        bounded = λ h m e. ground (
          arith,
          get-insert (hash_block ext b) h (n + 1) c.hash_to_height,
          v.bounded h m,
          length-insert_new (hash_block ext b) b c.hash_to_block (unfold contains_block in fresh),
          v.bounded b.header.parent n parent,
        );
        tip_height = if ltb v.tip_height (n + 1) then n + 1 else v.tip_height;
        tip_at = ground (
          arith,
          get-insert_self (hash_block ext b) (n + 1) c.hash_to_height,
          get-insert (hash_block ext b) c.tip (n + 1) c.hash_to_height,
          v.tip_at,
          known_ne c.tip v.tip_height v.tip_at,
        );
        tip_highest = λ h m e.
            ground
              (arith, get-insert (hash_block ext b) h (n + 1) c.hash_to_height, v.tip_highest h m);
      }

-- What a successful `insert` has done.
module _ (ext : Externals) (b : Block) (c c' : Blockchain) where
  pub insert_block-index_block : insert_block ext b c ≡ ok c' → index_block ext b c ≡ ok c'
  unfolding insert_block
  insert_block-index_block e =
      let (x, e₁, k₁) = >>=-eq-ok (index_block ext b c) _ e in
      let (state, e₂, k₂) = >>=-eq-ok (unwrap (get b.header.parent x.hash_to_state)) _ k₁ in
      let (dropped, e₃, k₃) = >>=-eq-ok (process_all_transactions ext b state) _ k₂ in e₁ ∙ k₃

  index_block_parent :
      index_block ext b c ≡ ok c' → (n : ℕ) × (get b.header.parent c.hash_to_height ≡ some n)
  unfolding index_block
  index_block_parent e =
      let (n, e₁, k₁) = >>=-eq-ok (unwrap (get b.header.parent c.hash_to_height)) _ e in
      (n, unwrap-eq-ok _ e₁)

  module _ (v : IsWellFormed ext c) (fresh : contains_block (hash_block ext b) c ≡ false)
      (room : length c.hash_to_block < 2 ^ 64) (done : insert_block ext b c ≡ ok c') where
    insert_block-indexed :
        (n : ℕ) × (get b.header.parent c.hash_to_height ≡ some n) × (c' ≡ indexed ext b c v n)
    insert_block-indexed =
        let step = insert_block-index_block done in
        let (n, parent) = index_block_parent step in
        (n, parent, cc (index_block-indexed ext b c v fresh n parent room))

    -- If a block that the well-formed chain of fewer than 2 ^ 64 blocks does not contain is inserted
    -- and `insert` returns, the chain is well-formed again.
    pub insert_block-IsWellFormed : IsWellFormed ext c'
    insert_block-IsWellFormed =
        let (n, parent, e) = insert_block-indexed in
        rw e (indexed-IsWellFormed ext b c v fresh n parent)

    -- Where a block that the well-formed chain of fewer than 2 ^ 64 blocks does not contain is inserted
    -- and `insert` returns, it has put the block under its hash, one higher than
    -- its parent; it has moved the tip to the new block exactly if that is higher than every block
    -- before, and kept the tip otherwise; and lookups of other hashes, the orphan buffer, the origins
    -- and the states are as before: no state of unspent outputs is added for the block.
    pub insert_block_effect :
        (n : ℕ) × (get b.header.parent c.hash_to_height ≡ some n)
        × (c'.tip ≡ (if ltb v.tip_height (n + 1) then hash_block ext b else c.tip))
        × ((h : H256)
            → (get h c'.hash_to_block
                ≡ (if h256_beq (hash_block ext b) h then some b else get h c.hash_to_block))
              × (get h c'.hash_to_height ≡ (
                  if h256_beq (hash_block ext b) h then some (n + 1) else get h c.hash_to_height)))
        × (c'.orphan_buffer ≡ c.orphan_buffer)
        × (c'.hash_to_origin ≡ c.hash_to_origin)
        × (c'.hash_to_state ≡ c.hash_to_state)
    unfolding indexed
    insert_block_effect =
        let (n, parent, e) = insert_block-indexed in
        (
          n,
          parent,
          ap (λ (x : Blockchain). x.tip) e,
          λ h. (rw (e, get-insert), rw (e, get-insert)),
          ap (λ (x : Blockchain). x.orphan_buffer) e,
          ap (λ (x : Blockchain). x.hash_to_origin) e,
          ap (λ (x : Blockchain). x.hash_to_state) e,
        )
