-- ===== src/Blockchain/Stalled.antt =====
-- src/blockchain.rs: which blocks have a state of unspent outputs, and what `insert` does without one.
use f.Prelude.{
  ℕ, suc, ◌≤◌, ◌≡◌, refl, sym, ap, ◌∙◌, subst, true, false, some, none, List, [], ◌∷◌, ◌++◌, arith,
  ok, panic, >>=-eq-ok, unwrap, >>=-of-ok, >>=-eq-panic, unwrap-eq-ok, add_word-fits, ok-injective,
}
use f.Crypto.Hash.{H256, h256_eq, h256_beq, h256_beq_iff}
use f.HashMap.{HashMap, get, insert, remove, contains_key}
use f.HashMap.Laws.{get-insert, get-insert_self}
use f.Block.{Block, genesis}
use f.Block.Hashing.{hash_block}
use f.Blockchain.{
  Blockchain, new, genesis_state, contains_block, insert_block, index_block, insert_recursively,
  add_to_orphan_buffer, for_each,
}
use f.Blockchain.Fuel.{
  index_block_fields, insert_block_fields, index_block-ne-out_of_fuel, insert_recursively-keeps,
}
use f.Blockchain.Insert.{insert_block-index_block}
use f.Blockchain.Recursive.{contains_block-insert_block}
use f.Blockchain.Reach.{Reachable, start, mine, adopt, buffer, note_origin}
use f.Externals.{Externals}

get_single : {V : Type 0} (g h : H256) (v w : V) → get h ((g, v) ∷ []) ≡ some w → h ≡ g
unfolding get
get_single g h v w e = ground (arith, h256_beq_iff g h)

module _ (ext : Externals) where
  -- Only the genesis block has a state, and no block is higher than 1.
  record IsStalled (c : Blockchain) : Type 0 where
    states : c.hash_to_state ≡ (new ext).hash_to_state
    root_known : contains_block (hash_block ext genesis) c ≡ true
    root_height : get (hash_block ext genesis) c.hash_to_height ≡ some 0
    low : (h : H256) (n : ℕ) → get h c.hash_to_height ≡ some n → n ≤ 1

  new-IsStalled : IsStalled (new ext)
  unfolding new get contains_block contains_key
  new-IsStalled = record {
    states = refl;
    root_known = ground (arith, h256_beq_iff (hash_block ext genesis) (hash_block ext genesis));
    root_height = ground (arith, h256_beq_iff (hash_block ext genesis) (hash_block ext genesis));
    low = λ h n e. ground arith;
  }

  -- A state is found for the genesis block alone.
  state_of_genesis :
      (c c' : Blockchain) (b : Block)
      → c.hash_to_state ≡ (new ext).hash_to_state
      → insert_block ext b c ≡ ok c'
      → b.header.parent ≡ hash_block ext genesis
  unfolding insert_block new
  state_of_genesis c c' b states done =
      let (x, e₁, k₁) = >>=-eq-ok (index_block ext b c) _ done in
      let (state, e₂, k₂) = >>=-eq-ok (unwrap (get b.header.parent x.hash_to_state)) _ k₁ in
      let same = (index_block_fields ext b c x e₁).2 ∙ states in
      get_single (hash_block ext genesis) b.header.parent (genesis_state ext) state (
        subst (λ m. get b.header.parent m ≡ some state) same
          (unwrap-eq-ok (get b.header.parent x.hash_to_state) e₂))

  index_block-heights :
      (b : Block) (c c' : Blockchain)
      → get b.header.parent c.hash_to_height ≡ some 0
      → index_block ext b c ≡ ok c'
      → c'.hash_to_height ≡ insert (hash_block ext b) 1 c.hash_to_height
  unfolding index_block
  index_block-heights b c c' root done =
      let done' = rw (root, add_word-fits ext.overflow_checks 64 0 1 (omega arith)) at (done) in
      let (t, e, k) =
        >>=-eq-ok (unwrap (get c.tip (insert (hash_block ext b) 1 c.hash_to_height))) _ done' in
      sym (ap (λ (x : Blockchain). x.hash_to_height) (ok-injective k))

  inserted-IsStalled :
      (b : Block) (c c' : Blockchain)
      → IsStalled c
      → contains_block (hash_block ext b) c ≡ false
      → insert_block ext b c ≡ ok c'
      → IsStalled c'
  inserted-IsStalled b c c' v new_block done =
      let parent = state_of_genesis c c' b v.states done in
      let step = insert_block-index_block ext b c c' done in
      let heights =
        index_block-heights b c c'
          (subst (λ h. get h c.hash_to_height ≡ some 0) (sym parent) v.root_height) step in
      let other : h256_beq (hash_block ext b) (hash_block ext genesis) ≡ false =
        ground (arith, v.root_known, h256_beq_iff (hash_block ext b) (hash_block ext genesis)) in
      record {
        states = (index_block_fields ext b c c' step).2 ∙ v.states;
        root_known = ground (
          arith,
          contains_block-insert_block ext b c c' done (hash_block ext genesis),
          v.root_known,
        );
        root_height = rw (heights, get-insert, other) v.root_height;
        low = λ h n e. ground (
          arith,
          subst (λ m. get h m ≡ some n) heights e,
          get-insert (hash_block ext b) h 1 c.hash_to_height,
          v.low h n,
        );
      }

  IsStalled-orphans :
      (c : Blockchain) (m : HashMap H256 (List Block))
      → IsStalled c
      → IsStalled (record c { orphan_buffer = m })
  unfolding contains_block
  IsStalled-orphans c m v = record {
    states = v.states;
    root_known = v.root_known;
    root_height = v.root_height;
    low = v.low;
  }

  adopted-IsStalled :
      (fuel : ℕ) (b : Block) (s s' : Blockchain × List H256)
      → IsStalled s.0
      → insert_recursively ext fuel b s ≡ ok s'
      → IsStalled s'.0
  adopted-IsStalled =
      insert_recursively-keeps ext (λ s. IsStalled s.0)
        (λ b c c' out p new_block done. inserted-IsStalled b c c' p new_block done)
        (λ h c out p. IsStalled-orphans c (remove h c.orphan_buffer) p)

  Reachable-IsStalled : {c : Blockchain} → Reachable ext c → IsStalled c
  unfolding add_to_orphan_buffer contains_block
  Reachable-IsStalled (start e) = subst IsStalled (sym e) new-IsStalled
  Reachable-IsStalled (mine {c = c} {c' = c'} b r new_block room done) =
      inserted-IsStalled b c c' (Reachable-IsStalled r) new_block done
  Reachable-IsStalled (adopt {c = c} {c' = c'} fuel b out out' r done room) =
      adopted-IsStalled fuel b (c, out) (c', out') (Reachable-IsStalled r) done
  Reachable-IsStalled (buffer {c = c} b r e) =
      subst IsStalled (sym e) (IsStalled-orphans c _ (Reachable-IsStalled r))
  Reachable-IsStalled (note_origin {c = c} m r e) =
      let v = Reachable-IsStalled r in
      subst IsStalled (sym e) (record {
        states = v.states;
        root_known = v.root_known;
        root_height = v.root_height;
        low = v.low;
      })

  -- Where `insert` returns for a block that a reachable chain does not contain, the parent of the block
  -- is the genesis block, the block gets the height 1, and the states of the chain are those of a new
  -- chain, which has one for the genesis block alone.
  pub Reachable-stalled :
      {c : Blockchain} (b : Block) (c' : Blockchain)
      → Reachable ext c
      → contains_block (hash_block ext b) c ≡ false
      → insert_block ext b c ≡ ok c'
      → (b.header.parent ≡ hash_block ext genesis)
        × (get (hash_block ext b) c'.hash_to_height ≡ some 1)
        × (c'.hash_to_state ≡ (hash_block ext genesis, genesis_state ext) ∷ [])
  unfolding new
  Reachable-stalled {c} b c' r missing done =
      let v = Reachable-IsStalled r in
      let parent = state_of_genesis c c' b v.states done in
      let heights =
        index_block-heights b c c'
          (subst (λ h. get h c.hash_to_height ≡ some 0) (sym parent) v.root_height)
          (insert_block-index_block ext b c c' done) in
      (
        parent,
        rw heights (get-insert_self (hash_block ext b) 1 c.hash_to_height),
        (inserted-IsStalled b c c' v missing done).states,
      )

  -- No block of a reachable chain is higher than 1.
  pub Reachable-low :
      {c : Blockchain} (h : H256) (n : ℕ)
      → Reachable ext c
      → get h c.hash_to_height ≡ some n
      → n ≤ 1
  Reachable-low h n r e = (Reachable-IsStalled r).low h n e

  no_state_panics :
      (b : Block) (c : Blockchain)
      → get b.header.parent c.hash_to_state ≡ none
      → insert_block ext b c ≡ panic
  unfolding insert_block
  no_state_panics b c missing =
      >>=-eq-panic (index_block ext b c) _ (index_block-ne-out_of_fuel ext b c) λ x e.
        let none_at : get b.header.parent x.hash_to_state ≡ none =
          subst (λ m. get b.header.parent m ≡ none) (sym (index_block_fields ext b c x e).2)
            missing in
        rw none_at

  orphan_panics :
      (fuel : ℕ) (b : Block) (c : Blockchain) (out : List H256)
      → contains_block (hash_block ext b) c ≡ false
      → get b.header.parent c.hash_to_state ≡ none
      → insert_recursively ext (suc fuel) b (c, out) ≡ panic
  unfolding insert_recursively
  orphan_panics fuel b c out missing no_state = rw (missing, no_state_panics b c no_state)

  with_children_eq :
      (fuel : ℕ) (b : Block) (c c' : Blockchain) (out : List H256) (children : List Block)
      → contains_block (hash_block ext b) c ≡ false
      → insert_block ext b c ≡ ok c'
      → get (hash_block ext b) c'.orphan_buffer ≡ some children
      → insert_recursively ext (suc fuel) b (c, out)
        ≡ for_each (insert_recursively ext fuel) children (
          record c' { orphan_buffer = remove (hash_block ext b) c'.orphan_buffer },
          out ++ hash_block ext b ∷ [],
        )
  unfolding insert_recursively
  with_children_eq fuel b c c' out children new_block done found =
      rw new_block (>>=-of-ok (insert_block ext b c) _ done ∙ rw found)

  -- A block whose insertion returns, and which some orphan waits for, makes `insert_recursively` panic
  -- if the block had no state and the first waiting orphan, a child of the block, is missing.
  pub waiting_orphan_panics :
      (fuel : ℕ) (b child : Block) (children : List Block) (c c' : Blockchain) (out : List H256)
      → contains_block (hash_block ext b) c ≡ false
      → insert_block ext b c ≡ ok c'
      → get (hash_block ext b) c.hash_to_state ≡ none
      → get (hash_block ext b) c.orphan_buffer ≡ some (child ∷ children)
      → child.header.parent ≡ hash_block ext b
      → contains_block (hash_block ext child) c' ≡ false
      → insert_recursively ext (suc (suc fuel)) b (c, out) ≡ panic
  unfolding contains_block
  waiting_orphan_panics fuel b child children c c' out new_block done no_state waiting parent
        missing =
      let (_, orphans, states) = insert_block_fields ext b c c' done in
      let found : get (hash_block ext b) c'.orphan_buffer ≡ some (child ∷ children) =
        subst (λ m. get (hash_block ext b) m ≡ some (child ∷ children)) (sym orphans) waiting in
      let no_state' : get child.header.parent c'.hash_to_state ≡ none =
        rw (parent, states) no_state in
      with_children_eq (suc fuel) b c c' out (child ∷ children) new_block done found
      ∙ unfold for_each in
        rw (
          orphan_panics fuel child
            (record c' { orphan_buffer = remove (hash_block ext b) c'.orphan_buffer })
            (out ++ hash_block ext b ∷ []) missing no_state')
