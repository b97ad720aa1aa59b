-- ===== src/Blockchain/Fuel.antt =====
-- src/blockchain.rs: how deep `insert_recursively` goes, and what it keeps.
use f.Prelude.{
  ℕ, zero, suc, ◌≤◌, ◌<◌, ◌≡◌, ◌≢◌, sym, ap, true, false, some, none, List, [], ◌∷◌, ◌++◌, arith,
  length, ok, out_of_fuel, Bool-cases, Option-cases, inl, inr, >>=-eq-ok, ok-injective, subst,
  unwrap, >>=-ne-out_of_fuel, unwrap-ne-out_of_fuel, add_word-ne-out_of_fuel, add_word,
}
use native.Mathlib.Nat.{le_refl}
use f.Crypto.Hash.{H256, h256_eq}
use f.HashMap.{get, insert, remove}
use f.HashMap.Laws.{contains_key-of-get}
use f.HashMap.Size.{length-remove, length-remove-le}
use f.Block.{Block}
use f.Block.Hashing.{hash_block}
use f.Blockchain.{
  Blockchain, for_each, index_block, insert_block, insert_recursively, contains_block,
  process_all_transactions,
}
use f.Externals.{Externals}
use f.Transaction.{State, SignedTransaction, TransactionOutput}
use f.Blockchain.{insert_outputs, process_one_transaction}
use f.Blockchain.Insert.{insert_block-index_block}
use f.Blockchain.Loops.{for_each-ne-out_of_fuel, for_each_keeps, for_each_returns}

module _ (ext : Externals) where
  -- What any successful `insert` does to the fields that the recursion reads.
  pub index_block_fields :
      (b : Block) (c c' : Blockchain)
      → index_block ext b c ≡ ok c'
      → (c'.hash_to_block ≡ insert (hash_block ext b) b c.hash_to_block)
        × (c'.orphan_buffer ≡ c.orphan_buffer)
        × (c'.hash_to_state ≡ c.hash_to_state)
  unfolding index_block
  index_block_fields b c c' e = ground arith

  insert_outputs-ne-out_of_fuel :
      (prev : H256) (count : ℕ) (os : List TransactionOutput) (s : State)
      → insert_outputs ext prev count os s ≢ out_of_fuel
  unfolding insert_outputs
  insert_outputs-ne-out_of_fuel prev count [] s = λ e. cc
  insert_outputs-ne-out_of_fuel prev count (o ∷ os) s =
      >>=-ne-out_of_fuel (add_word ext.overflow_checks 32 count 1) _
        (add_word-ne-out_of_fuel ext.overflow_checks 32 count 1)
        (λ count' _. insert_outputs-ne-out_of_fuel prev count' os _)

  process_one-ne-out_of_fuel :
      (t : SignedTransaction) (s : State) → process_one_transaction ext t s ≢ out_of_fuel
  unfolding process_one_transaction
  process_one-ne-out_of_fuel t s = insert_outputs-ne-out_of_fuel _ 0 t.raw.outputs _

  process_all-ne-out_of_fuel :
      (b : Block) (s : State) → process_all_transactions ext b s ≢ out_of_fuel
  unfolding process_all_transactions
  process_all-ne-out_of_fuel b s =
      for_each-ne-out_of_fuel (process_one_transaction ext) process_one-ne-out_of_fuel
        b.content.transactions s

  pub index_block-ne-out_of_fuel : (b : Block) (c : Blockchain) → index_block ext b c ≢ out_of_fuel
  unfolding index_block
  index_block-ne-out_of_fuel b c =
      >>=-ne-out_of_fuel (unwrap (get b.header.parent c.hash_to_height)) _ (unwrap-ne-out_of_fuel _)
        λ n _.
          >>=-ne-out_of_fuel (add_word ext.overflow_checks 64 n 1) _
            (add_word-ne-out_of_fuel _ 64 n 1)
            λ height _.
              >>=-ne-out_of_fuel
                (unwrap (get c.tip (insert (hash_block ext b) height c.hash_to_height))) _
                (unwrap-ne-out_of_fuel _) λ t _ e. cc

  pub insert_block-ne-out_of_fuel :
      (b : Block) (c : Blockchain) → insert_block ext b c ≢ out_of_fuel
  unfolding insert_block
  insert_block-ne-out_of_fuel b c =
      >>=-ne-out_of_fuel (index_block ext b c) _ (index_block-ne-out_of_fuel b c) λ c' _.
        >>=-ne-out_of_fuel (unwrap (get b.header.parent c'.hash_to_state)) _
          (unwrap-ne-out_of_fuel _)
          λ state _.
            >>=-ne-out_of_fuel (process_all_transactions ext b state) _
              (process_all-ne-out_of_fuel b state) λ dropped _ e. cc

  -- The three ways in which `insert_recursively` returns.
  pub data Ran (fuel : ℕ) (b : Block) (c : Blockchain) (out : List H256)
      (r : Blockchain × List H256) : Type 0 where
    present : contains_block (hash_block ext b) c ≡ true → r ≡ (c, out) → Ran fuel b c out r
    alone :
        (c' : Blockchain)
        → contains_block (hash_block ext b) c ≡ false
        → insert_block ext b c ≡ ok c'
        → get (hash_block ext b) c'.orphan_buffer ≡ none
        → r ≡ (c', out ++ hash_block ext b ∷ [])
        → Ran fuel b c out r
    with_children :
        (c' : Blockchain) (children : List Block)
        → contains_block (hash_block ext b) c ≡ false
        → insert_block ext b c ≡ ok c'
        → get (hash_block ext b) c'.orphan_buffer ≡ some children
        → for_each (insert_recursively ext fuel) children (
          record c' { orphan_buffer = remove (hash_block ext b) c'.orphan_buffer },
          out ++ hash_block ext b ∷ [],
        )
          ≡ ok r
        → Ran fuel b c out r

  pub insert_recursively-Ran :
      (fuel : ℕ) (b : Block) (c : Blockchain) (out : List H256) (r : Blockchain × List H256)
      → insert_recursively ext (suc fuel) b (c, out) ≡ ok r
      → Ran fuel b c out r
  unfolding insert_recursively
  insert_recursively-Ran fuel b c out r e =
      elim (Bool-cases (contains_block (hash_block ext b) c)) [
        | inl old ↦ present old (sym (ok-injective (rw old at e)))
        | inr new ↦
            let e' = (rw new at e) in
            let (c', e₁, k) = >>=-eq-ok (insert_block ext b c) _ e' in
            elim (Option-cases (get (hash_block ext b) c'.orphan_buffer)) [
              | inl no_children ↦
                  alone c' new e₁ no_children (sym (ok-injective (rw no_children at k)))
              | inr (children, found) ↦ with_children c' children new e₁ found (rw found at k)
            ]
      ]

  -- What an insertion of a missing block keeps, and the removal of a list of orphans, the recursion
  -- keeps.
  module _ {ℓ} (P : Blockchain × List H256 → Type ℓ)
      (step : (b : Block) (c c' : Blockchain) (out : List H256)
        → P (c, out)
        → contains_block (hash_block ext b) c ≡ false
        → insert_block ext b c ≡ ok c'
        → P (c', out ++ hash_block ext b ∷ []))
      (drop : (h : H256) (c : Blockchain) (out : List H256)
        → P (c, out)
        → P (record c { orphan_buffer = remove h c.orphan_buffer }, out)) where
    Ran-keeps :
        (fuel : ℕ)
        → ((b : Block) (s s' : Blockchain × List H256)
            → P s
            → insert_recursively ext fuel b s ≡ ok s'
            → P s')
        → (b : Block) (c : Blockchain) (out : List H256) (s' : Blockchain × List H256) → P (c, out)
        → Ran fuel b c out s'
        → P s'
    Ran-keeps fuel ih b c out s' p (present old r) = subst P (sym r) p
    Ran-keeps fuel ih b c out s' p (alone c' new done w r) =
        subst P (sym r) (step b c c' out p new done)
    Ran-keeps fuel ih b c out s' p (with_children c' children new done found r) =
        for_each_keeps P (insert_recursively ext fuel) ih children _ s'
          (drop (hash_block ext b) c' _ (step b c c' out p new done)) r

    pub insert_recursively-keeps :
        (fuel : ℕ) (b : Block) (s s' : Blockchain × List H256)
        → P s
        → insert_recursively ext fuel b s ≡ ok s'
        → P s'
    insert_recursively-keeps zero b s s' p e = unfold insert_recursively in cc
    insert_recursively-keeps (suc fuel) b (c, out) s' p e =
        Ran-keeps fuel (insert_recursively-keeps fuel) b c out s' p
          (insert_recursively-Ran fuel b c out s' e)

  pub insert_block_fields :
      (b : Block) (c c' : Blockchain)
      → insert_block ext b c ≡ ok c'
      → (c'.hash_to_block ≡ insert (hash_block ext b) b c.hash_to_block)
        × (c'.orphan_buffer ≡ c.orphan_buffer)
        × (c'.hash_to_state ≡ c.hash_to_state)
  insert_block_fields b c c' done =
      index_block_fields b c c' (insert_block-index_block ext b c c' done)

  buffer_of :
      (b : Block) (c c' : Blockchain)
      → insert_block ext b c ≡ ok c'
      → c'.orphan_buffer ≡ c.orphan_buffer
  buffer_of b c c' done = (index_block_fields b c c' (insert_block-index_block ext b c c' done)).1

  -- The recursion only takes lists out of the orphan buffer.
  insert_recursively-le :
      (k fuel : ℕ) (b : Block) (s s' : Blockchain × List H256)
      → length s.0.orphan_buffer ≤ k
      → insert_recursively ext fuel b s ≡ ok s'
      → length s'.0.orphan_buffer ≤ k
  insert_recursively-le k =
      insert_recursively-keeps (λ s. length s.0.orphan_buffer ≤ k)
        (λ b c c' out p new done. omega (arith, ap length (buffer_of b c c' done)))
        (λ h c out p. omega (arith, length-remove-le h c.orphan_buffer))

  -- With more fuel than the orphan buffer has lists, `insert_recursively` does not run out of it.
  pub insert_recursively_fuel :
      (fuel : ℕ) (b : Block) (c : Blockchain) (out : List H256)
      → length c.orphan_buffer < fuel
      → insert_recursively ext fuel b (c, out) ≢ out_of_fuel
  unfolding insert_recursively
  insert_recursively_fuel zero b c out h = absurd (omega arith)
  insert_recursively_fuel (suc fuel) b c out h =
      elim (Bool-cases (contains_block (hash_block ext b) c)) [
        | inl old ↦ rw old (λ e. cc)
        | inr new ↦ rw new (
            >>=-ne-out_of_fuel (insert_block ext b c) _ (insert_block-ne-out_of_fuel b c) λ c' done.
              elim (Option-cases (get (hash_block ext b) c'.orphan_buffer)) [
                | inl no_children ↦ rw no_children (λ e. cc)
                | inr (children, found) ↦ rw found (
                    let smaller =
                      length-remove (hash_block ext b) c'.orphan_buffer
                        (contains_key-of-get (hash_block ext b) c'.orphan_buffer found) in
                    let k = length (remove (hash_block ext b) c'.orphan_buffer) in
                    let below : k < fuel = omega (arith, ap length (buffer_of b c c' done)) in
                    for_each_returns (λ s. length s.0.orphan_buffer ≤ k)
                      (insert_recursively ext fuel) (insert_recursively-le k fuel)
                      (λ x s p. insert_recursively_fuel fuel x s.0 s.1 (omega arith)) children _
                      (le_refl k))
              ])
      ]
