-- ===== src/Blockchain/Work.antt =====
-- src/blockchain.rs and src/network/worker.rs: the proof of work of the blocks of the chain.
use f.Prelude.{
  ℕ, zero, suc, ◌≡◌, ◌⊎◌, inl, inr, refl, sym, ◌∙◌, subst, true, some, List, [], ◌∷◌, ◌++◌, arith,
  ok, All, All-append, Bool-cases, Option-cases,
}
use f.Crypto.Hash.{H256, h256_eq, h256_le, h256_beq, h256_beq_iff}
use f.HashMap.{HashMap, get, insert, remove}
use f.HashMap.Laws.{get-insert, get-remove}
use f.Block.{Block, genesis}
use f.Block.Hashing.{hash_block}
use f.Blockchain.{
  Blockchain, new, index_block, insert_block, insert_recursively, pow_validity_check,
  add_to_orphan_buffer,
}
use f.Blockchain.Fuel.{
  insert_block_fields, Ran, present, alone, with_children, insert_recursively-Ran,
}
use f.Blockchain.Insert.{insert_block-index_block}
use f.Blockchain.Loops.{for_each_keeps_on}
use f.Externals.{Externals}

module _ (ext : Externals) where
  -- A block of the difficulty of the genesis block whose hash is not above it.
  pub record IsWorked (b : Block) : Type 0 where
    pub target : b.header.difficulty ≡ genesis.header.difficulty
    pub hard : h256_le (hash_block ext b) b.header.difficulty ≡ true

  -- All the blocks of the chain, the genesis block apart, and those that wait in the orphan buffer.
  pub record AllWorked (c : Blockchain) : Type 0 where
    pub target : c.difficulty ≡ genesis.header.difficulty
    pub in_chain :
        (h : H256) (b : Block) → get h c.hash_to_block ≡ some b → (b ≡ genesis) ⊎ IsWorked b
    pub waiting : (h : H256) (bs : List Block) → get h c.orphan_buffer ≡ some bs → All IsWorked bs

  pub new-AllWorked : AllWorked (new ext)
  unfolding new get
  new-AllWorked = record {
    target = refl;
    in_chain = λ h b e. inl (ground arith);
    waiting = λ h bs e. cc;
  }

  index_block-difficulty :
      (b : Block) (c c' : Blockchain) → index_block ext b c ≡ ok c' → c'.difficulty ≡ c.difficulty
  unfolding index_block
  index_block-difficulty b c c' e = ground arith

  pub insert_block-AllWorked :
      (b : Block) (c c' : Blockchain)
      → IsWorked b
      → AllWorked c
      → insert_block ext b c ≡ ok c'
      → AllWorked c'
  insert_block-AllWorked b c c' worked v done =
      let (blocks, orphans, states) = insert_block_fields ext b c c' done in
      let inserted = insert_block-index_block ext b c c' done in
      record {
        target = index_block-difficulty b c c' inserted ∙ v.target;
        in_chain = λ h x e.
            let e' = subst (λ (m : HashMap H256 Block). get h m ≡ some x) blocks e in
            elim (Bool-cases (h256_beq (hash_block ext b) h)) [
              | inl same ↦
                  let here : b ≡ x =
                    ground (arith, e', get-insert (hash_block ext b) h b c.hash_to_block) in
                  inr (subst IsWorked here worked)
              | inr other ↦
                  v.in_chain h x
                    (ground (arith, e', get-insert (hash_block ext b) h b c.hash_to_block))
            ];
        waiting = λ h bs e.
            v.waiting h bs (subst (λ (m : HashMap H256 (List Block)). get h m ≡ some bs) orphans e);
      }

  AllWorked-orphans :
      (c : Blockchain) (m : HashMap H256 (List Block))
      → ((h : H256) (bs : List Block) → get h m ≡ some bs → All IsWorked bs)
      → AllWorked c
      → AllWorked (record c { orphan_buffer = m })
  AllWorked-orphans c m all v = record { target = v.target; in_chain = v.in_chain; waiting = all }

  Ran-AllWorked :
      (fuel : ℕ)
      → ((b : Block) (s s' : Blockchain × List H256)
          → IsWorked b
          → AllWorked s.0
          → insert_recursively ext fuel b s ≡ ok s'
          → AllWorked s'.0)
      → (b : Block) (c : Blockchain) (out : List H256) (s' : Blockchain × List H256) → IsWorked b
      → AllWorked c
      → Ran ext fuel b c out s'
      → AllWorked s'.0
  Ran-AllWorked fuel ih b c out s' worked v (present old r) =
      subst (λ (x : Blockchain × List H256). AllWorked x.0) (sym r) v
  Ran-AllWorked fuel ih b c out s' worked v (alone c' missing done w r) =
      subst (λ (x : Blockchain × List H256). AllWorked x.0) (sym r)
        (insert_block-AllWorked b c c' worked v done)
  Ran-AllWorked fuel ih b c out s' worked v (with_children c' children missing done found r) =
      let v' = insert_block-AllWorked b c c' worked v done in
      for_each_keeps_on IsWorked (λ x. AllWorked x.0) (insert_recursively ext fuel) ih children _ s'
        (v'.waiting (hash_block ext b) children found)
        (AllWorked-orphans c' (remove (hash_block ext b) c'.orphan_buffer)
          (λ h bs e'.
            v'.waiting h bs (ground (arith, e', get-remove (hash_block ext b) h c'.orphan_buffer)))
          v')
        r

  -- A block with its work and all the orphans that wait for it.
  pub insert_recursively-AllWorked :
      (fuel : ℕ) (b : Block) (s s' : Blockchain × List H256)
      → IsWorked b
      → AllWorked s.0
      → insert_recursively ext fuel b s ≡ ok s'
      → AllWorked s'.0
  insert_recursively-AllWorked zero b s s' worked v e = unfold insert_recursively in cc
  insert_recursively-AllWorked (suc fuel) b (c, out) s' worked v e =
      Ran-AllWorked fuel (insert_recursively-AllWorked fuel) b c out s' worked v
        (insert_recursively-Ran ext fuel b c out s' e)

  -- What the check of a received block says.
  pub pow_validity_check-IsWorked :
      (b : Block) (c : Blockchain) → AllWorked c → pow_validity_check ext b c ≡ true → IsWorked b
  unfolding pow_validity_check
  pow_validity_check-IsWorked b c v e = record {
    target = (h256_beq_iff b.header.difficulty c.difficulty).0 (ground (arith, e)) ∙ v.target;
    hard = ground (arith, e);
  }

  pub buffered-AllWorked :
      (b : Block) (c : Blockchain) → IsWorked b → AllWorked c → AllWorked (add_to_orphan_buffer b c)
  unfolding add_to_orphan_buffer
  buffered-AllWorked b c worked v = elim (Option-cases (get b.header.parent c.orphan_buffer)) [
    | inl e ↦ rw e (AllWorked-orphans c _ (replaced (b ∷ []) (worked, tt)) v)
    | inr (bs, e) ↦ rw e (
        AllWorked-orphans c _
          (replaced (bs ++ b ∷ [])
            (All-append IsWorked bs (b ∷ []) (v.waiting b.header.parent bs e) (worked, tt)))
          v)
  ]
    where
      replaced :
          (cs : List Block)
          → All IsWorked cs
          → (h : H256) (bs : List Block)
          → get h (insert b.header.parent cs c.orphan_buffer) ≡ some bs
          → All IsWorked bs
      replaced cs all h bs e = elim (Bool-cases (h256_beq b.header.parent h)) [
        | inl same ↦
            let here : cs ≡ bs =
              ground (arith, e, get-insert b.header.parent h cs c.orphan_buffer) in
            subst (All IsWorked) here all
        | inr other ↦
            v.waiting h bs (ground (arith, e, get-insert b.header.parent h cs c.orphan_buffer))
      ]
