-- ===== src/Blockchain/Recursive.antt =====
-- src/blockchain.rs: the blocks that `insert_recursively` adds, and the invariant under it.
use f.Prelude.{
  ℕ, zero, suc, ◌+◌, ◌≤◌, ◌≡◌, refl, sym, ap, ◌∙◌, Bool, true, false, ◌||◌, List, [], ◌∷◌, ◌++◌,
  arith, length, ◌^◌, subst, beq_refl, length-append, ◌==◌, ok,
}
use mathlib.Core.List.{append-nil, append_assoc}
use f.Crypto.Hash.{H256, h256_eq}
use f.HashMap.{HashMap, remove, contains_key}
use f.HashMap.Laws.{contains_key-insert}
use f.HashMap.Size.{length-insert_new}
use f.Block.{Block}
use f.Block.Hashing.{hash_block}
use f.Blockchain.{Blockchain, insert_block, insert_recursively, contains_block}
use f.Blockchain.Loops.{for_each_keeps}
use f.Blockchain.Fuel.{
  index_block_fields, insert_recursively-keeps, Ran, present, alone, with_children,
  insert_recursively-Ran,
}
use f.Blockchain.Insert.{insert_block-index_block, insert_block-IsWellFormed}
use f.Blockchain.Invariant.{IsWellFormed}
use f.Externals.{Externals}

-- `hashes.contains(&h)`
unfoldable pub elem : H256 → List H256 → Bool
elem h [] = false
elem h (x ∷ xs) = x == h || elem h xs

elem-append : (h : H256) (xs ys : List H256) → elem h (xs ++ ys) ≡ (elem h xs || elem h ys)
unfolding elem
elem-append h [] ys = refl
elem-append h (x ∷ xs) ys = ground (arith, elem-append h xs ys)

-- What has happened since the chain `c` with the list `out`: the hashes `extra` have been pushed,
-- and they are the blocks that were added, each of them once missing.
record Added (c : Blockchain) (out : List H256) (s : Blockchain × List H256) : Type 0 where
  extra : List H256
  pushed : s.1 ≡ out ++ extra
  holds : (h : H256) → contains_block h s.0 ≡ (contains_block h c || elem h extra)
  sizes : length s.0.hash_to_block ≡ length c.hash_to_block + length extra

nothing_added : (h : H256) (known : Bool) → known ≡ (known || elem h [])
unfolding elem
nothing_added h true = refl
nothing_added h false = refl

elem_single : (h x : H256) → elem h (x ∷ []) ≡ (x == h || false)
unfolding elem
elem_single h x = refl

module _ (ext : Externals) where
  pub contains_block-insert_block :
      (b : Block) (c c' : Blockchain)
      → insert_block ext b c ≡ ok c'
      → (h : H256) → contains_block h c' ≡ (hash_block ext b == h || contains_block h c)
  unfolding contains_block
  contains_block-insert_block b c c' done h =
      let (blocks, _, _) =
        index_block_fields ext b c c' (insert_block-index_block ext b c c' done) in
      ap (contains_key h) blocks ∙ contains_key-insert (hash_block ext b) h b c.hash_to_block

  length-insert_block :
      (b : Block) (c c' : Blockchain)
      → contains_block (hash_block ext b) c ≡ false
      → insert_block ext b c ≡ ok c'
      → length c'.hash_to_block ≡ length c.hash_to_block + 1
  unfolding contains_block
  length-insert_block b c c' new done =
      let (blocks, _, _) =
        index_block_fields ext b c c' (insert_block-index_block ext b c c' done) in
      ap length blocks ∙ length-insert_new (hash_block ext b) b c.hash_to_block new

  Added-step :
      (c₀ : Blockchain) (out₀ : List H256) (b : Block) (c c' : Blockchain) (out : List H256)
      → Added c₀ out₀ (c, out)
      → contains_block (hash_block ext b) c ≡ false
      → insert_block ext b c ≡ ok c'
      → Added c₀ out₀ (c', out ++ hash_block ext b ∷ [])
  Added-step c₀ out₀ b c c' out a new done = record {
    extra = a.extra ++ hash_block ext b ∷ [];
    pushed = rw a.pushed (append_assoc out₀ a.extra (hash_block ext b ∷ []));
    holds = λ h. ground (
      arith,
      contains_block-insert_block b c c' done h,
      a.holds h,
      elem-append h a.extra (hash_block ext b ∷ []),
      elem_single h (hash_block ext b),
    );
    sizes = omega (
      arith,
      length-insert_block b c c' new done,
      a.sizes,
      length-append a.extra (hash_block ext b ∷ []),
    );
  }

  Added-drop :
      (c₀ : Blockchain) (out₀ : List H256) (h : H256) (c : Blockchain) (out : List H256)
      → Added c₀ out₀ (c, out)
      → Added c₀ out₀ (record c { orphan_buffer = remove h c.orphan_buffer }, out)
  unfolding contains_block
  Added-drop c₀ out₀ h c out a = record {
    extra = a.extra;
    pushed = a.pushed;
    holds = a.holds;
    sizes = a.sizes;
  }

  -- A block that is in the chain stays there.
  module _ (h : H256) where
    abbrev Known : Blockchain × List H256 → Type 0
    Known s = contains_block h s.0 ≡ true

    Known-step :
        (b : Block) (c c' : Blockchain) (out : List H256)
        → Known (c, out)
        → contains_block (hash_block ext b) c ≡ false
        → insert_block ext b c ≡ ok c'
        → Known (c', out ++ hash_block ext b ∷ [])
    Known-step b c c' out p new done = ground (arith, contains_block-insert_block b c c' done h)

    Known-drop :
        (k : H256) (c : Blockchain) (out : List H256)
        → Known (c, out)
        → Known (record c { orphan_buffer = remove k c.orphan_buffer }, out)
    unfolding contains_block
    Known-drop k c out p = p

    Known-keeps :
        (fuel : ℕ) (b : Block) (s s' : Blockchain × List H256)
        → Known s
        → insert_recursively ext fuel b s ≡ ok s'
        → Known s'
    Known-keeps = insert_recursively-keeps ext Known Known-step Known-drop

  inserted-Known :
      (b : Block) (c c' : Blockchain) (out : List H256)
      → insert_block ext b c ≡ ok c'
      → Known (hash_block ext b) (c', out)
  inserted-Known b c c' out done = ground (
    arith,
    contains_block-insert_block b c c' done (hash_block ext b),
    beq_refl (hash_block ext b),
  )

  Ran-Known :
      (fuel : ℕ) (b : Block) (c : Blockchain) (out : List H256) (s' : Blockchain × List H256)
      → Ran ext fuel b c out s'
      → Known (hash_block ext b) s'
  Ran-Known fuel b c out s' (present old r) = subst (Known (hash_block ext b)) (sym r) old
  Ran-Known fuel b c out s' (alone c' new done w r) =
      subst (Known (hash_block ext b)) (sym r) (inserted-Known b c c' out done)
  Ran-Known fuel b c out s' (with_children c' children new done found r) =
      for_each_keeps (Known (hash_block ext b)) (insert_recursively ext fuel)
        (Known-keeps (hash_block ext b) fuel) children _ s'
        (Known-drop (hash_block ext b) (hash_block ext b) c' out (inserted-Known b c c' out done)) r

  insert_recursively-Known :
      (fuel : ℕ) (b : Block) (c c' : Blockchain) (out out' : List H256)
      → insert_recursively ext fuel b (c, out) ≡ ok (c', out')
      → contains_block (hash_block ext b) c' ≡ true
  insert_recursively-Known zero b c c' out out' e = unfold insert_recursively in cc
  insert_recursively-Known (suc fuel) b c c' out out' e =
      Ran-Known fuel b c out (c', out') (insert_recursively-Ran ext fuel b c out (c', out') e)

  -- If `insert_recursively` returns, the block is in the chain, and a list of hashes has been pushed on
  -- `out_hashes`: a hash is in the chain afterwards exactly if it was before or is in that list, and
  -- the chain has grown by as many blocks as the list has hashes.
  pub insert_recursively_adds :
      (fuel : ℕ) (b : Block) (c c' : Blockchain) (out out' : List H256)
      → insert_recursively ext fuel b (c, out) ≡ ok (c', out')
      → (extra : List H256) × (contains_block (hash_block ext b) c' ≡ true)
        × (out' ≡ out ++ extra)
        × ((h : H256) → contains_block h c' ≡ (contains_block h c || elem h extra))
        × (length c'.hash_to_block ≡ length c.hash_to_block + length extra)
  insert_recursively_adds fuel b c c' out out' e =
      let start : Added c out (c, out) = record {
        extra = [];
        pushed = sym (append-nil out);
        holds = λ h. nothing_added h (contains_block h c);
        sizes = omega arith;
      } in
      let a =
        insert_recursively-keeps ext (Added c out) (Added-step c out) (Added-drop c out) fuel b
          (c, out) (c', out') start e in
      (a.extra, insert_recursively-Known fuel b c c' out out' e, a.pushed, a.holds, a.sizes)

  -- A chain that stays well-formed as long as it has at most 2 ^ 64 blocks.
  abbrev IsSound : Blockchain × List H256 → Type 0
  IsSound s = length s.0.hash_to_block ≤ 2 ^ 64 → IsWellFormed ext s.0

  IsSound-step :
      (b : Block) (c c' : Blockchain) (out : List H256)
      → IsSound (c, out)
      → contains_block (hash_block ext b) c ≡ false
      → insert_block ext b c ≡ ok c'
      → IsSound (c', out ++ hash_block ext b ∷ [])
  IsSound-step b c c' out p new done room =
      let grown = length-insert_block b c c' new done in
      insert_block-IsWellFormed ext b c c' (p (omega arith)) new (omega arith) done

  pub IsWellFormed-orphans :
      {c : Blockchain} (m : HashMap H256 (List Block))
      → IsWellFormed ext c
      → IsWellFormed ext (record c { orphan_buffer = m })
  IsWellFormed-orphans m v = record {
    hashed = v.hashed;
    height_of_block = v.height_of_block;
    block_of_height = v.block_of_height;
    root_only = v.root_only;
    parent_height = v.parent_height;
    bounded = v.bounded;
    tip_height = v.tip_height;
    tip_at = v.tip_at;
    tip_highest = v.tip_highest;
  }

  -- If `insert_recursively` returns from a well-formed chain and the result has at most 2 ^ 64 blocks,
  -- the result is well-formed.
  pub insert_recursively-IsWellFormed :
      (fuel : ℕ) (b : Block) (c c' : Blockchain) (out out' : List H256)
      → IsWellFormed ext c
      → insert_recursively ext fuel b (c, out) ≡ ok (c', out')
      → length c'.hash_to_block ≤ 2 ^ 64
      → IsWellFormed ext c'
  insert_recursively-IsWellFormed fuel b c c' out out' v e =
      insert_recursively-keeps ext IsSound IsSound-step
        (λ h x o p room. IsWellFormed-orphans (remove h x.orphan_buffer) (p room)) fuel b (c, out)
        (c', out') (λ _. v) e
