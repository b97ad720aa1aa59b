-- ===== src/Blockchain/Chain.antt =====
-- src/blockchain.rs: the walk of `all_blocks_in_longest_chain` along the parents.

use f.Prelude.{
  ℕ, zero, suc, ◌<◌, ◌≡◌, refl, some, List, [], ◌∷◌, reverse, arith, length, false, nat_beq, ok,
}
use f.Crypto.Hash.{H256, h256_eq}
use f.HashMap.{get}
use f.Block.{Block, genesis}
use f.Block.Hashing.{hash_block}
use f.Blockchain.{Blockchain}
use f.Blockchain.Reads.{walk_back, all_blocks_in_longest_chain, block_count}
use f.Blockchain.Invariant.{IsWellFormed}
use f.Externals.{Externals}

-- The hashes from `h`, at height `n`, back along the parents to the genesis block.
pub data Descent (ext : Externals) (c : Blockchain) : List H256 → H256 → ℕ → Type 0 where
  at_genesis : (h : H256) → h ≡ hash_block ext genesis → Descent ext c (h ∷ []) h 0
  above_parent :
      {rest : List H256} {n : ℕ} (h : H256) (b : Block)
      → get h c.hash_to_block ≡ some b
      → get h c.hash_to_height ≡ some (suc n)
      → Descent ext c rest b.header.parent n
      → Descent ext c (h ∷ rest) h (suc n)

suc_not_zero : (n : ℕ) → nat_beq (suc n) 0 ≡ false
suc_not_zero n = ground arith

Descent-length :
    {ext : Externals} {c : Blockchain} {hs : List H256} {h : H256} {n : ℕ}
    → Descent ext c hs h n
    → length hs ≡ suc n
Descent-length (at_genesis h e) = refl
Descent-length (above_parent h b e f d) = omega (arith, Descent-length d)

module _ (ext : Externals) (c : Blockchain) (v : IsWellFormed ext c) where
  walk_back-Descent :
      (fuel n : ℕ) (h : H256)
      → n < fuel
      → get h c.hash_to_height ≡ some n
      → (pushed : List H256) × (walk_back fuel c h ≡ ok pushed) × Descent ext c (h ∷ pushed) h n
  unfolding walk_back
  walk_back-Descent zero n h room e = absurd (omega arith)
  walk_back-Descent (suc fuel) zero h room e = ([], rw e, at_genesis h (v.root_only h e))
  walk_back-Descent (suc fuel) (suc n) h room e =
      let (b, at_h) = v.block_of_height h (suc n) e in
      let up = v.parent_height h b n at_h e in
      let (pushed, walked, d) = walk_back-Descent fuel n b.header.parent (omega arith) up in
      (b.header.parent ∷ pushed, rw (e, at_h, walked, suc_not_zero n), above_parent h b at_h e d)

  -- On a well-formed chain `all_blocks_in_longest_chain` returns: the hashes from the genesis block to
  -- the tip, each the parent of the next, as many as the height of the tip plus one.
  pub longest_chain :
      (backward : List H256) × (all_blocks_in_longest_chain c ≡ ok (reverse backward))
      × Descent ext c backward c.tip v.tip_height
      × (length backward ≡ suc v.tip_height)
  unfolding all_blocks_in_longest_chain block_count
  longest_chain =
      let (pushed, walked, d) =
        walk_back-Descent (block_count c) v.tip_height c.tip (v.bounded c.tip v.tip_height v.tip_at)
          v.tip_at in
      (c.tip ∷ pushed, rw walked, d, Descent-length d)
