-- ===== src/Blockchain/Reach.antt =====
-- The chains that the program reaches: from `Blockchain::new`, by what the miner and the workers call.
use f.Prelude.{ℕ, ◌≤◌, ◌<◌, ◌^◌, ◌≡◌, sym, subst, false, List, length, ok}
use f.Crypto.Hash.{H256}
use f.HashMap.{HashMap}
use f.Block.{Block}
use f.Block.Hashing.{hash_block}
use f.Blockchain.{
  Blockchain, BlockOrigin, new, contains_block, insert_block, insert_recursively,
  add_to_orphan_buffer,
}
use f.Blockchain.Invariant.{IsWellFormed, new-IsWellFormed}
use f.Blockchain.Insert.{insert_block-IsWellFormed}
use f.Blockchain.Recursive.{insert_recursively-IsWellFormed, IsWellFormed-orphans}
use f.Externals.{Externals}

-- The miner inserts a block whose hash is new; a worker adopts a block with its orphans, buffers an
-- orphan, or notes an origin. The chain has at most 2 ^ 64 blocks.
pub data Reachable (ext : Externals) : Blockchain → Type 0 where
  start : {c : Blockchain} → c ≡ new ext → Reachable ext c
  mine :
      {c c' : Blockchain} (b : Block)
      → Reachable ext c
      → contains_block (hash_block ext b) c ≡ false
      → length c.hash_to_block < 2 ^ 64
      → insert_block ext b c ≡ ok c'
      → Reachable ext c'
  adopt :
      {c c' : Blockchain} (fuel : ℕ) (b : Block) (out out' : List H256)
      → Reachable ext c
      → insert_recursively ext fuel b (c, out) ≡ ok (c', out')
      → length c'.hash_to_block ≤ 2 ^ 64
      → Reachable ext c'
  buffer :
      {c c' : Blockchain} (b : Block)
      → Reachable ext c
      → c' ≡ add_to_orphan_buffer b c
      → Reachable ext c'
  note_origin :
      {c c' : Blockchain} (m : HashMap H256 BlockOrigin)
      → Reachable ext c
      → c' ≡ record c { hash_to_origin = m }
      → Reachable ext c'

IsWellFormed-origins :
    {ext : Externals} {c : Blockchain} (m : HashMap H256 BlockOrigin)
    → IsWellFormed ext c
    → IsWellFormed ext (record c { hash_to_origin = m })
IsWellFormed-origins m v = record {
  hashed = v.hashed;
  height_of_block = v.height_of_block;
  block_of_height = v.block_of_height;
  root_only = v.root_only;
  parent_height = v.parent_height;
  bounded = v.bounded;
  tip_height = v.tip_height;
  tip_at = v.tip_at;
  tip_highest = v.tip_highest;
}

-- Every reachable chain is well-formed.
pub Reachable-IsWellFormed :
    {ext : Externals} {c : Blockchain} → Reachable ext c → IsWellFormed ext c
unfolding add_to_orphan_buffer
Reachable-IsWellFormed {ext} (start e) = subst (IsWellFormed ext) (sym e) (new-IsWellFormed ext)
Reachable-IsWellFormed {ext} (mine {c = c} {c' = c'} b r new_block room done) =
    insert_block-IsWellFormed ext b c c' (Reachable-IsWellFormed r) new_block room done
Reachable-IsWellFormed {ext} (adopt {c = c} {c' = c'} fuel b out out' r done room) =
    insert_recursively-IsWellFormed ext fuel b c c' out out' (Reachable-IsWellFormed r) done room
Reachable-IsWellFormed {ext} (buffer b r e) =
    subst (IsWellFormed ext) (sym e) (IsWellFormed-orphans ext _ (Reachable-IsWellFormed r))
Reachable-IsWellFormed {ext} (note_origin m r e) =
    subst (IsWellFormed ext) (sym e) (IsWellFormed-origins m (Reachable-IsWellFormed r))
