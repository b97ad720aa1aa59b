-- ===== src/Blockchain/Reads.antt =====
-- src/blockchain.rs: the methods that only read the chain.
use f.Prelude.{
  ℕ, zero, suc, ◌/◌, List, [], ◌∷◌, reverse, nat_beq, leb, if◌then◌else◌, length, Result, ok, panic,
  out_of_fuel, ◌>>=◌, unwrap, add_word,
}
use f.Crypto.Hash.{H256, h256_eq}
use f.HashMap.{HashMap, get}
use f.Transaction.{State}
use f.Block.{Block}
use f.Block.Hashing.{size}
use f.Blockchain.{Blockchain, BlockOrigin, mined, received}
use f.Externals.{Externals}

unfoldable pub get_block : H256 → Blockchain → Result Block
get_block hash c = unwrap (get hash c.hash_to_block)

unfoldable pub get_state : H256 → Blockchain → Result State
get_state hash c = unwrap (get hash c.hash_to_state)

unfoldable pub block_count : Blockchain → ℕ
block_count c = length c.hash_to_block

-- The rounds of `while height(curr_hash) > 0`: what they push, in their order.
unfoldable pub walk_back : ℕ → Blockchain → H256 → Result (List H256)
unfolding get_block
walk_back zero c curr_hash = out_of_fuel
walk_back (suc fuel) c curr_hash =
    let next = (do
      block ← get_block curr_hash c
      rest ← walk_back fuel c block.header.parent
      ok (block.header.parent ∷ rest)) in
    do height ← unwrap (get curr_hash c.hash_to_height); if nat_beq height 0 then ok [] else next

-- `all_blocks_in_longest_chain`. Heights are below the number of blocks, which is fuel enough.
unfoldable pub all_blocks_in_longest_chain : Blockchain → Result (List H256)
unfolding walk_back block_count
all_blocks_in_longest_chain c = do
  pushed ← walk_back (block_count c) c c.tip
  ok (reverse (c.tip ∷ pushed))

-- `sum::<usize>()` of the sizes of the map's blocks, after those that make `acc`.
unfoldable pub sum_sizes : Externals → ℕ → HashMap H256 Block → Result ℕ
sum_sizes ext acc [] = ok acc
sum_sizes ext acc ((h, b) ∷ m) = do
  acc' ← add_word ext.overflow_checks 64 acc (size ext b)
  sum_sizes ext acc' m

-- `average_block_size`. A division by zero panics.
unfoldable pub average_block_size : Externals → Blockchain → Result ℕ
unfolding sum_sizes block_count
average_block_size ext c = do
  total ← sum_sizes ext 0 c.hash_to_block
  if nat_beq (block_count c) 0 then panic else ok (total / block_count c)

-- The `filter_map` over the origins.
unfoldable pub delays : HashMap H256 BlockOrigin → List ℕ
delays [] = []
delays ((h, mined) ∷ m) = delays m
delays ((h, received delay_ms) ∷ m) = delay_ms ∷ delays m

unfoldable pub insert_sorted : ℕ → List ℕ → List ℕ
insert_sorted a [] = a ∷ []
insert_sorted a (b ∷ bs) = let rest = insert_sorted a bs in if leb a b then a ∷ b ∷ bs else b ∷ rest

-- `slice::sort`
unfoldable pub sort : List ℕ → List ℕ
unfolding insert_sorted
sort [] = []
sort (a ∷ as') = insert_sorted a (sort as')

unfoldable pub block_delays_ms : Blockchain → List ℕ
unfolding delays sort
block_delays_ms c = sort (delays c.hash_to_origin)
