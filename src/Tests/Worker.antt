-- ===== src/Tests/Worker.antt =====
-- Received blocks and requests for blocks on concrete data.
use f.Prelude.{
  ℕ, suc, ◌+◌, ◌≤◌, ◌<◌, ◌^◌, ◌≡◌, ◌≢◌, refl, Bool, true, false, some, List, [], ◌∷◌, map, filter,
  replicate, Result, ok, panic, out_of_fuel, arith,
}
use f.Crypto.Hash.{H256, h256_eq}
use f.HashMap.{or_insert}
use f.Block.Hashing.{hash_block}
use f.Blockchain.{Blockchain, received, new, contains_block, pow_validity_check, parent_check}
use f.Blockchain.Reads.{get_block}
use f.Mempool
use f.Block.{Block}
use f.Network.Message.{blocks, get_blocks, new_block_hashes}
use f.Network.Worker.{Node, Effect, write, on_message}
use f.Network.Worker.Blocks.{on_blocks_late}
use f.Network.Worker.Sync.{Adopts, blocks_exchanged}
use f.Tests.{toy, child, grown}
use f.Tests.Pool.{fresh_node}

abbrev early : Block
early = record child { header = record child.header { timestamp = 0 } }

on_blocks_late_example : on_message toy 3 (blocks (early ∷ child ∷ [])) fresh_node ≡ panic
on_blocks_late_example = on_blocks_late toy 3 (early ∷ []) child [] fresh_node refl (omega arith)

abbrev with_child : Node
with_child = record { blockchain = grown; mempool = Mempool.new }

unknown : contains_block (hash_block toy child) (new toy) ≡ false
unfolding contains_block f.HashMap.contains_key f.HashMap.get new f.Crypto.Hash.h256_beq
    f.Prelude.bytes_beq hash_block
unknown = refl

strong : pow_validity_check toy child (new toy) ≡ true
unfolding pow_validity_check f.Crypto.Hash.h256_le f.Crypto.Hash.cmp hash_block
    f.Crypto.Hash.h256_beq f.Prelude.bytes_beq new
strong = refl

rooted : parent_check child (new toy) ≡ true
unfolding parent_check f.HashMap.contains_key f.HashMap.get new f.Crypto.Hash.h256_beq
    f.Prelude.bytes_beq hash_block
rooted = refl

found : get_block (hash_block toy child) grown ≡ ok child
unfolding get_block f.HashMap.get f.Crypto.Hash.h256_beq f.Prelude.bytes_beq hash_block
found = refl

answered :
    (r : Node × List Effect) × (on_message toy 9 (blocks (child ∷ [])) fresh_node ≡ ok (r.0, r.1))
unfolding on_message f.Prelude.sub_word contains_block f.HashMap.contains_key f.HashMap.get new
    f.Crypto.Hash.h256_beq f.Prelude.bytes_beq hash_block pow_validity_check f.Crypto.Hash.h256_le
    f.Crypto.Hash.cmp parent_check f.Blockchain.insert_recursively f.Prelude.add_word
    f.HashMap.insert f.Blockchain.process_all_transactions
answered = (_, refl)

blocks_exchanged_example :
    (on_message toy 9 (new_block_hashes (hash_block toy child ∷ [])) fresh_node
      ≡ ok (fresh_node, write (get_blocks (hash_block toy child ∷ [])) ∷ []))
    × (on_message toy 9 (get_blocks (hash_block toy child ∷ [])) with_child
        ≡ ok (with_child, write (blocks (child ∷ [])) ∷ []))
    × Adopts toy 9 child answered.0.0 answered.0.1
blocks_exchanged_example =
    blocks_exchanged toy 9 child fresh_node answered.0.0 with_child answered.0.1 unknown strong
      rooted found answered.1
