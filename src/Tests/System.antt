-- ===== src/Tests/System.antt =====
-- The threads together, on concrete data.
use f.Prelude.{
  ℕ, ◌≡◌, ◌≢◌, refl, true, Bool, some, none, List, [], ◌∷◌, ◌++◌, Result, ok, out_of_fuel,
}
use f.Blockchain.Invariant.{IsWellFormed}
use f.Mempool.Pop.{IsKeyed}
use f.Miner
use f.Miner.{signal, empty}
use f.Miner.Control.{IsStarted}
use f.Network.Message.{ping, blocks}
use f.Network.Worker.{Effect}
use f.System.{System, Action, receive, mine, generate, new_system, act_all}
use f.System.Fuel.{act_all_fuel}
use f.System.Runs.{all_regular, act_all_sound}
use f.Blockchain.Work.{AllWorked}
use f.System.Work.{act_all_worked}
use f.Tests.{toy, toy_key, child}

-- A ping, a transaction, the signal that starts the miner, a round that mines a block, and
-- a block of a peer that is known by then.
abbrev actions : List Action
actions =
    receive 9 (ping (1 ∷ []))
    ∷ generate (toy_key []) (λ state. [])
    ∷ mine 9 0 (λ n. n) (signal (Miner.start 6))
    ∷ mine 9 0 (λ n. n) empty
    ∷ receive 9 (blocks (child ∷ []))
    ∷ []

regular : all_regular toy (toy_key []) actions (new_system toy) ≡ true
unfolding f.Network.Worker.on_message f.Blockchain.new f.System.act f.HashMap.get
    f.Crypto.Hash.h256_beq f.Prelude.bytes_beq f.Block.Hashing.hash_block
    f.Blockchain.contains_block f.HashMap.contains_key f.Prelude.sub_word
    f.Blockchain.pow_validity_check f.Crypto.Hash.h256_le f.Crypto.Hash.cmp
    f.Blockchain.parent_check f.Blockchain.insert_recursively f.Prelude.add_word f.HashMap.insert
    f.Blockchain.process_all_transactions f.Crypto.Merkle.new Miner.loop_round
    f.Network.Worker.on_blocks f.HashMap.or_insert f.HashMap.remove f.Generator.generation_round
    f.Blockchain.index_block f.Blockchain.insert_block f.Blockchain.for_each f.Crypto.Hash.be_bytes
    f.Mempool.insert_transaction f.Mempool.pop f.Transaction.Signing.hash_signed f.Prelude.filter
regular = refl

reached : (r : System × List Effect) × (act_all toy (toy_key []) actions (new_system toy) ≡ ok r)
unfolding f.System.act_all f.Network.Worker.on_message f.Blockchain.new f.System.act f.HashMap.get
    f.Crypto.Hash.h256_beq f.Prelude.bytes_beq f.Block.Hashing.hash_block
    f.Blockchain.contains_block f.HashMap.contains_key f.Prelude.sub_word
    f.Blockchain.pow_validity_check f.Crypto.Hash.h256_le f.Crypto.Hash.cmp
    f.Blockchain.parent_check f.Blockchain.insert_recursively f.Prelude.add_word f.HashMap.insert
    f.Blockchain.process_all_transactions f.Crypto.Merkle.new Miner.loop_round
    f.Network.Worker.on_blocks f.HashMap.or_insert f.HashMap.remove f.Generator.generation_round
    f.Blockchain.index_block f.Blockchain.insert_block f.Blockchain.for_each f.Crypto.Hash.be_bytes
    f.Mempool.insert_transaction f.Mempool.pop f.Transaction.Signing.hash_signed f.Prelude.filter
reached = (_, refl)

act_all_sound_example :
    IsWellFormed toy reached.0.0.node.blockchain
    × IsKeyed toy reached.0.0.node.mempool
    × IsStarted reached.0.0.miner
act_all_sound_example =
    act_all_sound toy (toy_key []) actions reached.0.0 reached.0.1 regular reached.1

act_all_fuel_example : act_all toy (toy_key []) actions (new_system toy) ≢ out_of_fuel
act_all_fuel_example = act_all_fuel toy (toy_key []) actions regular

act_all_worked_example : AllWorked toy reached.0.0.node.blockchain
act_all_worked_example = act_all_worked toy (toy_key []) actions reached.0.0 reached.0.1 reached.1
