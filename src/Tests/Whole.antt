-- ===== src/Tests/Whole.antt =====
-- The whole program, with its channels, on concrete data.
use f.Prelude.{
  ◌>>=◌, ℕ, suc, ◌+◌, ◌*◌, ◌≤◌, ◌<◌, ◌^◌, ◌≡◌, refl, true, false, Option, none, some, List, [], ◌∷◌,
  ◌++◌, ok, arith, replicate, length, subst, panic, out_of_fuel,
}
use f.Decimal.{print, ascii}
use f.Crypto.Hash.{h256_eq}
use f.Miner
use f.Miner.{Context, MiningStats, paused, shut_down, exit, mining_stats, handle_control_signal}
use f.Miner.Exit.{Reports, total_size, exit-Reports}
use f.Network.Message.{ping, pong, blocks}
use f.Network.Worker.{Effect, write, on_message}
use f.Network.Server.{Peer, new_peer, Server, accept_all, new_server}
use f.System.{System, Action, receive, act, new_system}
use f.System.Runs.{new_system-IsSound}
use f.System.Whole.{
  Step, control_ready, incoming_ready, token_ready, work, mining, http, take_at, Program,
  new_program, act_for, step, run,
}
use f.Blockchain.Work.{new-AllWorked}
use f.System.Whole.Steps.{IsWell}
use f.System.Whole.Runs.{all_allowed, Outcome, run_outcome}
use f.System.Whole.Requests.{http-start}
use f.System.Whole.Replies.{written, announced, with_all, answered, Sent, work-Sent}
use f.System.Whole.Delivery.{act_for-delivers}
use f.System.Whole.Idle.{IsIdle}
use f.System.Whole.Unasked.{all_unasked, run_unasked}
use f.Tests.{toy, toy_key, child, grown}
use f.Tests.Chain.{grown-IsWellFormed}
use f.Tests.Server.{toy_slab, with_peers, with_peers-IsConsistent, toy_codec}

abbrev Toy : Type 0
Toy = Program toy toy_codec toy_slab

abbrev start_at_250 : f.Api.Url
start_at_250 = record {
  path = ascii "/miner/start";
  query_pairs = [] ++ (ascii "lambda", print 250) ∷ [];
}

-- Two peers connect and the miner is started; a peer sends a ping, a worker answers it, the miner mines a
-- block, and the server broadcasts its hash.
abbrev steps : List Step
steps =
    incoming_ready (true ∷ true ∷ []) true
    ∷ http (some start_at_250)
    ∷ mining 9 0 (λ n. n)
    ∷ token_ready 2
        (some (record {
          bytes = 0 ∷ 0 ∷ 0 ∷ 2 ∷ 1 ∷ 7 ∷ [];
          choices = λ round. 9;
          end = f.Network.Server.would_block;
          has_receiver = true;
        }))
        none true
    ∷ work 0 9 false
    ∷ mining 9 0 (λ n. n)
    ∷ control_ready true
    ∷ []

abbrev at_start : Toy
at_start = new_program toy toy_codec toy_slab

allowed : all_allowed toy toy_codec toy_slab (toy_key []) steps at_start ≡ true
unfolding run step f.System.act f.Prelude.bytes_beq print f.Blockchain.new f.Crypto.Hash.h256_beq
    f.Block.Hashing.hash_block f.Crypto.Merkle.new f.Blockchain.contains_block
    f.HashMap.contains_key f.Crypto.Hash.be_bytes f.Mempool.pop f.Crypto.Hash.h256_le
    f.Crypto.Hash.cmp f.Prelude.add_word f.Blockchain.process_all_transactions
allowed = refl

run_outcome_example : Outcome toy toy_codec toy_slab (toy_key []) steps at_start
run_outcome_example = run_outcome toy toy_codec toy_slab (toy_key []) steps allowed

http-start_example :
    (q : Toy) × (run toy toy_codec toy_slab
        (toy_key [])
        (http (some start_at_250) ∷ mining 9 0 (λ n. n) ∷ [])
        at_start
      ≡ ok q)
    × (q.system.miner.operating_state ≡ Miner.run 250)
    × (q.system.node ≡ at_start.system.node)
    × (q.server ≡ at_start.server)
    × (q.controls ≡ at_start.controls)
    × (q.signals ≡ [])
http-start_example =
    http-start toy toy_codec toy_slab (toy_key []) [] 250 9 0 (λ n. n) at_start (omega arith) refl
      refl

-- Two peers are connected, and a ping of the second one is on its way to a worker.
abbrev connected : Toy
connected = record at_start { server = record (with_peers 2) { delivered = (1, 1 ∷ 7 ∷ []) ∷ [] } }

connected-IsWell : IsWell toy toy_codec toy_slab connected
connected-IsWell =
    let v = with_peers-IsConsistent 2 in
    record {
      server = record { listed = v.listed; small = v.small; sound = v.sound };
      system = new_system-IsSound toy;
      worked = new-AllWorked toy;
    }

taken : take_at 0 connected.server.delivered ≡ some ((1, 1 ∷ 7 ∷ []), [])
unfolding take_at
taken = refl

answered_ping :
    on_message toy 9 (ping (7 ∷ [])) connected.system.node
    ≡ ok (connected.system.node, write (pong (7 ∷ [])) ∷ [])
unfolding on_message
answered_ping = refl

work-Sent_example :
    (q : Toy) × (step toy toy_codec toy_slab (toy_key []) (work 0 9 false) connected ≡ ok q)
    × Sent toy toy_codec toy_slab
        (some 1)
        (write (pong (7 ∷ [])) ∷ [])
        (record connected { server = record (with_peers 2) { delivered = [] } })
        q
work-Sent_example =
    work-Sent toy toy_codec toy_slab (toy_key []) 0 9 1 false (1 ∷ 7 ∷ []) [] (ping (7 ∷ []))
      connected.system.node (write (pong (7 ∷ [])) ∷ []) connected taken refl answered_ping

-- A ping of the second peer is answered, and the miner is told to exit.
abbrev quiet_steps : List Step
quiet_steps =
    work 0 9 false
    ∷ http (some (record { path = ascii "/network/ping"; query_pairs = [] }))
    ∷ mining 9 0 (λ n. n)
    ∷ http (some (record { path = ascii "/miner/exit"; query_pairs = [] }))
    ∷ mining 9 0 (λ n. n)
    ∷ control_ready true
    ∷ []

quiet_steps_unasked : all_unasked quiet_steps ≡ true
unfolding f.Api.serve f.Prelude.bytes_beq
quiet_steps_unasked = refl

after_quiet_steps :
    (q : Toy) × (run toy toy_codec toy_slab (toy_key []) quiet_steps at_start ≡ ok q)
unfolding run step f.Prelude.bytes_beq
after_quiet_steps = (_, refl)

run_unasked_example : IsIdle after_quiet_steps.0.system.miner
run_unasked_example =
    run_unasked toy toy_codec toy_slab (toy_key []) quiet_steps after_quiet_steps.0
      quiet_steps_unasked after_quiet_steps.1

-- The second peer sends a block.
abbrev block_received : Action
block_received = receive 9 (blocks (child ∷ []))

adopted : (r : System × List Effect) × (act toy (toy_key []) block_received connected.system ≡ ok r)
unfolding act f.Prelude.sub_word f.Blockchain.contains_block f.HashMap.contains_key f.HashMap.get
    f.Blockchain.new f.Crypto.Hash.h256_beq f.Prelude.bytes_beq f.Block.Hashing.hash_block
    f.Blockchain.pow_validity_check f.Crypto.Hash.h256_le f.Crypto.Hash.cmp
    f.Blockchain.parent_check f.Blockchain.insert_recursively f.Prelude.add_word f.HashMap.insert
    f.Blockchain.process_all_transactions
adopted = (_, refl)

act_for-delivers_example :
    (q : Toy) × ((act_for toy toy_codec toy_slab (toy_key []) (some 1) block_received connected
        >>= step toy toy_codec toy_slab (toy_key []) (control_ready true))
      ≡ ok q)
    × ((k : ℕ)
        → toy_slab.get k q.server.peers
          ≡ with_all toy toy_codec toy_slab (announced adopted.0.1) (
              answered toy toy_codec toy_slab
                (some 1)
                k
                (written adopted.0.1)
                (toy_slab.get k connected.server.peers)))
    × (q.server.peer_list ≡ connected.server.peer_list)
    × (q.server.delivered ≡ connected.server.delivered)
    × (q.controls ≡ [])
    × (q.system ≡ adopted.0.0)
act_for-delivers_example =
    act_for-delivers toy toy_codec toy_slab (toy_key []) (some 1) block_received connected
      adopted.0.0 adopted.0.1 connected-IsWell.server refl adopted.1

abbrev started : Context
started = record { operating_state = Miner.run 0; total_blocks_mined = 1; start_time = some 1 }

small_enough : total_size toy grown.hash_to_block < 2 ^ 64
unfolding total_size f.Block.Hashing.size
small_enough = omega arith

exit-Reports_example :
    (stats : MiningStats) × (mining_stats toy 9 1
        (record started { operating_state = shut_down })
        grown
      ≡ ok stats)
    × Reports toy grown grown-IsWellFormed stats
    × (handle_control_signal toy 9 exit grown started
        ≡ ok (record started { operating_state = shut_down }))
exit-Reports_example =
    exit-Reports toy 9 1 grown started grown-IsWellFormed refl (omega arith) small_enough
