-- ===== src/Miner.antt =====
-- src/miner.rs: the miner's control state, and one round of `miner_loop`. The locks on the chain and on
-- the pool are held for the rest of a round, so a round is one step on what the threads share.
pub mod Collect
pub mod Round
pub mod Control
pub mod Exit
use f.Prelude.{
  ℕ, zero, suc, ◌+◌, ◌-◌, Bool, Option, none, some, List, [], ◌∷◌, ◌++◌, ltb, if◌then◌else◌, length,
  Result, ok, panic, out_of_fuel, ◌>>=◌, add_word,
}
use f.Crypto.Hash.{H256, h256_le, h256_eq}
use f.Crypto.Merkle
use f.HashMap.{insert}
use f.Transaction.{SignedTransaction, default_signed}
use f.Transaction.Signing.{signed_hashable}
use f.Block.{Header, Block}
use f.Block.Hashing.{hash_block}
use f.Blockchain.{Blockchain, mined, insert_block}
use f.Blockchain.Reads.{
  get_block, block_count, all_blocks_in_longest_chain, average_block_size, block_delays_ms,
}
use f.Mempool.{Mempool, pop}
use f.Network.Message.{new_block_hashes}
use f.Network.Worker.{Node, Effect, broadcast}
use f.Externals.{Externals}

pub data ControlSignal : Type 0 where
  start : ℕ → ControlSignal
  exit : ControlSignal

pub data OperatingState : Type 0 where
  paused : OperatingState
  run : ℕ → OperatingState
  shut_down : OperatingState

-- What the control channel offers in a round.
pub data Incoming : Type 0 where
  signal : ControlSignal → Incoming
  empty disconnected : Incoming

pub record Context : Type 0 where
  pub operating_state : OperatingState
  pub total_blocks_mined : ℕ
  pub start_time : Option ℕ

-- `miner::new`
abbrev pub new_context : Context
new_context = record { operating_state = paused; total_blocks_mined = 0; start_time = none }

-- `while transactions.len() < 20`. Each round of the loop adds a transaction, so 20 rounds are fuel
-- enough from one transaction on. `choices` picks the keys that `pop` meets first.
unfoldable pub collect :
    (ℕ → ℕ) → ℕ → List SignedTransaction → Mempool → Result (List SignedTransaction × Mempool)
collect choices zero transactions m = out_of_fuel
collect choices (suc fuel) transactions m =
    let (trans, m') = pop (choices fuel) m in
    let more : Result (List SignedTransaction × Mempool) = elim trans [
      | none ↦ ok (transactions, m')
      | some t ↦ collect choices fuel (transactions ++ t ∷ []) m'
    ] in
    if ltb (length transactions) 20 then more else ok (transactions, m)

-- What `Exit` logs of a miner that has started. The rate is left out, a quotient of the first two as
-- floating-point numbers.
pub record MiningStats : Type 0 where
  pub total_blocks_mined : ℕ
  pub time_spent : ℕ
  pub block_count : ℕ
  pub longest_chain : List H256
  pub average_block_size : ℕ
  pub block_delays_ms : List ℕ

module _ (ext : Externals) where
  -- The statistics of a miner that started at `begun`.
  unfoldable pub mining_stats : ℕ → ℕ → Context → Blockchain → Result MiningStats
  unfolding block_count all_blocks_in_longest_chain average_block_size block_delays_ms
  mining_stats now begun ctx c = do
    time_spent ← if ltb now begun then panic else ok (now - begun)
    longest_chain ← all_blocks_in_longest_chain c
    average ← average_block_size ext c
    ok (record {
      total_blocks_mined = ctx.total_blocks_mined;
      time_spent = time_spent;
      block_count = block_count c;
      longest_chain = longest_chain;
      average_block_size = average;
      block_delays_ms = block_delays_ms c;
    })

  -- The chain is the one that the miner has behind its lock.
  unfoldable pub handle_control_signal : ℕ → ControlSignal → Blockchain → Context → Result Context
  unfolding mining_stats
  handle_control_signal now exit c ctx =
      let ended = record ctx { operating_state = shut_down } in
      elim ctx.start_time [
        | none ↦ ok ended
        | some begun ↦ mining_stats now begun ended c >>= λ stats. ok ended
      ]
  handle_control_signal now (start i) c ctx = ok (record ctx {
    operating_state = run i;
    start_time = elim ctx.start_time [ none ↦ some now | some begun ↦ some begun ];
  })

  -- The header is complete before the pool is read.
  unfoldable pub header_on_tip : ℕ → ℕ → Blockchain → Result Header
  unfolding get_block
  header_on_tip now nonce c = do
    tip_block ← get_block c.tip c
    tree ← f.Crypto.Merkle.new ext.sha256 ⦃h = signed_hashable ext⦄ (default_signed ∷ [])
    ok (record {
      parent = c.tip;
      nonce = nonce;
      difficulty = tip_block.header.difficulty;
      timestamp = now;
      merkle_root = f.Crypto.Merkle.root tree;
    })

  -- `if block.hash() <= difficulty`, after the transactions have been taken, which leaves `pool`.
  unfoldable pub submit :
      Context → Blockchain → Mempool → Block → Result (Context × (Node × List Effect))
  unfolding insert_block
  submit ctx c pool block =
      let hash = hash_block ext block in
      let found = (do
        c' ← insert_block ext block c
        total ← add_word ext.overflow_checks 64 ctx.total_blocks_mined 1
        ok (
          record ctx { total_blocks_mined = total },
          (
            record {
              blockchain = record c' { hash_to_origin = insert hash mined c'.hash_to_origin };
              mempool = pool;
            },
            broadcast (new_block_hashes (hash ∷ [])) ∷ [],
          ),
        )) in
      if h256_le hash block.header.difficulty
      then found
      else ok (ctx, (record { blockchain = c; mempool = pool }, []))

  -- The part of the round for `OperatingState::Run`.
  unfoldable pub mine_round :
      ℕ → ℕ → (ℕ → ℕ) → Context → Node → Result (Context × (Node × List Effect))
  unfolding header_on_tip collect submit
  mine_round now nonce choices ctx node = do
    header ← header_on_tip now nonce node.blockchain
    (transactions, pool) ← collect choices 20 (default_signed ∷ []) node.mempool
    submit ctx node.blockchain pool
        (record { header = header; content = record { transactions = transactions } })

  -- `if let OperatingState::Run(i)`, on the operating state of `ctx`.
  unfoldable pub mine_in :
      OperatingState → ℕ → ℕ → (ℕ → ℕ) → Context → Node → Result (Context × (Node × List Effect))
  unfolding mine_round
  mine_in (run i) now nonce choices ctx node = mine_round now nonce choices ctx node
  mine_in paused now nonce choices ctx node = ok (ctx, (node, []))
  mine_in shut_down now nonce choices ctx node = ok (ctx, (node, []))

  -- A round on the operating state of `ctx`. A paused miner waits for a signal and goes on with the next
  -- round; one that has shut down has returned.
  unfoldable pub round_in :
      OperatingState
      → ℕ
      → ℕ
      → (ℕ → ℕ)
      → Incoming
      → Context
      → Node
      → Result (Context × (Node × List Effect))
  unfolding mine_in handle_control_signal
  round_in shut_down now nonce choices incoming ctx node = ok (ctx, (node, []))
  round_in paused now nonce choices (signal s) ctx node = do
    ctx' ← handle_control_signal now s node.blockchain ctx
    ok (ctx', (node, []))
  round_in paused now nonce choices empty ctx node = ok (ctx, (node, []))
  round_in paused now nonce choices disconnected ctx node = panic
  round_in (run i) now nonce choices (signal s) ctx node = do
    ctx' ← handle_control_signal now s node.blockchain ctx
    mine_in ctx'.operating_state now nonce choices ctx' node
  round_in (run i) now nonce choices empty ctx node = mine_in (run i) now nonce choices ctx node
  round_in (run i) now nonce choices disconnected ctx node = panic

  -- One round of `miner_loop`.
  unfoldable pub loop_round :
      ℕ → ℕ → (ℕ → ℕ) → Incoming → Context → Node → Result (Context × (Node × List Effect))
  unfolding round_in
  loop_round now nonce choices incoming ctx node =
      round_in ctx.operating_state now nonce choices incoming ctx node
