-- ===== src/Miner/Exit.antt =====
-- src/miner.rs and src/blockchain.rs: what the miner logs of the chain when it shuts down.
use mathlib.Core.List.{Perm}
use native.Mathlib.Omega.{div_any}
use native.Mathlib.Nat.{mod-lt}
use f.Prelude.{
  Option, none, ℕ, ◌+◌, ◌-◌, ◌*◌, ◌/◌, ◌%◌, ◌≤◌, ◌<◌, ◌^◌, ◌≡◌, ◌≢◌, refl, sym, ◌∙◌, ap, false,
  some, List, [], ◌∷◌, reverse, length, nat_beq, arith, ok, panic, out_of_fuel, ◌>>=◌, add_word,
  add_word-fits, if-ne-out_of_fuel, ok-ne-out_of_fuel, >>=-ne-out_of_fuel, add_word-ne-out_of_fuel,
  if◌then◌else◌, ltb,
}
use f.Crypto.Hash.{H256}
use f.HashMap.{HashMap}
use f.Block.{Block}
use f.Block.Hashing.{size}
use f.Blockchain.{Blockchain}
use f.Blockchain.Invariant.{IsWellFormed}
use f.Blockchain.Chain.{Descent, longest_chain}
use f.Blockchain.Delays.{Ascending, block_delays_ms_lem}
use f.Blockchain.Reads.{
  block_count, all_blocks_in_longest_chain, sum_sizes, average_block_size, block_delays_ms, delays,
}
use f.Miner.{
  Context, ControlSignal, exit, start, shut_down, MiningStats, mining_stats, handle_control_signal,
}
use f.Externals.{Externals}

module _ (ext : Externals) where
  -- The size of all the blocks of a map together.
  unfoldable pub total_size : HashMap H256 Block → ℕ
  total_size [] = 0
  total_size ((h, b) ∷ m) = size ext b + total_size m

  sum_sizes-fits :
      (acc : ℕ) (m : HashMap H256 Block)
      → acc + total_size m < 2 ^ 64
      → sum_sizes ext acc m ≡ ok (acc + total_size m)
  unfolding sum_sizes total_size
  sum_sizes-fits acc [] room = ground arith
  sum_sizes-fits acc ((h, b) ∷ m) room =
      let added = add_word-fits ext.overflow_checks 64 acc (size ext b) (omega (arith, room)) in
      let rest = sum_sizes-fits (acc + size ext b) m (omega (arith, room)) in
      rw (added, rest) (ap ok (omega arith))

  sum_sizes-ne-out_of_fuel : (acc : ℕ) (m : HashMap H256 Block) → sum_sizes ext acc m ≢ out_of_fuel
  unfolding sum_sizes
  sum_sizes-ne-out_of_fuel acc [] = λ e. cc
  sum_sizes-ne-out_of_fuel acc ((h, b) ∷ m) =
      >>=-ne-out_of_fuel (add_word ext.overflow_checks 64 acc (size ext b)) _
        (add_word-ne-out_of_fuel ext.overflow_checks 64 acc (size ext b))
        (λ acc' _. sum_sizes-ne-out_of_fuel acc' m)

  -- What the statistics of a well-formed chain say.
  pub record Reports (c : Blockchain) (v : IsWellFormed ext c) (stats : MiningStats) : Type 0 where
    pub backward : List H256
    pub chain_listed : stats.longest_chain ≡ reverse backward
    pub descends : Descent ext c backward c.tip v.tip_height
    pub no_longer : length backward ≤ stats.block_count
    pub at_most_average : stats.average_block_size * stats.block_count ≤ total_size c.hash_to_block
    pub above_average :
        total_size c.hash_to_block < (stats.average_block_size + 1) * stats.block_count
    pub ascending : Ascending stats.block_delays_ms
    pub same_delays : Perm stats.block_delays_ms (delays c.hash_to_origin)

  average_block_size-returns :
      (c : Blockchain)
      → 0 < block_count c
      → total_size c.hash_to_block < 2 ^ 64
      → average_block_size ext c ≡ ok (total_size c.hash_to_block / block_count c)
  unfolding average_block_size
  average_block_size-returns c some_block room =
      let some' : nat_beq (block_count c) 0 ≡ false = ground arith in
      let summed : sum_sizes ext 0 c.hash_to_block ≡ ok (total_size c.hash_to_block) =
        sum_sizes-fits 0 c.hash_to_block (omega (arith, room)) ∙ ap ok (omega arith) in
      rw (summed, some') refl

  -- On a well-formed chain whose blocks have less than 2 ^ 64 bytes together, `Exit` returns: a miner that
  -- started, at a time that is not after the present one, reports its chain and shuts down. The report
  -- lists the hashes from the genesis block to the tip, no more than there are blocks, the mean size of
  -- the blocks, rounded down, and the delays of the received blocks in ascending order.
  pub exit-Reports :
      (now begun : ℕ) (c : Blockchain) (ctx : Context) (v : IsWellFormed ext c)
      → ctx.start_time ≡ some begun
      → begun ≤ now
      → total_size c.hash_to_block < 2 ^ 64
      → (stats : MiningStats) × (mining_stats ext now begun
            (record ctx { operating_state = shut_down })
            c
          ≡ ok stats)
        × Reports c v stats
        × (handle_control_signal ext now exit c ctx
            ≡ ok (record ctx { operating_state = shut_down }))
  unfolding mining_stats handle_control_signal block_count
  exit-Reports now begun c ctx v at later room =
      let (backward, listed, descends, long) = longest_chain ext c v in
      let bounded = v.bounded c.tip v.tip_height v.tip_at in
      let averaged = average_block_size-returns c (omega (arith, bounded)) room in
      let in_time : ltb now begun ≡ false = ground (arith, later) in
      let (ascending, same) = block_delays_ms_lem c in
      let total = total_size c.hash_to_block in
      let n = block_count c in
      let divided = div_any total n in
      let below : total % n < n = mod-lt total (omega (arith, bounded)) in
      (
        record {
          total_blocks_mined = ctx.total_blocks_mined;
          time_spent = now - begun;
          block_count = n;
          longest_chain = reverse backward;
          average_block_size = total / n;
          block_delays_ms = block_delays_ms c;
        },
        rw (in_time, listed, averaged) refl,
        record {
          backward = backward;
          chain_listed = refl;
          descends = descends;
          no_longer = omega (arith, bounded, long);
          at_most_average = omega (arith, divided);
          above_average = omega (arith, divided, below);
          ascending = ascending;
          same_delays = same;
        },
        rw (at, in_time, listed, averaged) refl,
      )

  average_block_size-ne-out_of_fuel : (c : Blockchain) → average_block_size ext c ≢ out_of_fuel
  unfolding average_block_size
  average_block_size-ne-out_of_fuel c =
      >>=-ne-out_of_fuel (sum_sizes ext 0 c.hash_to_block) _
        (sum_sizes-ne-out_of_fuel 0 c.hash_to_block)
        (λ total _.
          if-ne-out_of_fuel (nat_beq (block_count c) 0) _ _ (λ e. cc) (ok-ne-out_of_fuel _))

  mining_stats-ne-out_of_fuel :
      (now begun : ℕ) (ctx : Context) (c : Blockchain)
      → IsWellFormed ext c
      → mining_stats ext now begun ctx c ≢ out_of_fuel
  unfolding mining_stats
  mining_stats-ne-out_of_fuel now begun ctx c v =
      let (backward, listed, descends, long) = longest_chain ext c v in
      >>=-ne-out_of_fuel (if ltb now begun then panic else ok (now - begun)) _
        (λ e. ground (arith, e))
        (λ spent _.
          >>=-ne-out_of_fuel (all_blocks_in_longest_chain c) _
            (λ e. ok-ne-out_of_fuel _ (sym listed ∙ e))
            (λ hashes _.
              >>=-ne-out_of_fuel (average_block_size ext c) _ (average_block_size-ne-out_of_fuel c)
                (λ average _. ok-ne-out_of_fuel _)))

  reporting-ne-out_of_fuel :
      (now : ℕ) (c : Blockchain) (ended : Context) (begun : Option ℕ)
      → IsWellFormed ext c
      → (elim begun [
        | none ↦ ok ended
        | some at ↦ mining_stats ext now at ended c >>= λ stats. ok ended
      ])
        ≢ out_of_fuel
  reporting-ne-out_of_fuel now c ended none w = ok-ne-out_of_fuel _
  reporting-ne-out_of_fuel now c ended (some at) w =
      >>=-ne-out_of_fuel (mining_stats ext now at ended c) _
        (mining_stats-ne-out_of_fuel now at ended c w) (λ stats _. ok-ne-out_of_fuel _)

  pub handle_control_signal-ne-out_of_fuel :
      (now : ℕ) (s : ControlSignal) (c : Blockchain) (ctx : Context)
      → IsWellFormed ext c
      → handle_control_signal ext now s c ctx ≢ out_of_fuel
  unfolding handle_control_signal
  handle_control_signal-ne-out_of_fuel now exit c ctx w =
      reporting-ne-out_of_fuel now c (record ctx { operating_state = shut_down }) ctx.start_time w
  handle_control_signal-ne-out_of_fuel now (start i) c ctx w = ok-ne-out_of_fuel _
