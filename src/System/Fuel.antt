-- ===== src/System/Fuel.antt =====
-- The loops of the threads come to their end.
use f.Prelude.{
  ℕ, ◌≡◌, ◌≢◌, sym, ◌∙◌, true, List, [], ◌∷◌, arith, filter, out_of_fuel, >>=-ne-out_of_fuel,
  unwrap, unwrap-ne-out_of_fuel, add_word-ne-out_of_fuel, add_word, if-ne-out_of_fuel,
  ok-ne-out_of_fuel,
}
use f.Crypto.Hash.{H256, h256_le, h256_eq}
use f.HashMap.{get}
use f.Transaction.{SignedTransaction, default_signed}
use f.Transaction.Signing.{verify_signature}
use f.Block.{Block}
use f.Block.Hashing.{hash_block}
use f.Blockchain.{Blockchain, for_each, contains_block, insert_block}
use f.Blockchain.Fuel.{insert_block-ne-out_of_fuel}
use f.Blockchain.Loops.{for_each-ne-out_of_fuel}
use f.Blockchain.Reads.{get_block, get_state}
use f.Mempool.{Mempool, get_transaction}
use f.Mempool.Pop.{IsKeyed}
use f.Network.Message.{
  Message, ping, pong, new_block_hashes, get_blocks, blocks, new_transaction_hashes,
  get_transactions, transactions,
}
use f.Network.Worker.{
  Node, fetch_blocks, fetch_transactions, on_get_blocks, on_get_transactions, on_transaction,
  on_transactions, on_message,
}
use f.Network.Worker.Blocks.{on_blocks_fuel}
use f.Miner.{
  Context, Incoming, signal, empty, disconnected, OperatingState, paused, run, shut_down,
  header_on_tip, handle_control_signal, collect, submit, mine_round, mine_in, round_in, loop_round,
}
use f.Miner.Collect.{collect_effect}
use f.Miner.Exit.{handle_control_signal-ne-out_of_fuel}
use f.Blockchain.Invariant.{IsWellFormed}
use f.Blockchain.Reach.{Reachable-IsWellFormed}
use f.Generator.{generation_round}
use f.System.{System, Action, receive, mine, generate, new_system, act, act_all}
use f.System.Runs.{IsSound, all_regular, act-IsSound, new_system-IsSound}
use f.Externals.{Externals, KeyPair}

fetch_blocks-ne-out_of_fuel : (hs : List H256) (c : Blockchain) → fetch_blocks hs c ≢ out_of_fuel
unfolding fetch_blocks get_block
fetch_blocks-ne-out_of_fuel [] c = ok-ne-out_of_fuel []
fetch_blocks-ne-out_of_fuel (h ∷ hs) c =
    >>=-ne-out_of_fuel (get_block h c) _ (unwrap-ne-out_of_fuel (get h c.hash_to_block)) (λ b _.
      >>=-ne-out_of_fuel (fetch_blocks hs c) _ (fetch_blocks-ne-out_of_fuel hs c)
        (λ rest _. ok-ne-out_of_fuel (b ∷ rest)))

fetch_transactions-ne-out_of_fuel :
    (hs : List H256) (m : Mempool) → fetch_transactions hs m ≢ out_of_fuel
unfolding fetch_transactions
fetch_transactions-ne-out_of_fuel [] m = ok-ne-out_of_fuel []
fetch_transactions-ne-out_of_fuel (h ∷ hs) m =
    >>=-ne-out_of_fuel (unwrap (get_transaction h m)) _
      (unwrap-ne-out_of_fuel (get_transaction h m))
      (λ t _.
        >>=-ne-out_of_fuel (fetch_transactions hs m) _ (fetch_transactions-ne-out_of_fuel hs m)
          (λ rest _. ok-ne-out_of_fuel (t ∷ rest)))

module _ (ext : Externals) where
  on_transaction-ne-out_of_fuel :
      (c : Blockchain) (t : SignedTransaction) (s : Mempool × List H256)
      → on_transaction ext c t s ≢ out_of_fuel
  unfolding on_transaction get_state
  on_transaction-ne-out_of_fuel c t (pool, out) =
      if-ne-out_of_fuel (verify_signature ext t) _ _
        (>>=-ne-out_of_fuel (get_state c.tip c) _
          (unwrap-ne-out_of_fuel (get c.tip c.hash_to_state)) (λ state _. ok-ne-out_of_fuel _))
        (ok-ne-out_of_fuel _)

  on_message-ne-out_of_fuel :
      (now : ℕ) (message : Message) (node : Node) → on_message ext now message node ≢ out_of_fuel
  unfolding on_message on_get_blocks on_get_transactions on_transactions
  on_message-ne-out_of_fuel now (ping nonce) node = ok-ne-out_of_fuel _
  on_message-ne-out_of_fuel now (pong nonce) node = ok-ne-out_of_fuel _
  on_message-ne-out_of_fuel now (new_block_hashes hashes) node = ok-ne-out_of_fuel _
  on_message-ne-out_of_fuel now (get_blocks hashes) node =
      >>=-ne-out_of_fuel (on_get_blocks hashes node) _
        (>>=-ne-out_of_fuel
          (fetch_blocks (filter (λ h. contains_block h node.blockchain) hashes) node.blockchain) _
          (fetch_blocks-ne-out_of_fuel _ node.blockchain) (λ found _. ok-ne-out_of_fuel _))
        (λ effects _. ok-ne-out_of_fuel _)
  on_message-ne-out_of_fuel now (blocks bs) node = on_blocks_fuel ext now bs node
  on_message-ne-out_of_fuel now (new_transaction_hashes hashes) node = ok-ne-out_of_fuel _
  on_message-ne-out_of_fuel now (get_transactions hashes) node =
      >>=-ne-out_of_fuel (on_get_transactions hashes node) _
        (>>=-ne-out_of_fuel (fetch_transactions hashes node.mempool) _
          (fetch_transactions-ne-out_of_fuel hashes node.mempool) (λ found _. ok-ne-out_of_fuel _))
        (λ effects _. ok-ne-out_of_fuel _)
  on_message-ne-out_of_fuel now (transactions txs) node =
      >>=-ne-out_of_fuel (for_each (on_transaction ext node.blockchain) txs (node.mempool, [])) _
        (for_each-ne-out_of_fuel (on_transaction ext node.blockchain)
          (on_transaction-ne-out_of_fuel node.blockchain) txs (node.mempool, []))
        (λ r _. ok-ne-out_of_fuel _)

  submit-ne-out_of_fuel :
      (ctx : Context) (c : Blockchain) (pool : Mempool) (block : Block)
      → submit ext ctx c pool block ≢ out_of_fuel
  unfolding submit
  submit-ne-out_of_fuel ctx c pool block =
      if-ne-out_of_fuel (h256_le (hash_block ext block) block.header.difficulty) _ _
        (>>=-ne-out_of_fuel (insert_block ext block c) _ (insert_block-ne-out_of_fuel ext block c)
          (λ c' _.
            >>=-ne-out_of_fuel (add_word ext.overflow_checks 64 ctx.total_blocks_mined 1) _
              (add_word-ne-out_of_fuel ext.overflow_checks 64 ctx.total_blocks_mined 1)
              (λ total _. ok-ne-out_of_fuel _)))
        (ok-ne-out_of_fuel _)

  header_on_tip-ne-out_of_fuel :
      (now nonce : ℕ) (c : Blockchain) → header_on_tip ext now nonce c ≢ out_of_fuel
  unfolding header_on_tip get_block f.Crypto.Merkle.new f.Crypto.Merkle.build
  header_on_tip-ne-out_of_fuel now nonce c =
      >>=-ne-out_of_fuel (get_block c.tip c) _ (unwrap-ne-out_of_fuel (get c.tip c.hash_to_block))
        (λ tip_block _. ok-ne-out_of_fuel _)

  mine_round-ne-out_of_fuel :
      (now nonce : ℕ) (choices : ℕ → ℕ) (ctx : Context) (node : Node)
      → IsKeyed ext node.mempool
      → mine_round ext now nonce choices ctx node ≢ out_of_fuel
  unfolding mine_round
  mine_round-ne-out_of_fuel now nonce choices ctx node v =
      let (taken, ran, collected) =
        collect_effect ext choices 20 (default_signed ∷ []) node.mempool v (omega arith)
          (omega arith) in
      let collects : collect choices 20 (default_signed ∷ []) node.mempool ≢ out_of_fuel =
        λ e. ok-ne-out_of_fuel taken (sym ran ∙ e) in
      >>=-ne-out_of_fuel (header_on_tip ext now nonce node.blockchain) _
        (header_on_tip-ne-out_of_fuel now nonce node.blockchain)
        (λ header _.
          >>=-ne-out_of_fuel (collect choices 20 (default_signed ∷ []) node.mempool) _ collects
            (λ r _. submit-ne-out_of_fuel ctx node.blockchain r.1 _))

  mine_in-ne-out_of_fuel :
      (state : OperatingState) (now nonce : ℕ) (choices : ℕ → ℕ) (ctx : Context) (node : Node)
      → IsKeyed ext node.mempool
      → mine_in ext state now nonce choices ctx node ≢ out_of_fuel
  unfolding mine_in
  mine_in-ne-out_of_fuel (run i) now nonce choices ctx node v =
      mine_round-ne-out_of_fuel now nonce choices ctx node v
  mine_in-ne-out_of_fuel paused now nonce choices ctx node v = ok-ne-out_of_fuel _
  mine_in-ne-out_of_fuel shut_down now nonce choices ctx node v = ok-ne-out_of_fuel _

  round_in-ne-out_of_fuel :
      (state : OperatingState) (now nonce : ℕ) (choices : ℕ → ℕ) (incoming : Incoming)
      (ctx : Context) (node : Node)
      → IsWellFormed ext node.blockchain
      → IsKeyed ext node.mempool
      → round_in ext state now nonce choices incoming ctx node ≢ out_of_fuel
  unfolding round_in
  round_in-ne-out_of_fuel shut_down now nonce choices incoming ctx node w v = ok-ne-out_of_fuel _
  round_in-ne-out_of_fuel paused now nonce choices (signal s) ctx node w v =
      >>=-ne-out_of_fuel (handle_control_signal ext now s node.blockchain ctx) _
        (handle_control_signal-ne-out_of_fuel ext now s node.blockchain ctx w)
        (λ ctx' _. ok-ne-out_of_fuel _)
  round_in-ne-out_of_fuel paused now nonce choices empty ctx node w v = ok-ne-out_of_fuel _
  round_in-ne-out_of_fuel paused now nonce choices disconnected ctx node w v = λ e. cc
  round_in-ne-out_of_fuel (run i) now nonce choices (signal s) ctx node w v =
      >>=-ne-out_of_fuel (handle_control_signal ext now s node.blockchain ctx) _
        (handle_control_signal-ne-out_of_fuel ext now s node.blockchain ctx w)
        (λ ctx' _. mine_in-ne-out_of_fuel ctx'.operating_state now nonce choices ctx' node v)
  round_in-ne-out_of_fuel (run i) now nonce choices empty ctx node w v =
      mine_in-ne-out_of_fuel (run i) now nonce choices ctx node v
  round_in-ne-out_of_fuel (run i) now nonce choices disconnected ctx node w v = λ e. cc

  pub act-ne-out_of_fuel :
      (controlled : KeyPair) (a : Action) (s : System)
      → IsWellFormed ext s.node.blockchain
      → IsKeyed ext s.node.mempool
      → act ext controlled a s ≢ out_of_fuel
  unfolding act loop_round generation_round get_state
  act-ne-out_of_fuel controlled (receive now message) s w v =
      >>=-ne-out_of_fuel (on_message ext now message s.node) _
        (on_message-ne-out_of_fuel now message s.node) (λ r _. ok-ne-out_of_fuel _)
  act-ne-out_of_fuel controlled (mine now nonce choices incoming) s w v =
      >>=-ne-out_of_fuel (loop_round ext now nonce choices incoming s.miner s.node) _
        (round_in-ne-out_of_fuel s.miner.operating_state now nonce choices incoming s.miner s.node w
          v)
        (λ r _. ok-ne-out_of_fuel _)
  act-ne-out_of_fuel controlled (generate random iter) s w v =
      >>=-ne-out_of_fuel (generation_round ext controlled random iter s.node) _
        (>>=-ne-out_of_fuel (get_state s.node.blockchain.tip s.node.blockchain) _
          (unwrap-ne-out_of_fuel (get s.node.blockchain.tip s.node.blockchain.hash_to_state))
          (λ state _. ok-ne-out_of_fuel _))
        (λ r _. ok-ne-out_of_fuel _)

  act_all-ne-out_of_fuel :
      (controlled : KeyPair) (actions : List Action) (s : System)
      → IsSound ext s
      → all_regular ext controlled actions s ≡ true
      → act_all ext controlled actions s ≢ out_of_fuel
  unfolding act_all
  act_all-ne-out_of_fuel controlled [] s v regular = ok-ne-out_of_fuel _
  act_all-ne-out_of_fuel controlled (a ∷ as') s v regular =
      >>=-ne-out_of_fuel (act ext controlled a s) _
        (act-ne-out_of_fuel controlled a s (Reachable-IsWellFormed v.chain) v.pool)
        (λ r ran.
          >>=-ne-out_of_fuel (act_all ext controlled as' r.0) _
            (act_all-ne-out_of_fuel controlled as' r.0
              (act-IsSound ext controlled a s r.0 r.1 v (ground (arith, regular)) ran)
              (ground (arith, regular, ran)))
            (λ rest _. ok-ne-out_of_fuel _))

  -- No loop of a run from the start of the program goes on for ever: whatever the messages, the rounds of
  -- the miner and those of the transaction generator are, and in whatever order they take the locks, the
  -- run returns or panics, if no action makes more than 2 ^ 64 blocks or a header whose hash is the hash of
  -- another block.
  pub act_all_fuel :
      (controlled : KeyPair) (actions : List Action)
      → all_regular ext controlled actions (new_system ext) ≡ true
      → act_all ext controlled actions (new_system ext) ≢ out_of_fuel
  act_all_fuel controlled actions regular =
      act_all-ne-out_of_fuel controlled actions (new_system ext) (new_system-IsSound ext) regular
