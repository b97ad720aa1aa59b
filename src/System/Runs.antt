-- ===== src/System/Runs.antt =====
-- Runs of all the threads.
use f.Prelude.{
  ◌^◌, ◌≡◌, inl, inr, refl, sym, subst, Bool, true, not, List, [], ◌∷◌, arith, length, leb, ltb,
  ◌&&◌, Result, ok, panic, out_of_fuel, >>=-eq-ok, ok-injective,
}
use f.HashMap.{get}
use f.Block.{Header}
use f.Block.Hashing.{hash_header}
use f.Blockchain.{Blockchain, contains_block}
use f.Blockchain.Reads.{get_state}
use f.Blockchain.Reach.{Reachable, start, Reachable-IsWellFormed}
use f.Blockchain.Invariant.{IsWellFormed}
use f.Mempool.Pop.{IsKeyed, insert_transaction-IsKeyed}
use f.Network.Worker.{Node, Effect, on_message}
use f.Miner.{Context, header_on_tip, mine_round, loop_round}
use f.Miner.Round.{mine_round-Reachable}
use f.Miner.Control.{IsStarted, loop_round-IsStarted}
use f.Generator.{generated, generation_round}
use f.System.Soundness.{Keeps, Mines, on_message-Keeps, round_in-Mines}
use f.System.{System, Action, receive, mine, generate, new_system, act, act_all}
use f.Externals.{Externals, KeyPair}

module _ (ext : Externals) where
  -- The chain is one that insertions make, the pool has each transaction under its hash, and a running
  -- miner has a start time.
  pub record IsSound (s : System) : Type 0 where
    pub chain : Reachable ext s.node.blockchain
    pub pool : IsKeyed ext s.node.mempool
    pub started : IsStarted s.miner

  -- There is room for another block, and none has the hash of a header that the miner would make.
  abbrev is_new : Blockchain → Result Header → Bool
  is_new c (ok header) =
      not (contains_block (hash_header ext header) c) && ltb (length c.hash_to_block) (2 ^ 64)
  is_new c _ = true

  -- There is still room in the chain.
  abbrev has_room : Result (Node × List Effect) → Bool
  has_room (ok r) = leb (length r.0.blockchain.hash_to_block) (2 ^ 64)
  has_room _ = true

  -- What the data structures of the program cannot hold does not come up in an action: more than 2 ^ 64
  -- blocks, or two blocks of one hash.
  abbrev pub is_regular : Action → System → Bool
  is_regular (receive now message) s = has_room (on_message ext now message s.node)
  is_regular (mine now nonce choices incoming) s =
      is_new s.node.blockchain (header_on_tip ext now nonce s.node.blockchain)
  is_regular (generate random iter) s = true

  pub act-IsSound :
      (controlled : KeyPair) (a : Action) (s s' : System) (effects : List Effect)
      → IsSound s
      → is_regular a s ≡ true
      → act ext controlled a s ≡ ok (s', effects)
      → IsSound s'
  unfolding act
  act-IsSound controlled (receive now message) s s' effects v regular e =
      let ((node, sent), ran, k) = >>=-eq-ok (on_message ext now message s.node) _ e in
      let room : leb (length node.blockchain.hash_to_block) (2 ^ 64) ≡ true =
        ground (arith, regular, ran) in
      let (chain, pool) =
        on_message-Keeps ext now message s.node node sent (v.chain, v.pool) ran (ground arith) in
      subst (λ (x : System × List Effect). IsSound x.0) (ok-injective k)
        (record { chain = chain; pool = pool; started = v.started })
  act-IsSound controlled (mine now nonce choices incoming) s s' effects v regular e =
      let (r, ran, k) = >>=-eq-ok (loop_round ext now nonce choices incoming s.miner s.node) _ e in
      let started =
        loop_round-IsStarted ext now nonce choices incoming s.miner s.node r v.started ran in
      let (chain, pool) = mines r (
        round_in-Mines ext s.miner.operating_state now nonce choices incoming s.miner s.node r
          (unfold loop_round in ran)) in
      subst (λ (x : System × List Effect). IsSound x.0) (ok-injective k)
        (record { chain = chain; pool = pool; started = started })
    where
      mines :
          (r : Context × (Node × List Effect))
          → Mines ext now nonce choices s.node r
          → Keeps ext r.1.0
      mines r (inl same) = subst (Keeps ext) (sym same) (v.chain, v.pool)
      mines r (inr (ctx, mined)) =
          let (header, made, k) =
            >>=-eq-ok (header_on_tip ext now nonce s.node.blockchain) _
              (unfold mine_round in mined) in
          mine_round-Reachable ext now nonce choices ctx s.node r v.pool v.chain
            (ground (arith, regular, made)) (λ h made'. ground (arith, regular, made')) mined
  act-IsSound controlled (generate random iter) s s' effects v regular e =
      let ((node, sent), ran, k) =
        >>=-eq-ok (generation_round ext controlled random iter s.node) _ e in
      let (state, found, k') =
        >>=-eq-ok (get_state s.node.blockchain.tip s.node.blockchain) _
          (unfold generation_round in ran) in
      let kept =
        insert_transaction-IsKeyed ext (generated ext controlled random iter state) s.node.mempool
          v.pool in
      let (chain, pool) =
        subst (λ (x : Node × List Effect). Keeps ext x.0) (ok-injective k') (v.chain, kept) in
      subst (λ (x : System × List Effect). IsSound x.0) (ok-injective k)
        (record { chain = chain; pool = pool; started = v.started })

  -- Each action of a run is regular in the state in which it is taken.
  abbrev pub all_regular : KeyPair → List Action → System → Bool
  all_regular controlled [] s = true
  all_regular controlled (a ∷ as') s = is_regular a s && elim (act ext controlled a s) [
    | ok r ↦ all_regular controlled as' r.0
    | panic ↦ true
    | out_of_fuel ↦ true
  ]

  act_all-IsSound :
      (controlled : KeyPair) (actions : List Action) (s s' : System) (effects : List Effect)
      → IsSound s
      → all_regular controlled actions s ≡ true
      → act_all ext controlled actions s ≡ ok (s', effects)
      → IsSound s'
  unfolding act_all
  act_all-IsSound controlled [] s s' effects v regular e =
      subst (λ (x : System × List Effect). IsSound x.0) (ok-injective e) v
  act_all-IsSound controlled (a ∷ as') s s' effects v regular e =
      let ((t, sent), ran, k) = >>=-eq-ok (act ext controlled a s) _ e in
      let ((end, more), ran_on, k') = >>=-eq-ok (act_all ext controlled as' t) _ k in
      let kept = act-IsSound controlled a s t sent v (ground (arith, regular)) ran in
      let sound =
        act_all-IsSound controlled as' t end more kept (ground (arith, regular, ran)) ran_on in
      subst (λ (x : System × List Effect). IsSound x.0) (ok-injective k') sound

  pub new_system-IsSound : IsSound (new_system ext)
  unfolding get
  new_system-IsSound = record {
    chain = start refl;
    pool = record { keyed = λ h t e. cc };
    started = record { running = λ i w z. cc; idle = λ z. refl };
  }

  -- From the start of the program, any messages, rounds of the miner and rounds of the transaction
  -- generator, in any order in which they take the locks, keep the shared state sound if all of them
  -- return: the chain is well formed, the pool has each transaction under its hash, and a miner that runs
  -- has a start time. No action of the run makes more than 2 ^ 64 blocks or a header whose hash is the
  -- hash of another block.
  pub act_all_sound :
      (controlled : KeyPair) (actions : List Action) (s : System) (effects : List Effect)
      → all_regular controlled actions (new_system ext) ≡ true
      → act_all ext controlled actions (new_system ext) ≡ ok (s, effects)
      → IsWellFormed ext s.node.blockchain × IsKeyed ext s.node.mempool × IsStarted s.miner
  act_all_sound controlled actions s effects regular e =
      let v =
        act_all-IsSound controlled actions (new_system ext) s effects new_system-IsSound regular
          e in
      (Reachable-IsWellFormed v.chain, v.pool, v.started)
