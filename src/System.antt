-- ===== src/System.antt =====
-- The threads that src/main.rs starts, on what they share: the chain and the pool, behind their locks. The
-- workers, the miner and the transaction generator hold the locks for a whole message or round, so that a
-- run is a list of these in the order in which the locks are taken.
pub mod Soundness
pub mod Runs
pub mod Fuel
pub mod Exchange
pub mod Work
pub mod Whole
use f.Prelude.{
  ℕ, suc, ◌^◌, Bool, true, false, not, List, [], ◌∷◌, ◌++◌, length, leb, ltb, ◌&&◌, if◌then◌else◌,
  Result, ok, panic, out_of_fuel, ◌>>=◌,
}
use f.Transaction.{State}
use f.Block.Hashing.{hash_header}
use f.Blockchain.{Blockchain, contains_block}
use f.Mempool.{Mempool}
use f.Network.Message.{Message}
use f.Network.Worker.{Node, Effect, on_message}
use f.Miner.{Context, new_context, Incoming, header_on_tip, loop_round}
use f.Generator.{Entry, generation_round}
use f.Externals.{Externals, KeyPair}

pub record System : Type 0 where
  pub node : Node
  pub miner : Context

-- What a thread does while it has the locks. The clock, the nonce, the order of the maps and the key pair
-- that is made for a transaction come with it.
pub data Action : Type 0 where
  receive : (now : ℕ) → Message → Action
  mine : (now nonce : ℕ) → (choices : ℕ → ℕ) → Incoming → Action
  generate : (random : KeyPair) → (iter : State → List Entry) → Action

module _ (ext : Externals) where
  -- The chain, the pool and the miner that `main` makes.
  abbrev pub new_system : System
  new_system = record {
    node = record { blockchain = f.Blockchain.new ext; mempool = f.Mempool.new };
    miner = new_context;
  }

  -- One action, for the key pair that the generator controls, and what it sends.
  unfoldable pub act : KeyPair → Action → System → Result (System × List Effect)
  unfolding on_message loop_round generation_round
  act controlled (receive now message) s = do
    (node, effects) ← on_message ext now message s.node
    ok (record s { node = node }, effects)
  act controlled (mine now nonce choices incoming) s = do
    (miner, (node, effects)) ← loop_round ext now nonce choices incoming s.miner s.node
    ok (record { node = node; miner = miner }, effects)
  act controlled (generate random iter) s = do
    (node, effects) ← generation_round ext controlled random iter s.node
    ok (record s { node = node }, effects)

  -- A run, and all that it sends.
  unfoldable pub act_all : KeyPair → List Action → System → Result (System × List Effect)
  unfolding act
  act_all controlled [] s = ok (s, [])
  act_all controlled (a ∷ as') s = do
    (s', effects) ← act controlled a s
    (end, more) ← act_all controlled as' s'
    ok (end, effects ++ more)
