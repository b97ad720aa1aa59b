-- ===== src/Tests/Miner.antt =====
-- The miner on concrete data.
use f.Prelude.{
  ℕ, suc, ◌+◌, ◌≤◌, ◌<◌, ◌^◌, ◌≡◌, ◌≢◌, ◌⊎◌, refl, sym, ◌∙◌, subst, Bool, true, false, some, none,
  List, [], ◌∷◌, replicate, Result, ok, panic, ok-injective, arith,
}
use f.Crypto.Hash.{H256, h256_eq}
use f.Transaction.{default_signed}
use f.Transaction.Signing.{hash_signed}
use f.Block.{Block, Header, genesis}
use f.Block.Hashing.{hash_header}
use f.Blockchain.{Blockchain, mined, new, contains_block}
use f.Mempool
use f.Mempool.{Mempool}
use f.Miner.{Context, run, mine_round}
use f.Miner.Collect.{Collected}
use f.Miner.Round.{Round, mine_round_lem}
use f.Network.Message.{new_block_hashes}
use f.Network.Worker.{Node, Effect, broadcast}
use f.Tests.{toy, genesis_hash, child_hash, grown}
use f.Tests.Pool.{payment, pool, pool-IsKeyed}

abbrev node : Node
node = record { blockchain = new toy; mempool = pool }

abbrev ctx : Context
ctx = record { operating_state = run 0; total_blocks_mined = 0; start_time = some 1 }

abbrev header : Header
header = record {
  parent = genesis_hash;
  nonce = 0;
  difficulty = record { bytes = 1 ∷ replicate 31 0 };
  timestamp = 9;
  merkle_root = record { bytes = 0 ∷ 0 ∷ [] };
}

abbrev mined_block : Block
mined_block = record {
  header = header;
  content = record { transactions = default_signed ∷ payment ∷ [] };
}

-- What the round at time 9 with the nonce 0 leads to.
abbrev mined_result : Context × (Node × List Effect)
mined_result = (
  record ctx { total_blocks_mined = 1 },
  (
    record {
      blockchain = record grown {
        hash_to_block = (genesis_hash, genesis) ∷ (child_hash, mined_block) ∷ [];
        hash_to_origin = (child_hash, mined) ∷ [];
      };
      mempool = Mempool.new;
    },
    broadcast (new_block_hashes (child_hash ∷ [])) ∷ [],
  ),
)

mined_round : mine_round toy 9 0 (λ n. n) ctx node ≡ ok mined_result
unfolding new mine_round f.HashMap.get f.Crypto.Hash.h256_beq f.Prelude.bytes_beq
    f.Block.Hashing.hash_block f.Crypto.Merkle.new Mempool.pop f.HashMap.remove
    f.Crypto.Hash.h256_le f.Crypto.Hash.cmp f.Prelude.add_word f.HashMap.insert
    f.Blockchain.process_all_transactions f.Crypto.Merkle.root hash_signed
mined_round = refl

mine_round_lem_example :
    (block : Block) × (left : Mempool) × (block.header.parent ≡ (new toy).tip)
    × (block.header.merkle_root ≡ hash_signed toy default_signed)
    × Collected toy (default_signed ∷ []) pool (block.content.transactions, left)
    × Round toy ctx (new toy) block left mined_result
mine_round_lem_example =
    mine_round_lem toy 9 0 (λ n. n) ctx node mined_result pool-IsKeyed mined_round
