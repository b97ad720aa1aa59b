-- ===== src/Network/Worker/Blocks.antt =====
-- src/network/worker.rs, Blocks: the branches of the loop over received blocks.
use f.Prelude.{
  ◌∙◌, Result, >>=-of-ok, ℕ, suc, ◌≤◌, ◌<◌, ◌^◌, ◌≡◌, ◌≢◌, refl, sym, ap, subst, Bool, true, false,
  List, [], ◌∷◌, ◌++◌, arith, length, ok, panic, out_of_fuel, >>=-eq-ok, >>=-ne-out_of_fuel,
  sub_word-ne-out_of_fuel, sub_word-panics, ok-injective, sub_word, Bool-cases, inl, inr,
}
use f.Crypto.Hash.{H256, h256_eq}
use f.HashMap.{or_insert}
use f.Block.{Block}
use f.Block.Hashing.{hash_block}
use f.Blockchain.{
  Blockchain, received, for_each, contains_block, pow_validity_check, parent_check,
  add_to_orphan_buffer, insert_recursively,
}
use f.Blockchain.Loops.{for_each_keeps, for_each-ne-out_of_fuel}
use f.Blockchain.Fuel.{insert_recursively_fuel}
use f.Blockchain.Reach.{Reachable, adopt, buffer, note_origin}
use f.Blockchain.Recursive.{insert_recursively_adds}
use f.Network.Message.{blocks, transactions}
use f.Network.Worker.{Node, Effect, write, Adoption, on_block, on_blocks, on_message}
use f.Externals.{Externals}

clash : {b : Bool} → b ≡ false → b ≡ true → ⊥
clash e h = cc

module _ (ext : Externals) (now : ℕ) (block : Block) where
  -- The chain after the origin of the block has been noted.
  unfoldable pub noted : Adoption → ℕ → Blockchain
  noted s delay = record s.blockchain {
    hash_to_origin = or_insert (hash_block ext block) (received delay) s.blockchain.hash_to_origin;
  }

  -- The ways in which the loop's body ends.
  pub data Handled (s s' : Adoption) : Type 0 where
    skipped : (delay : ℕ) → s' ≡ record s { blockchain = noted s delay } → Handled s s'
    orphaned :
        (delay : ℕ)
        → pow_validity_check ext block (noted s delay) ≡ true
        → parent_check block (noted s delay) ≡ false
        → s' ≡ record s {
          blockchain = add_to_orphan_buffer block (noted s delay);
          missing_hashes = s.missing_hashes ++ block.header.parent ∷ [];
        }
        → Handled s s'
    adopted :
        (delay : ℕ) (c' : Blockchain) (relay : List H256)
        → pow_validity_check ext block (noted s delay) ≡ true
        → parent_check block (noted s delay) ≡ true
        → insert_recursively ext
            (suc (length (noted s delay).orphan_buffer))
            block
            (noted s delay, s.relay_hashes)
          ≡ ok (c', relay)
        → s' ≡ record s {
          blockchain = c';
          relay_hashes = relay;
          effects = s.effects ++ write (transactions block.content.transactions) ∷ [];
        }
        → Handled s s'

  pub on_block-Handled : (s s' : Adoption) → on_block ext now block s ≡ ok s' → Handled s s'
  unfolding on_block noted
  on_block-Handled s s' e =
      let (delay, _, k) =
        >>=-eq-ok (sub_word ext.overflow_checks 128 now block.header.timestamp) _ e in
      elim (Bool-cases (contains_block (hash_block ext block) (noted s delay))) [
        | inl old ↦ skipped delay (sym (ok-injective (rw old at k)))
        | inr new_block ↦ elim (Bool-cases (pow_validity_check ext block (noted s delay))) [
          | inr weak ↦ skipped delay (sym (ok-injective (rw (new_block, weak) at k)))
          | inl strong ↦ elim (Bool-cases (parent_check block (noted s delay))) [
            | inr lost ↦
                orphaned delay strong lost (sym (ok-injective (rw (new_block, strong, lost) at k)))
            | inl found ↦
                let k' = rw (new_block, strong, found) at (k) in
                let (r, ran, done) =
                  >>=-eq-ok
                    (insert_recursively ext (suc (length (noted s delay).orphan_buffer)) block
                      (noted s delay, s.relay_hashes))
                    _ k' in
                adopted delay r.0 r.1 strong found ran (sym (ok-injective done))
          ]
        ]
      ]

  -- A block that fails the proof-of-work check changes nothing but the table of origins: no block is
  -- added or buffered, the tip stays, and nothing is relayed, requested or sent.
  pub on_block_weak :
      (s s' : Adoption)
      → pow_validity_check ext block s.blockchain ≡ false
      → on_block ext now block s ≡ ok s'
      → (delay : ℕ) × (s' ≡ record s {
        blockchain = record s.blockchain {
          hash_to_origin =
              or_insert (hash_block ext block) (received delay) s.blockchain.hash_to_origin;
        };
      })
  unfolding pow_validity_check noted
  on_block_weak s s' weak e = go (on_block-Handled s s' e)
    where
      go :
          Handled s s'
          → (delay : ℕ) × (s' ≡ record s {
            blockchain = record s.blockchain {
              hash_to_origin =
                  or_insert (hash_block ext block) (received delay) s.blockchain.hash_to_origin;
            };
          })
      go (skipped delay r) = (delay, r)
      go (orphaned delay strong lost r) = absurd (clash weak strong)
      go (adopted delay c' relay strong found ran r) = absurd (clash weak strong)

module _ (ext : Externals) (now : ℕ) where
  -- The loop stays among the reachable chains, as long as these have at most 2 ^ 64 blocks.
  abbrev IsSound : Adoption → Type 0
  IsSound s = length s.blockchain.hash_to_block ≤ 2 ^ 64 → Reachable ext s.blockchain

  Handled-IsSound : (b : Block) (s s' : Adoption) → IsSound s → Handled ext now b s s' → IsSound s'
  unfolding noted add_to_orphan_buffer
  Handled-IsSound b s s' p (skipped delay r) =
      subst IsSound (sym r) (λ room. note_origin _ (p room) refl)
  Handled-IsSound b s s' p (orphaned delay strong lost r) =
      subst IsSound (sym r) (λ room. buffer b (note_origin _ (p room) refl) refl)
  Handled-IsSound b s s' p (adopted delay c' relay strong found ran r) =
      subst IsSound (sym r) λ room.
        let (extra, _, _, _, size) =
          insert_recursively_adds ext (suc (length s.blockchain.orphan_buffer)) b
            (noted ext now b s delay) c' s.relay_hashes relay ran in
        adopt _ b s.relay_hashes relay (note_origin _ (p (omega arith)) refl) ran room

  on_block-IsSound :
      (b : Block) (s s' : Adoption) → IsSound s → on_block ext now b s ≡ ok s' → IsSound s'
  on_block-IsSound b s s' p e = Handled-IsSound b s s' p (on_block-Handled ext now b s s' e)

  -- Received blocks keep the chain reachable, if the handler returns and the chain then has at most
  -- 2 ^ 64 blocks; the pool stays.
  pub on_blocks-Reachable :
      (bs : List Block) (node node' : Node) (effects : List Effect)
      → Reachable ext node.blockchain
      → on_blocks ext now bs node ≡ ok (node', effects)
      → length node'.blockchain.hash_to_block ≤ 2 ^ 64
      → Reachable ext node'.blockchain × (node'.mempool ≡ node.mempool)
  unfolding on_blocks
  on_blocks-Reachable bs node node' effects r e room =
      let s₀ : Adoption = record {
        blockchain = node.blockchain;
        relay_hashes = [];
        missing_hashes = [];
        effects = [];
      } in
      let (s, ran, k) = >>=-eq-ok (for_each (on_block ext now) bs s₀) _ e in
      let p = for_each_keeps IsSound (on_block ext now) on_block-IsSound bs s₀ s (λ _. r) ran in
      let same = ap (λ (x : Node × List Effect). x.0) (ok-injective k) in
      (
        subst
            (λ (x : Node). length x.blockchain.hash_to_block ≤ 2 ^ 64 → Reachable ext x.blockchain)
            same p room,
        ap (λ (x : Node). x.mempool) (sym same),
      )

  on_block-ne-out_of_fuel : (b : Block) (s : Adoption) → on_block ext now b s ≢ out_of_fuel
  unfolding on_block noted
  on_block-ne-out_of_fuel b s =
      >>=-ne-out_of_fuel (sub_word ext.overflow_checks 128 now b.header.timestamp) _
        (sub_word-ne-out_of_fuel ext.overflow_checks 128 now b.header.timestamp)
        (λ delay _.
          let returns =
            >>=-ne-out_of_fuel
              (insert_recursively ext (suc (length s.blockchain.orphan_buffer)) b
                (noted ext now b s delay, s.relay_hashes))
              (λ r. ok (record s {
                blockchain = r.0;
                relay_hashes = r.1;
                effects = s.effects ++ write (transactions b.content.transactions) ∷ [];
              }))
              (insert_recursively_fuel ext (suc (length s.blockchain.orphan_buffer)) b
                (noted ext now b s delay) s.relay_hashes (omega arith))
              (λ r _ e. cc) in
          elim (Bool-cases (contains_block (hash_block ext b) (noted ext now b s delay))) [
            | inl old ↦ rw old (λ w. cc)
            | inr new_block ↦
                elim (Bool-cases (pow_validity_check ext b (noted ext now b s delay))) [
                  | inr weak ↦ rw (new_block, weak) (λ w. cc)
                  | inl strong ↦ elim (Bool-cases (parent_check b (noted ext now b s delay))) [
                    | inr lost ↦ rw (new_block, strong, lost) (λ w. cc)
                    | inl found ↦ rw (new_block, strong, found) returns
                  ]
                ]
          ])

  -- The fuel that the handler gives to the insertion of each block, one more than the lists of the
  -- orphan buffer, is enough for any list of blocks.
  pub on_blocks_fuel : (bs : List Block) (node : Node) → on_blocks ext now bs node ≢ out_of_fuel
  unfolding on_blocks
  on_blocks_fuel bs node =
      >>=-ne-out_of_fuel _ _
        (for_each-ne-out_of_fuel (on_block ext now) on_block-ne-out_of_fuel bs _) (λ s _ e. cc)

  for_each-late :
      (before : List Block) (b : Block) (after : List Block) (s : Adoption)
      → ext.overflow_checks ≡ true
      → now < b.header.timestamp
      → for_each (on_block ext now) (before ++ b ∷ after) s ≡ panic
  unfolding for_each
  for_each-late [] b after s checked late =
      unfold on_block in rw checked (rw (sub_word-panics 128 now b.header.timestamp late) refl)
  for_each-late (a ∷ before) b after s checked late =
      handled (λ s'. for_each-late before b after s' checked late) (on_block ext now a s) refl
    where
      handled :
          ((s' : Adoption) → for_each (on_block ext now) (before ++ b ∷ after) s' ≡ panic)
          → (r : Result Adoption) → on_block ext now a s ≡ r
          → for_each (on_block ext now) (a ∷ before ++ b ∷ after) s ≡ panic
      handled rest (ok s') e = >>=-of-ok (on_block ext now a s) _ e ∙ rest s'
      handled rest panic e = rw e refl
      handled rest out_of_fuel e = absurd (on_block-ne-out_of_fuel a s e)

  -- In a build that checks arithmetic for overflow, a message of blocks makes the worker panic if the
  -- timestamp of any of its blocks is later than the clock, whatever that block and the others hold, also
  -- after the blocks before it have been adopted, and whatever the chain and the pool are.
  pub on_blocks_late :
      (before : List Block) (b : Block) (after : List Block) (node : Node)
      → ext.overflow_checks ≡ true
      → now < b.header.timestamp
      → on_message ext now (blocks (before ++ b ∷ after)) node ≡ panic
  unfolding on_message on_blocks
  on_blocks_late before b after node checked late =
      rw
        (for_each-late before b after
          (record {
            blockchain = node.blockchain;
            relay_hashes = [];
            missing_hashes = [];
            effects = [];
          })
          checked late)
        refl
