-- ===== src/Generator/Round.antt =====
-- src/transaction_generator.rs: what a generated transaction spends, and who accepts it.
use f.Prelude.{
  ◌≡◌, ◌≢◌, refl, true, false, some, List, [], ◌∷◌, map, filter, All, ◌==◌, ok, Bool-cases, inl,
  inr, arith, ◌<◌, length,
}
use f.Address.{from_pubkey, h160_eq, h160_beq_iff}
use f.HashMap.{get}
use f.Transaction.{TransactionInput, TransactionOutput, SignedTransaction, State, input_eq}
use f.Transaction.Signing.{hash_signed, from_raw, verify_signature, verify_signature-from_raw}
use f.Blockchain.Reads.{get_state}
use f.Mempool.{insert_transaction}
use f.Network.Message.{new_transaction_hashes}
use f.Network.Worker.{Node, broadcast, check_inputs}
use f.Network.Worker.Transactions.{is_valid}
use f.Generator.{Entry, is_owned, generated, generation_round}
use f.Externals.{Externals, KeyPair, IsKeyPair}

module _ (ext : Externals) (controlled random : KeyPair) (iter : State → List Entry) where
  owned_outputs :
      (s : State) (es : List Entry)
      → All (λ (e : Entry). get e.0 s ≡ some e.1) es
      → (map
            (λ i. get i s)
            (map (λ (e : Entry). e.0) (filter (is_owned ext controlled random iter) es))
          ≡ map
              (λ o. some o)
              (map (λ (e : Entry). e.1) (filter (is_owned ext controlled random iter) es)))
        × All
            (λ o. o.recipient ≡ from_pubkey ext.sha256 controlled.public_key)
            (map (λ (e : Entry). e.1) (filter (is_owned ext controlled random iter) es))
  unfolding is_owned filter
  owned_outputs s [] h = (refl, tt)
  owned_outputs s (e ∷ es) h =
      let (spent, owned) = owned_outputs s es h.1 in
      elim (Bool-cases (e.1.recipient == from_pubkey ext.sha256 controlled.public_key)) [
        | inl mine ↦ (rw (mine, h.0, spent), rw mine ((h160_beq_iff _ _).0 mine, owned))
        | inr other ↦ (rw (other, spent), rw other owned)
      ]

  -- Where the tip has a state, of which `iter` lists entries, and the random key pair verifies its own
  -- signatures, a round returns: one transaction enters the pool and is announced. Its signature
  -- verifies, its outputs are the unspent outputs that its inputs spend, one for one, and all of them
  -- belong to the key pair of the generator.
  pub generation_round_lem :
      (node : Node) (s : State)
      → IsKeyPair ext random
      → get_state node.blockchain.tip node.blockchain ≡ ok s
      → All (λ (e : Entry). get e.0 s ≡ some e.1) (iter s)
      → (t : SignedTransaction) × (generation_round ext controlled random iter node
          ≡ ok (
            record node { mempool = insert_transaction ext t node.mempool },
            broadcast (new_transaction_hashes (hash_signed ext t ∷ [])) ∷ [],
          ))
        × (verify_signature ext t ≡ true)
        × (map (λ i. get i s) t.raw.inputs ≡ map (λ o. some o) t.raw.outputs)
        × All (λ o. o.recipient ≡ from_pubkey ext.sha256 controlled.public_key) t.raw.outputs
  unfolding generation_round generated from_raw
  generation_round_lem node s key e h =
      let (spent, owned) = owned_outputs s (iter s) h in
      (
        generated ext controlled random iter s,
        rw e,
        (verify_signature-from_raw ext _ random key).2,
        spent,
        owned,
      )

  rejected_inputs :
      (s : State) (is : List TransactionInput) (os : List TransactionOutput)
      → map (λ i. get i s) is ≡ map (λ o. some o) os
      → All (λ o. o.recipient ≡ from_pubkey ext.sha256 controlled.public_key) os
      → from_pubkey ext.sha256 controlled.public_key ≢ from_pubkey ext.sha256 random.public_key
      → 0 < length is
      → check_inputs ext s random.public_key is ≡ false
  unfolding check_inputs
  rejected_inputs s [] os e owned differ pos = absurd (omega arith)
  rejected_inputs s (i ∷ is) [] e owned differ pos = cc
  rejected_inputs s (i ∷ is) (o ∷ os) e owned differ pos =
      let at_i : get i s ≡ some o = cc in
      ground
        (arith, at_i, owned.0, h160_beq_iff o.recipient (from_pubkey ext.sha256 random.public_key))

  -- A generated transaction that spends anything is not accepted by a worker that receives it in the
  -- same state, if the addresses of the generator's key pair and of the random one differ: the random
  -- key signs it and owns none of the inputs.
  pub generated-is_valid :
      (s : State)
      → All (λ (e : Entry). get e.0 s ≡ some e.1) (iter s)
      → from_pubkey ext.sha256 controlled.public_key ≢ from_pubkey ext.sha256 random.public_key
      → 0 < length (generated ext controlled random iter s).raw.inputs
      → is_valid ext s (generated ext controlled random iter s) ≡ false
  unfolding generated from_raw is_valid
  generated-is_valid s h differ pos =
      let (spent, owned) = owned_outputs s (iter s) h in
      ground (arith, rejected_inputs s _ _ spent owned differ pos)
