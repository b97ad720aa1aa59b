-- ===== src/Blockchain/States.antt =====
-- src/blockchain.rs: the states of unspent outputs, after a transaction and of the genesis block.
use f.Prelude.{
  ℕ, zero, suc, ◌+◌, ◌%◌, ◌<◌, ◌^◌, ◌≡◌, refl, ap, Bool, false, ◌||◌, ◌&&◌, Option, some, none,
  List, [], ◌∷◌, arith, length, if◌then◌else◌, ◌==◌, ok, add_word-fits, get_elem?, replicate,
  nat_beq, ltb, leb,
}
use f.Crypto.Hash.{H256, h256_eq, h256_beq, h256_beq_iff}
use f.HashMap.{get, insert, remove}
use f.HashMap.Laws.{get-insert, get-remove}
use f.Transaction.{
  TransactionInput, TransactionOutput, SignedTransaction, State, input_eq, input_beq_iff,
}
use f.Transaction.Signing.{hash_transaction}
use f.Address.{from_pubkey}
use f.Blockchain.{
  remove_inputs, insert_outputs, process_one_transaction, controlled_keypair, initial_outputs,
  genesis_state, repeated,
}
use f.Externals.{Externals, KeyPair}

-- `inputs.contains(&k)`
pub spends : TransactionInput → List TransactionInput → Bool
spends k [] = false
spends k (i ∷ is) = i == k || spends k is

get-remove_inputs :
    (k : TransactionInput) (is : List TransactionInput) (s : State)
    → get k (remove_inputs is s) ≡ (if spends k is then none else get k s)
unfolding remove_inputs spends
get-remove_inputs k [] s = refl
get-remove_inputs k (i ∷ is) s =
    ground (arith, get-remove_inputs k is (remove i s), get-remove i k s)

-- The output that a transaction numbers `n`, if its first output has the number `first`.
pub output_at : ℕ → ℕ → List TransactionOutput → Option TransactionOutput
output_at first n [] = none
output_at first n (o ∷ os) = if nat_beq first n then some o else output_at (first + 1) n os

pub or_else : Option TransactionOutput → Option TransactionOutput → Option TransactionOutput
or_else (some o) other = some o
or_else none other = other

output_at_before :
    (first n : ℕ) (os : List TransactionOutput) → n < first → output_at first n os ≡ none
unfolding output_at
output_at_before first n [] h = refl
output_at_before first n (o ∷ os) h = ground (arith, output_at_before (first + 1) n os)

abbrev created : H256 → ℕ → TransactionInput → List TransactionOutput → Option TransactionOutput
created tx first k os = if h256_beq tx k.prev_tx then output_at first k.txid os else none

module _ (ext : Externals) where
  insert_outputs-get :
      (tx : H256) (first : ℕ) (os : List TransactionOutput) (s : State)
      → first + length os < 2 ^ 32
      → (s' : State) × (insert_outputs ext tx first os s ≡ ok s')
        × ((k : TransactionInput) → get k s' ≡ or_else (created tx first k os) (get k s))
  unfolding insert_outputs or_else output_at
  insert_outputs-get tx first [] s h = (s, refl, λ k. ground arith)
  insert_outputs-get tx first (o ∷ os) s h =
      let i : TransactionInput = record { txid = first; prev_tx = tx } in
      let (s', e, g) = insert_outputs-get tx (first + 1) os (insert i o s) (omega arith) in
      (
        s',
        rw (add_word-fits ext.overflow_checks 32 first 1 (omega arith)) e,
        λ k. ground (
          arith,
          g k,
          get-insert i k o s,
          input_beq_iff i k,
          h256_beq_iff tx k.prev_tx,
          output_at_before (first + 1) k.txid os,
        ),
      )

  output_at-get_elem? :
      (first n : ℕ) (os : List TransactionOutput) → output_at first (first + n) os ≡ get_elem? os n
  unfolding output_at
  output_at-get_elem? first n [] = refl
  output_at-get_elem? first zero (o ∷ os) = ground arith
  output_at-get_elem? first (suc n) (o ∷ os) =
      let shifted : first + suc n ≡ first + 1 + n = omega arith in
      rw shifted (ground (arith, output_at-get_elem? (first + 1) n os))

  output_at_zero : (n : ℕ) (os : List TransactionOutput) → output_at 0 n os ≡ get_elem? os n
  output_at_zero n os =
      let zero_add : 0 + n ≡ n = omega arith in rw zero_add at (output_at-get_elem? 0 n os)

  -- A transaction with fewer than 2 ^ 32 outputs is processed without a panic. Afterwards the
  -- output number n of the transaction stands under its hash and n; what it spends is gone, unless
  -- it stands there anew; and every other entry is as before.
  pub process_one_transaction_effect :
      (t : SignedTransaction) (s : State)
      → length t.raw.outputs < 2 ^ 32
      → (s' : State) × (process_one_transaction ext t s ≡ ok s')
        × ((k : TransactionInput)
            → get k s'
              ≡ or_else
                  (if h256_beq (hash_transaction ext t.raw) k.prev_tx
                    then get_elem? t.raw.outputs k.txid
                    else none)
                  (if spends k t.raw.inputs then none else get k s))
  unfolding process_one_transaction
  process_one_transaction_effect t s h =
      let tx = hash_transaction ext t.raw in
      let (s', e, g) =
        insert_outputs-get tx 0 t.raw.outputs (remove_inputs t.raw.inputs s) (omega arith) in
      (
        s',
        e,
        λ k. rw (← output_at_zero k.txid t.raw.outputs, ← get-remove_inputs k t.raw.inputs s) (g k),
      )

  -- The initial output number `count`: its owner's seed repeats 0, 100 or 200 by `count` modulo 3.
  initial_seed : ℕ → ℕ
  initial_seed count =
      if nat_beq (count % 3) 0 then 0 else if nat_beq (count % 3) 1 then 100 else 200

  pub initial_output : ℕ → TransactionOutput
  unfolding initial_seed
  initial_output count = record {
    recipient =
        from_pubkey ext.sha256 (ext.from_seed (replicate 32 (initial_seed count))).public_key;
    value = repeated 10;
  }

  owner-eq :
      (count : ℕ) (key : KeyPair)
      → controlled_keypair ext count key ≡ ext.from_seed (replicate 32 (initial_seed count))
  unfolding controlled_keypair initial_seed
  owner-eq count key = ground arith

  initial_outputs-get :
      (fuel count : ℕ) (key : KeyPair) (s : State) (k : TransactionInput)
      → count + fuel ≡ 14
      → get k (initial_outputs ext fuel count key s) ≡ (
          if h256_beq (repeated 50) k.prev_tx && (leb count k.txid && ltb k.txid 13)
          then some (initial_output k.txid)
          else get k s)
  unfolding initial_outputs
  initial_outputs-get zero count key s k h = ground arith
  initial_outputs-get (suc fuel) count key s k h =
      let i : TransactionInput = record { txid = count; prev_tx = repeated 50 } in
      let key' = controlled_keypair ext count key in
      let o : TransactionOutput = record {
        recipient = from_pubkey ext.sha256 key'.public_key;
        value = repeated 10;
      } in
      let o-eq : o ≡ initial_output count =
        unfold initial_output in
        ap
          (λ (x : KeyPair). record {
            recipient = from_pubkey ext.sha256 x.public_key;
            value = repeated 10;
          })
          (owner-eq count key) in
      ground (
        arith,
        o-eq,
        initial_outputs-get fuel (count + 1) key' (insert i o s) k,
        get-insert i k o s,
        input_beq_iff i k,
        h256_beq_iff (repeated 50) k.prev_tx,
      )

  -- The genesis state holds exactly the outputs numbered 1 to 12 of the made-up transaction hash
  -- that repeats 50, each owned by one of the three preset keys in turn.
  pub genesis_state_outputs :
      (k : TransactionInput)
      → get k (genesis_state ext) ≡ (
          if h256_beq (repeated 50) k.prev_tx && (leb 1 k.txid && ltb k.txid 13)
          then some (initial_output k.txid)
          else none)
  unfolding genesis_state get
  genesis_state_outputs k = initial_outputs-get 13 1 (ext.from_seed (replicate 32 0)) [] k refl
