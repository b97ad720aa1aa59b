-- ===== src/Mempool/Pop.antt =====
-- src/mempool.rs: what `pop` does to the pool.
use f.Prelude.{
  ℕ, zero, suc, ◌%◌, ◌<◌, ◌≡◌, refl, ap, ◌∙◌, ◌⊎◌, inl, inr, true, none, some, List, [], ◌∷◌, map,
  arith, length, length-map, get_elem?, if◌then◌else◌, beq_refl,
}
use f.Crypto.Hash.{H256, h256_eq, h256_beq, h256_beq_iff}
use f.HashMap.{HashMap, get, remove, contains_key}
use f.HashMap.Laws.{get-insert, get-remove, get-of-contains_key}
use f.HashMap.Size.{length-remove}
use f.Transaction.{SignedTransaction}
use f.Transaction.Signing.{hash_signed}
use f.Mempool.{Mempool, key_of, next_key, pop, insert_transaction, get_transaction}
use f.Externals.{Externals}

-- Every transaction stands under its hash.
pub record IsKeyed (ext : Externals) (m : Mempool) : Type 0 where
  pub keyed :
      (h : H256) (t : SignedTransaction)
      → get h m.hash_to_transaction ≡ some t
      → hash_signed ext t ≡ h

get_elem?-total {ℓ} :
    {A : Type ℓ} (xs : List A) (i : ℕ) → i < length xs → (a : A) × (get_elem? xs i ≡ some a)
get_elem?-total [] i h = absurd (omega arith)
get_elem?-total (x ∷ xs) zero h = (x, refl)
get_elem?-total (x ∷ xs) (suc i) h = get_elem?-total xs i (omega arith)

key-contains_key :
    (m : HashMap H256 SignedTransaction) (i : ℕ) (k : H256)
    → get_elem? (map key_of m) i ≡ some k
    → contains_key k m ≡ true
unfolding contains_key get
key-contains_key [] i k e = cc
key-contains_key ((j, v) ∷ m) zero k e = ground (arith, beq_refl k)
key-contains_key ((j, v) ∷ m) (suc i) k e = ground (arith, key-contains_key m i k)

next_key-total :
    (choice : ℕ) (m : HashMap H256 SignedTransaction)
    → 0 < length m
    → (k : H256) × (next_key choice m ≡ some k) × (contains_key k m ≡ true)
unfolding next_key
next_key-total choice m h =
    let (k, e) = get_elem?-total (map key_of m) (choice % length m) (rw length-map (omega arith)) in
    (k, e, key-contains_key m (choice % length m) k e)

next_key-empty : (choice : ℕ) → next_key choice [] ≡ none
unfolding next_key
next_key-empty choice = refl

empty_or_not : (m : HashMap H256 SignedTransaction) → (m ≡ []) ⊎ (0 < length m)
empty_or_not [] = inl refl
empty_or_not (x ∷ m) = inr (omega arith)

module _ (ext : Externals) where
  -- From a pool whose transactions stand under their hashes, `pop` returns, whatever the hash order:
  -- nothing exactly if the pool is empty, which it leaves so; otherwise a transaction of the pool,
  -- which is then missing, while every other hash is looked up as before, and the pool is smaller.
  pub pop_effect :
      (choice : ℕ) (m : Mempool)
      → IsKeyed ext m
      → ((m.hash_to_transaction ≡ []) × (pop choice m ≡ (none, m)))
        ⊎ ((t : SignedTransaction) × (m' : Mempool) × (pop choice m ≡ (some t, m'))
            × (get_transaction (hash_signed ext t) m ≡ some t)
            × ((h : H256)
                → get_transaction h m'
                  ≡ (if h256_beq (hash_signed ext t) h then none else get_transaction h m))
            × (length m'.hash_to_transaction < length m.hash_to_transaction)
            × IsKeyed ext m')
  unfolding pop get_transaction
  pop_effect choice m v = elim (empty_or_not m.hash_to_transaction) [
    | inl none_left ↦
        inl (none_left, rw (ap (next_key choice) none_left ∙ next_key-empty choice, pop))
    | inr some_left ↦
        let (k, e, known) = next_key-total choice m.hash_to_transaction some_left in
        let (t, at_k) = get-of-contains_key k m.hash_to_transaction known in
        let same = v.keyed k t at_k in
        inr (
          t,
          record { hash_to_transaction = remove k m.hash_to_transaction },
          rw (e, pop) (rw at_k),
          rw same at_k,
          λ h. rw same (get-remove k h m.hash_to_transaction),
          length-remove k m.hash_to_transaction known,
          record {
            keyed = λ h u at_h. v.keyed h u (ground (arith, get-remove k h m.hash_to_transaction));
          },
        )
  ]

  -- Inserting a transaction keeps every transaction under its hash.
  pub insert_transaction-IsKeyed :
      (t : SignedTransaction) (m : Mempool)
      → IsKeyed ext m
      → IsKeyed ext (insert_transaction ext t m)
  unfolding insert_transaction
  insert_transaction-IsKeyed t m v = record {
    keyed = λ h u e. ground (
      arith,
      get-insert (hash_signed ext t) h t m.hash_to_transaction,
      v.keyed h u,
      h256_beq_iff (hash_signed ext t) h,
    );
  }
