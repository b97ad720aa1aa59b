-- ===== src/Miner/Collect.antt =====
-- src/miner.rs: the loop that fills a block with transactions of the pool.
use f.Prelude.{
  ℕ, zero, suc, ◌+◌, ◌≤◌, ◌<◌, ◌≡◌, ◌⊎◌, inl, inr, refl, sym, ap, ◌∙◌, Option, none, some, List, [],
  ◌∷◌, ◌++◌, map, arith, length, length-append, ltb, if◌then◌else◌, Result, ok, Bool-cases, All,
}
use mathlib.Core.List.{append-nil, append_assoc}
use f.Crypto.Hash.{H256, h256_eq, h256_beq}
use f.Transaction.{SignedTransaction}
use f.Transaction.Signing.{hash_signed}
use f.Blockchain.Recursive.{elem}
use f.Mempool.{Mempool, get_transaction}
use f.Mempool.Pop.{IsKeyed, pop_effect}
use f.Miner.{collect}
use f.Externals.{Externals}

module _ (ext : Externals) where
  -- What `collect` returns for the transactions `acc` and the pool `m`.
  pub record Collected (acc : List SignedTransaction) (m : Mempool)
      (r : List SignedTransaction × Mempool) : Type 0 where
    pub popped : List SignedTransaction
    pub extends : r.0 ≡ acc ++ popped
    pub small : length r.0 ≤ 20
    pub stops : (length r.0 ≡ 20) ⊎ (r.1.hash_to_transaction ≡ [])
    pub left :
        (h : H256)
        → get_transaction h r.1
          ≡ (if elem h (map (hash_signed ext) popped) then none else get_transaction h m)
    pub from_pool : All (λ t. get_transaction (hash_signed ext t) m ≡ some t) popped
    pub keyed : IsKeyed ext r.1

  weaken :
      (m m' : Mempool) (t : SignedTransaction) (ts : List SignedTransaction)
      → ((h : H256)
          → get_transaction h m'
            ≡ (if h256_beq (hash_signed ext t) h then none else get_transaction h m))
      → All (λ u. get_transaction (hash_signed ext u) m' ≡ some u) ts
      → All (λ u. get_transaction (hash_signed ext u) m ≡ some u) ts
  weaken m m' t [] h a = tt
  weaken m m' t (u ∷ ts) h a = (ground (arith, h (hash_signed ext u), a.0), weaken m m' t ts h a.1)

  nothing_popped :
      (acc : List SignedTransaction) (m : Mempool)
      → IsKeyed ext m
      → length acc ≤ 20
      → (length acc ≡ 20) ⊎ (m.hash_to_transaction ≡ [])
      → Collected acc m (acc, m)
  unfolding elem
  nothing_popped acc m v small stops = record {
    popped = [];
    extends = sym (append-nil acc);
    small = small;
    stops = stops;
    left = λ h. refl;
    from_pool = tt;
    keyed = v;
  }

  -- A round of the loop after `pop`.
  go_on :
      (ℕ → ℕ)
      → ℕ
      → List SignedTransaction
      → Option SignedTransaction × Mempool
      → Result (List SignedTransaction × Mempool)
  unfolding collect
  go_on choices fuel acc p = elim p.0 [
    | none ↦ ok (acc, p.1)
    | some t ↦ collect choices fuel (acc ++ t ∷ []) p.1
  ]

  -- The loop that fills a block, from at most 20 transactions and with fuel for the rest, returns: it
  -- appends transactions of the pool, each under its hash there, until there are 20 or the pool is
  -- empty, and exactly the hashes of the appended ones leave the pool.
  pub collect_effect :
      (choices : ℕ → ℕ) (fuel : ℕ) (acc : List SignedTransaction) (m : Mempool)
      → IsKeyed ext m
      → length acc ≤ 20
      → 20 < length acc + fuel
      → (r : List SignedTransaction × Mempool) × (collect choices fuel acc m ≡ ok r)
        × Collected acc m r
  unfolding collect go_on elem
  collect_effect choices zero acc m v small room = absurd (omega arith)
  collect_effect choices (suc fuel) acc m v small room = elim (Bool-cases (ltb (length acc) 20)) [
    | inr full ↦ ((acc, m), rw full, nothing_popped acc m v small (inl (ground arith)))
    | inl below ↦ elim (pop_effect ext (choices fuel) m v) [
      | inl (empty, nothing) ↦ (
        (acc, m),
        rw below (ap (go_on choices fuel acc) nothing),
        nothing_popped acc m v small (inr empty),
      )
      | inr (t, m', took, known, rest, smaller, v') ↦
          let (r, ran, c) =
            collect_effect choices fuel (acc ++ t ∷ []) m' v'
              (ground (arith, length-append acc (t ∷ [])))
              (omega (arith, length-append acc (t ∷ []))) in
          (
            r,
            rw below (ap (go_on choices fuel acc) took ∙ ran),
            record {
              popped = t ∷ c.popped;
              extends = c.extends ∙ append_assoc acc (t ∷ []) c.popped;
              small = c.small;
              stops = c.stops;
              left = λ h. ground (arith, c.left h, rest h);
              from_pool = (known, weaken m m' t c.popped rest c.from_pool);
              keyed = c.keyed;
            },
          )
    ]
  ]
