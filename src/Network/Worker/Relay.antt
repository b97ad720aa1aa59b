-- ===== src/Network/Worker/Relay.antt =====
-- src/network/worker.rs: the messages with which a node gets the transactions of another one.
use f.Prelude.{
  ℕ, All, ◌≡◌, inl, inr, refl, subst, sym, ◌∙◌, Bool, true, false, not, some, List, [], ◌∷◌, map,
  filter, ok, arith, Bool-cases,
}
use f.Crypto.Hash.{h256_eq}
use f.HashMap.{is_some}
use f.HashMap.Laws.{get-insert, get-insert_self}
use f.Transaction.{SignedTransaction, State}
use f.Transaction.Signing.{hash_signed}
use f.Blockchain.Reads.{get_state}
use f.Mempool.{Mempool, get_transaction, insert_transaction}
use f.Network.Message.{new_transaction_hashes, get_transactions, transactions}
use f.Network.Worker.{
  Node, Effect, write, broadcast, unless_empty, fetch_transactions, on_new_transaction_hashes,
  on_get_transactions, on_message,
}
use f.Network.Worker.Transactions.{is_valid, insert_all, on_transactions_lem}
use f.Externals.{Externals}

module _ (ext : Externals) where
  -- A pool has a transaction under the hash of this one.
  abbrev pub has : Mempool → SignedTransaction → Bool
  has m t = is_some (get_transaction (hash_signed ext t) m)

  -- The transactions of a list that a pool lacks.
  abbrev pub lacked : Mempool → List SignedTransaction → List SignedTransaction
  lacked m ts = filter (λ t. not (has m t)) ts

  -- The messages about a list of transactions, of which an empty one is not sent.
  abbrev pub requested : List SignedTransaction → List Effect
  requested ts =
      unless_empty (map (hash_signed ext) ts) (write (get_transactions (map (hash_signed ext) ts)))

  abbrev pub answered : List SignedTransaction → List Effect
  answered ts = unless_empty ts (write (transactions ts))

  abbrev pub announced : List SignedTransaction → List Effect
  announced ts =
      unless_empty (map (hash_signed ext) ts)
        (broadcast (new_transaction_hashes (map (hash_signed ext) ts)))

  hashes-lacked :
      (m : Mempool) (ts : List SignedTransaction)
      → filter (λ h. not (is_some (get_transaction h m))) (map (hash_signed ext) ts)
        ≡ map (hash_signed ext) (lacked m ts)
  unfolding filter
  hashes-lacked m [] = refl
  hashes-lacked m (t ∷ ts) = elim (Bool-cases (has m t)) [
    | inl there ↦ rw (there, hashes-lacked m ts) refl
    | inr gone ↦ rw (gone, hashes-lacked m ts) refl
  ]

  -- Each of the transactions stands in a pool under its hash.
  abbrev pub IsPooled : Mempool → SignedTransaction → Type 0
  IsPooled m t = get_transaction (hash_signed ext t) m ≡ some t

  IsPooled-lacked :
      (p : SignedTransaction → Bool) (m : Mempool) (ts : List SignedTransaction)
      → All (IsPooled m) ts
      → All (IsPooled m) (filter p ts)
  unfolding filter
  IsPooled-lacked p m [] all = tt
  IsPooled-lacked p m (t ∷ ts) (there, all) = elim (Bool-cases (p t)) [
    | inl kept ↦ rw kept (there, IsPooled-lacked p m ts all)
    | inr dropped ↦ rw dropped (IsPooled-lacked p m ts all)
  ]

  fetch_transactions-IsPooled :
      (m : Mempool) (ts : List SignedTransaction)
      → All (IsPooled m) ts
      → fetch_transactions (map (hash_signed ext) ts) m ≡ ok ts
  unfolding fetch_transactions
  fetch_transactions-IsPooled m [] all = refl
  fetch_transactions-IsPooled m (t ∷ ts) (there, all) =
      rw (there, fetch_transactions-IsPooled m ts all) refl

  has-insert_transaction :
      (t u : SignedTransaction) (m : Mempool)
      → has m u ≡ true
      → has (insert_transaction ext t m) u ≡ true
  unfolding insert_transaction get_transaction
  has-insert_transaction t u m there =
      ground
        (arith, there, get-insert (hash_signed ext t) (hash_signed ext u) t m.hash_to_transaction)

  has-inserted : (t : SignedTransaction) (m : Mempool) → has (insert_transaction ext t m) t ≡ true
  unfolding insert_transaction get_transaction
  has-inserted t m = rw (get-insert_self (hash_signed ext t) t m.hash_to_transaction) refl

  has-insert_all :
      (ts : List SignedTransaction) (u : SignedTransaction) (m : Mempool)
      → has m u ≡ true
      → has (insert_all ext ts m) u ≡ true
  unfolding insert_all
  has-insert_all [] u m there = there
  has-insert_all (t ∷ ts) u m there =
      has-insert_all ts u (insert_transaction ext t m) (has-insert_transaction t u m there)

  -- A pool has every valid transaction of a list.
  abbrev pub Knows : State → List SignedTransaction → Mempool → Type 0
  Knows s ts m = All (λ t. is_valid ext s t ≡ true → has m t ≡ true) ts

  -- A pool into which the valid ones of the transactions that `own` lacks have been put.
  abbrev adopted : State → Mempool → List SignedTransaction → Mempool → Mempool
  adopted s own ts m = insert_all ext (filter (is_valid ext s) (lacked own ts)) m

  has-adopted :
      (s : State) (own : Mempool) (ts : List SignedTransaction) (m : Mempool)
      → ((u : SignedTransaction) → has own u ≡ true → has m u ≡ true)
      → Knows s ts (adopted s own ts m)
  unfolding filter insert_all
  has-adopted s own [] m keeps = tt
  has-adopted s own (t ∷ ts) m keeps = elim (Bool-cases (has own t)) [
    | inl known ↦
        let same : adopted s own (t ∷ ts) m ≡ adopted s own ts m = rw known refl in
        subst (Knows s (t ∷ ts)) (sym same) (
          (λ valid. has-insert_all (filter (is_valid ext s) (lacked own ts)) t m (keeps t known)),
          has-adopted s own ts m keeps,
        )
    | inr unknown ↦ elim (Bool-cases (is_valid ext s t)) [
      | inr invalid ↦
          let same : adopted s own (t ∷ ts) m ≡ adopted s own ts m = rw (unknown, invalid) refl in
          subst (Knows s (t ∷ ts)) (sym same)
            ((λ valid. absurd (differ (sym invalid ∙ valid))), has-adopted s own ts m keeps)
      | inl valid ↦
          let m' : Mempool = insert_transaction ext t m in
          let same : adopted s own (t ∷ ts) m ≡ adopted s own ts m' = rw (unknown, valid) refl in
          subst (Knows s (t ∷ ts)) (sym same) (
            (λ _. has-insert_all (filter (is_valid ext s) (lacked own ts)) t m' (has-inserted t m)),
            has-adopted s own ts m' (λ u there. has-insert_transaction t u m (keeps u there)),
          )
    ]
  ]
    where
      differ : false ≡ true → ⊥
      differ h = cc

  -- A node learns the transactions of another one by three messages. Where a peer announces transactions
  -- that all stand in its pool, the node asks it for those that its own pool lacks, in their order, and for
  -- nothing if there are none. The peer answers with exactly these transactions, without a panic, and
  -- keeps them. If the tip of the node has a state, the node then handles the answer without a panic: it
  -- puts the transactions that are valid in this state into its pool, announces these, and keeps its
  -- chain. After that its pool has every announced transaction that is valid.
  pub transactions_exchanged :
      (now : ℕ) (ts : List SignedTransaction) (asking answering : Node) (s : State)
      → All (IsPooled answering.mempool) ts
      → get_state asking.blockchain.tip asking.blockchain ≡ ok s
      → (on_message ext now (new_transaction_hashes (map (hash_signed ext) ts)) asking
          ≡ ok (asking, requested (lacked asking.mempool ts)))
        × (on_message ext now
              (get_transactions (map (hash_signed ext) (lacked asking.mempool ts)))
              answering
            ≡ ok (answering, answered (lacked asking.mempool ts)))
        × ((pool : Mempool) × (on_message ext now (transactions (lacked asking.mempool ts)) asking
              ≡ ok (
                record asking { mempool = pool },
                announced (filter (is_valid ext s) (lacked asking.mempool ts)),
              ))
            × Knows s ts pool)
  unfolding on_message on_new_transaction_hashes on_get_transactions
  transactions_exchanged now ts asking answering s pooled state = (
    rw (hashes-lacked asking.mempool ts) refl,
    rw
        (fetch_transactions-IsPooled answering.mempool (lacked asking.mempool ts)
          (IsPooled-lacked (λ t. not (has asking.mempool t)) answering.mempool ts pooled))
        refl,
    (
      insert_all ext (filter (is_valid ext s) (lacked asking.mempool ts)) asking.mempool,
      on_transactions_lem ext (lacked asking.mempool ts) asking s state,
      has-adopted s asking.mempool ts asking.mempool (λ u there. there),
    ),
  )
