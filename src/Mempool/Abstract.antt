-- ===== src/Mempool/Abstract.antt =====
-- src/mempool.rs: the pool up to its representation, as what is looked up in it.
use mathlib.Core.Quot.{Quot}
use mathlib.Core.List.{Permᴰ}
use f.Prelude.{
  All, subst, ◌≡◌, refl, sym, ap, ◌∙◌, Bool, true, false, ◌&&◌, some, Option, List, [], ◌∷◌, arith,
  inl, inr, Bool-cases, if◌then◌else◌,
}
use f.Crypto.Hash.{H256, h256_eq, h256_beq, h256_beq_iff}
use f.HashMap.Laws.{get-insert}
use f.Transaction.{SignedTransaction}
use f.Transaction.Signing.{hash_signed}
use f.Mempool.{Mempool, get_transaction, insert_transaction}
use f.Externals.{Externals}

-- Two pools in which the same is looked up under every hash.
abbrev pub SamePool : Mempool → Mempool → Type 0
SamePool m n = (h : H256) → get_transaction h m ≡ get_transaction h n

-- A pool without the order of its entries.
abbrev pub Pool : Type 0
Pool = Quot SamePool

abbrev pub view : Mempool → Pool
view m = Quot.mk m

module _ (ext : Externals) where
  -- Two transactions with the same hash are the same.
  abbrev Apart : SignedTransaction → SignedTransaction → Type 0
  Apart t u = hash_signed ext t ≡ hash_signed ext u → t ≡ u

  -- Among some transactions, none has the hash of another one.
  abbrev pub IsCollisionFree : List SignedTransaction → Type 0
  IsCollisionFree [] = Unit
  IsCollisionFree (t ∷ ts) = All (Apart t) ts × IsCollisionFree ts

  Apart-comm : (t u : SignedTransaction) → Apart t u → Apart u t
  Apart-comm t u apart same = sym (apart (sym same))

  All-Perm :
      (P : SignedTransaction → Type 0) (ts us : List SignedTransaction)
      → Permᴰ ts us
      → All P ts
      → All P us
  All-Perm P [] [] Permᴰ.nil all = tt
  All-Perm P (t ∷ ts) (u ∷ us) (Permᴰ.cons e d) all = (subst P e all.0, All-Perm P ts us d all.1)
  All-Perm P (a ∷ b ∷ l) (a' ∷ b' ∷ l') (Permᴰ.swap e e') all =
      (subst P e' all.1.0, (subst P e all.0, all.1.1))
  All-Perm P ts us (Permᴰ.trans {l₂ = mid} d d') all =
      All-Perm P mid us d' (All-Perm P ts mid d all)

  IsCollisionFree-Perm :
      (ts us : List SignedTransaction) → Permᴰ ts us → IsCollisionFree ts → IsCollisionFree us
  IsCollisionFree-Perm [] [] Permᴰ.nil free = tt
  IsCollisionFree-Perm (t ∷ ts) (u ∷ us) (Permᴰ.cons e d) free = (
    subst (λ (x : SignedTransaction). All (Apart x) us) e (All-Perm (Apart t) ts us d free.0),
    IsCollisionFree-Perm ts us d free.1,
  )
  IsCollisionFree-Perm (a ∷ b ∷ l) (a' ∷ b' ∷ l') (Permᴰ.swap e e') free = (
    (
      subst (λ (x : SignedTransaction). Apart x b') e'
          (subst (Apart b) e (Apart-comm a b free.0.0)),
      subst (λ (x : SignedTransaction). All (Apart x) l) e' free.1.0,
    ),
    (subst (λ (x : SignedTransaction). All (Apart x) l) e free.0.1, free.1.1),
  )
  IsCollisionFree-Perm ts us (Permᴰ.trans {l₂ = mid} d d') free =
      IsCollisionFree-Perm mid us d' (IsCollisionFree-Perm ts mid d free)

  get-insert_transaction :
      (t : SignedTransaction) (m : Mempool) (h : H256)
      → get_transaction h (insert_transaction ext t m)
        ≡ (if h256_beq (hash_signed ext t) h then some t else get_transaction h m)
  unfolding get_transaction insert_transaction
  get-insert_transaction t m h = get-insert (hash_signed ext t) h t m.hash_to_transaction

  -- A pool that takes a transaction or leaves it.
  abbrev pub offer : Bool → SignedTransaction → Mempool → Mempool
  offer true t m = insert_transaction ext t m
  offer false t m = m

  get-offer :
      (b : Bool) (t : SignedTransaction) (m : Mempool) (h : H256)
      → get_transaction h (offer b t m)
        ≡ (if b && h256_beq (hash_signed ext t) h then some t else get_transaction h m)
  get-offer true t m h = get-insert_transaction t m h
  get-offer false t m h = refl

  offer-SamePool :
      (b : Bool) (t : SignedTransaction) (m n : Mempool)
      → SamePool m n
      → SamePool (offer b t m) (offer b t n)
  offer-SamePool b t m n same h = ground (arith, get-offer b t m h, get-offer b t n h, same h)

  -- The order of two offers does not matter.
  offer_comm :
      (b c : Bool) (t u : SignedTransaction) (m : Mempool)
      → (hash_signed ext t ≡ hash_signed ext u → t ≡ u)
      → SamePool (offer b t (offer c u m)) (offer c u (offer b t m))
  offer_comm b c t u m apart h =
      get-offer b t (offer c u m) h
      ∙ ap
          (λ (x : Option SignedTransaction).
            if b && h256_beq (hash_signed ext t) h then some t else x)
          (get-offer c u m h)
      ∙ exchanged
      ∙ sym (
          get-offer c u (offer b t m) h
          ∙ ap
              (λ (x : Option SignedTransaction).
                if c && h256_beq (hash_signed ext u) h then some u else x)
              (get-offer b t m h))
    where
      exchanged :
          (if b && h256_beq (hash_signed ext t) h
            then some t
            else if c && h256_beq (hash_signed ext u) h
            then some u
            else get_transaction h m)
          ≡ (if c && h256_beq (hash_signed ext u) h
              then some u
              else if b && h256_beq (hash_signed ext t) h
              then some t
              else get_transaction h m)
      exchanged = elim (Bool-cases (b && h256_beq (hash_signed ext t) h)) [
        | inr other ↦ rw other refl
        | inl at_t ↦ elim (Bool-cases (c && h256_beq (hash_signed ext u) h)) [
          | inr other ↦ rw (at_t, other) refl
          | inl at_u ↦
              let to_t : hash_signed ext t ≡ h =
                (h256_beq_iff (hash_signed ext t) h).0 (ground arith) in
              let to_u : hash_signed ext u ≡ h =
                (h256_beq_iff (hash_signed ext u) h).0 (ground arith) in
              rw (at_t, at_u) (ap some (apart (to_t ∙ sym to_u)))
        ]
      ]

  -- A test decides which of several transactions are taken.
  abbrev pub offer_all : (SignedTransaction → Bool) → List SignedTransaction → Mempool → Mempool
  offer_all p [] m = m
  offer_all p (t ∷ ts) m = offer_all p ts (offer (p t) t m)

  offer_all-SamePool :
      (p : SignedTransaction → Bool) (ts : List SignedTransaction) (m n : Mempool)
      → SamePool m n
      → SamePool (offer_all p ts m) (offer_all p ts n)
  offer_all-SamePool p [] m n same = same
  offer_all-SamePool p (t ∷ ts) m n same =
      offer_all-SamePool p ts _ _ (offer-SamePool (p t) t m n same)

  -- Nor does the order of all of them, if no two have the same hash.
  pub offer_all-Perm :
      (p : SignedTransaction → Bool) (ts us : List SignedTransaction) (m : Mempool)
      → Permᴰ ts us
      → IsCollisionFree ts
      → SamePool (offer_all p ts m) (offer_all p us m)
  offer_all-Perm p [] [] m Permᴰ.nil apart h = refl
  offer_all-Perm p (t ∷ ts) (u ∷ us) m (Permᴰ.cons e d) apart h =
      offer_all-Perm p ts us (offer (p t) t m) d apart.1 h
      ∙ ap (λ (x : SignedTransaction). get_transaction h (offer_all p us (offer (p x) x m))) e
  offer_all-Perm p (a ∷ b ∷ l) (a' ∷ b' ∷ l') m (Permᴰ.swap e e') apart h =
      offer_all-SamePool p l _ _ (offer_comm (p b) (p a) b a m (Apart-comm a b apart.0.0)) h
      ∙ ap
          (λ (x : SignedTransaction).
            get_transaction h (offer_all p l (offer (p x) x (offer (p b) b m))))
          e
      ∙ ap
          (λ (x : SignedTransaction).
            get_transaction h (offer_all p l (offer (p b') b' (offer (p x) x m))))
          e'
  offer_all-Perm p ts us m (Permᴰ.trans {l₂ = mid} d d') apart h =
      offer_all-Perm p ts mid m d apart h
      ∙ offer_all-Perm p mid us m d' (IsCollisionFree-Perm ts mid d apart) h
