-- ===== src/Blockchain/Delays.antt =====
-- src/blockchain.rs: the order of what `block_delays_ms` lists.
use mathlib.Core.List.{Perm}
use mathlib.Core.List.Perm
use f.Prelude.{ℕ, ◌≤◌, List, [], ◌∷◌, All, leb, arith, Bool-cases, inl, inr}
use f.Blockchain.{Blockchain}
use f.Blockchain.Reads.{delays, insert_sorted, sort, block_delays_ms}

-- Each delay is at most every later one.
pub Ascending : List ℕ → Type 0
Ascending [] = Unit
Ascending (a ∷ as') = All (λ b. a ≤ b) as' × Ascending as'

All-insert_sorted :
    {lower : ℕ} (a : ℕ) (bs : List ℕ)
    → lower ≤ a
    → All (λ b. lower ≤ b) bs
    → All (λ b. lower ≤ b) (insert_sorted a bs)
unfolding insert_sorted
All-insert_sorted a [] h hs = (h, tt)
All-insert_sorted a (b ∷ bs) h hs =
    let rest = All-insert_sorted a bs h hs.1 in
    elim (Bool-cases (leb a b)) [ inl below ↦ rw below (h, hs) | inr above ↦ rw above (hs.0, rest) ]

All-le : {a b : ℕ} (bs : List ℕ) → a ≤ b → All (λ c. b ≤ c) bs → All (λ c. a ≤ c) bs
All-le [] h hs = tt
All-le (c ∷ bs) h hs = (omega (arith, hs.0), All-le bs h hs.1)

insert_sorted-Ascending : (a : ℕ) (bs : List ℕ) → Ascending bs → Ascending (insert_sorted a bs)
unfolding insert_sorted Ascending
insert_sorted-Ascending a [] h = (tt, tt)
insert_sorted-Ascending a (b ∷ bs) h =
    let rest = insert_sorted-Ascending a bs h.1 in
    elim (Bool-cases (leb a b)) [
      | inl below ↦ let le : a ≤ b = ground arith in rw below ((le, All-le bs le h.0), h)
      | inr above ↦ let ge : b ≤ a = ground arith in rw above (All-insert_sorted a bs ge h.0, rest)
    ]

insert_sorted-Perm : (a : ℕ) (bs : List ℕ) → Perm (insert_sorted a bs) (a ∷ bs)
unfolding insert_sorted
insert_sorted-Perm a [] = Perm.refl (a ∷ [])
insert_sorted-Perm a (b ∷ bs) =
    let rest = insert_sorted-Perm a bs in
    elim (Bool-cases (leb a b)) [
      | inl below ↦ rw below (Perm.refl (a ∷ b ∷ bs))
      | inr above ↦ rw above (Perm.trans (Perm.cons b rest) (Perm.swap a b bs))
    ]

sort-Ascending : (as' : List ℕ) → Ascending (sort as')
unfolding sort Ascending
sort-Ascending [] = tt
sort-Ascending (a ∷ as') = insert_sorted-Ascending a (sort as') (sort-Ascending as')

sort-Perm : (as' : List ℕ) → Perm (sort as') as'
unfolding sort
sort-Perm [] = Perm.refl []
sort-Perm (a ∷ as') = Perm.trans (insert_sorted-Perm a (sort as')) (Perm.cons a (sort-Perm as'))

-- The delays that a chain reports are in ascending order, and they are those of its received blocks,
-- each as often as there.
pub block_delays_ms_lem :
    (c : Blockchain)
    → Ascending (block_delays_ms c) × Perm (block_delays_ms c) (delays c.hash_to_origin)
unfolding block_delays_ms
block_delays_ms_lem c =
    (sort-Ascending (delays c.hash_to_origin), sort-Perm (delays c.hash_to_origin))
