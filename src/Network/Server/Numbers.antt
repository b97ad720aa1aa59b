-- ===== src/Network/Server/Numbers.antt =====
-- src/network/server.rs: the list of the peers' numbers, as `register` and `swap_remove` change it.
use f.Prelude.{
  ℕ, zero, suc, ◌+◌, ◌≤◌, ◌<◌, ◌≡◌, refl, ap, ◌∙◌, Bool, some, List, [], ◌∷◌, ◌++◌, arith, length,
  nat_beq, if◌then◌else◌, Bool-cases, inl, inr,
}
use f.Network.Server.{position, split_last, swap_remove}

abbrev pub one_if : Bool → ℕ
one_if b = if b then 1 else 0

unfoldable pub count : ℕ → List ℕ → ℕ
count k [] = 0
count k (x ∷ xs) = one_if (nat_beq x k) + count k xs

pub count_push :
    (k x : ℕ) (xs : List ℕ) → count k (xs ++ x ∷ []) ≡ count k xs + one_if (nat_beq x k)
unfolding count
count_push k x [] = omega arith
count_push k x (y ∷ ys) = omega (arith, count_push k x ys)

count-split_last :
    (k y : ℕ) (ys : List ℕ)
    → one_if (nat_beq (split_last y ys).0 k) + count k (split_last y ys).1
      ≡ one_if (nat_beq y k) + count k ys
unfolding count split_last
count-split_last k y [] = refl
count-split_last k y (z ∷ zs) = omega (arith, count-split_last k z zs)

-- What `position` and `swap_remove` do for a number that is in the list.
pub swap_remove-position :
    (key : ℕ) (xs : List ℕ)
    → 0 < count key xs
    → (i : ℕ) × (position key xs ≡ some i)
      × ((k : ℕ) → count k (swap_remove i xs) + one_if (nat_beq key k) ≡ count k xs)
unfolding count position swap_remove
swap_remove-position key [] h = absurd (omega arith)
swap_remove-position key (x ∷ xs) h = elim (Bool-cases (nat_beq x key)) [
  | inl same ↦
      let e : x ≡ key = ground arith in
      let found : position key (x ∷ xs) ≡ some 0 = rw same in (0, found, removed xs e)
  | inr other ↦
      let (i, found, counts) = swap_remove-position key xs (ground (arith, h)) in
      (suc i, rw (other, found), λ k. omega (arith, counts k))
]
  where
    removed :
        (ys : List ℕ)
        → x ≡ key
        → (k : ℕ)
        → count k (swap_remove 0 (x ∷ ys)) + one_if (nat_beq key k)
          ≡ one_if (nat_beq x k) + count k ys
    removed [] e k = ground (arith, e)
    removed (y ∷ ys) e k = omega (arith, count-split_last k y ys, ap (λ z. one_if (nat_beq z k)) e)

-- The list without a number.
without : ℕ → List ℕ → List ℕ
without n [] = []
without n (x ∷ xs) = if nat_beq x n then without n xs else x ∷ without n xs

length-without : (n : ℕ) (xs : List ℕ) → length xs ≡ count n xs + length (without n xs)
unfolding count without
length-without n [] = refl
length-without n (x ∷ xs) = ground (arith, length-without n xs)

count-without :
    (n k : ℕ) (xs : List ℕ) → count k (without n xs) ≡ (if nat_beq k n then 0 else count k xs)
unfolding count without
count-without n k [] = ground arith
count-without n k (x ∷ xs) = ground (arith, count-without n k xs)

-- A list of different numbers below `n` has at most `n` elements.
pub length_at_most :
    (n : ℕ) (xs : List ℕ)
    → ((k : ℕ) → count k xs ≤ 1)
    → ((k : ℕ) → n ≤ k → count k xs ≡ 0)
    → length xs ≤ n
unfolding count
length_at_most zero [] once small = omega arith
length_at_most zero (x ∷ xs) once small = ground (arith, small x (omega arith))
length_at_most (suc n) xs once small = omega (
  arith,
  length-without n xs,
  once n,
  length_at_most n (without n xs) (λ k. ground (arith, count-without n k xs, once k))
      (λ k h. elim (Bool-cases (nat_beq k n)) [
        | inl same ↦ count-without n k xs ∙ rw same
        | inr other ↦ count-without n k xs ∙ rw other (small k (ground arith))
      ]),
)
