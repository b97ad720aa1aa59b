-- ===== src/Crypto/Hash/Order.antt =====
-- src/crypto/hash.rs: the order of hashes and that of the numbers which they are.
use Prim.Native.Nat.{compare, Ordering}
use native.Mathlib.Nat.{pow-suc}
use f.Prelude.{
  ℕ, zero, suc, ◌+◌, ◌*◌, ◌<◌, ◌^◌, ◌≡◌, refl, ap, List, [], ◌∷◌, ◌++◌, arith, length, All, take,
  drop, sym, subst, ◌∙◌,
}
use f.Crypto.Hash.{H256, IsH256, IsByte, be_bytes, from_be_bytes, cmp}

-- The accumulator counts as the upper digits.
pub be_bytes-acc : (acc : ℕ) (bs : List ℕ) → be_bytes acc bs ≡ acc * 256 ^ length bs + be_bytes 0 bs
unfolding be_bytes
be_bytes-acc acc [] = omega arith
be_bytes-acc acc (b ∷ bs) = omega (
  arith,
  be_bytes-acc (acc * 256 + b) bs,
  be_bytes-acc (0 * 256 + b) bs,
  pow-suc 256 (length bs),
  ap (λ (t : ℕ). acc * t) (pow-suc 256 (length bs)),
)

digit-lt : (b r p : ℕ) → b < 256 → r < p → b * p + r < 256 * p
digit-lt b r p hb hr = grind arith

-- A string of n bytes is a number below 256 ^ n.
pub be_bytes-lt : (bs : List ℕ) → All IsByte bs → be_bytes 0 bs < 256 ^ length bs
unfolding be_bytes
be_bytes-lt [] h = omega arith
be_bytes-lt (b ∷ bs) h = grind (
  arith,
  be_bytes-acc (0 * 256 + b) bs,
  be_bytes-lt bs h.1,
  pow-suc 256 (length bs),
  digit-lt b (be_bytes 0 bs) (256 ^ length bs),
)

pub be_bytes-append :
    (acc : ℕ) (xs ys : List ℕ) → be_bytes acc (xs ++ ys) ≡ be_bytes (be_bytes acc xs) ys
unfolding be_bytes
be_bytes-append acc [] ys = refl
be_bytes-append acc (x ∷ xs) ys = be_bytes-append (acc * 256 + x) xs ys

take-append-drop : (n : ℕ) (xs : List ℕ) → take n xs ++ drop n xs ≡ xs
take-append-drop zero xs = refl
take-append-drop (suc n) [] = refl
take-append-drop (suc n) (x ∷ xs) = ap (λ (ys : List ℕ). x ∷ ys) (take-append-drop n xs)

length-drop_add : (n : ℕ) (xs : List ℕ) (k : ℕ) → length xs ≡ n + k → length (drop n xs) ≡ k
length-drop_add zero xs k h = omega arith
length-drop_add (suc n) [] k h = absurd (omega arith)
length-drop_add (suc n) (x ∷ xs) k h = length-drop_add n xs k (omega arith)

take-all : (n : ℕ) (xs : List ℕ) → length xs ≡ n → take n xs ≡ xs
take-all zero [] h = refl
take-all zero (x ∷ xs) h = absurd (omega arith)
take-all (suc n) [] h = refl
take-all (suc n) (x ∷ xs) h = ap (λ (ys : List ℕ). x ∷ ys) (take-all n xs (omega arith))

All-drop : (n : ℕ) (xs : List ℕ) → All IsByte xs → All IsByte (drop n xs)
All-drop zero xs h = h
All-drop (suc n) [] h = tt
All-drop (suc n) (x ∷ xs) h = All-drop n xs h.1

abbrev higher : H256 → ℕ
higher h = from_be_bytes (take 16 h.bytes)

abbrev lower : H256 → ℕ
lower h = from_be_bytes (take 16 (drop 16 h.bytes))

lower-eq : (h : H256) → IsH256 h → take 16 (drop 16 h.bytes) ≡ drop 16 h.bytes
lower-eq h v = take-all 16 (drop 16 h.bytes) (length-drop_add 16 h.bytes 16 v.size)

lower-lt : (h : H256) → IsH256 h → lower h < 2 ^ 128
lower-lt h v = rw (lower-eq h v) (
    subst (λ (n : ℕ). from_be_bytes (drop 16 h.bytes) < 256 ^ n)
      (length-drop_add 16 h.bytes 16 v.size)
      (be_bytes-lt (drop 16 h.bytes) (All-drop 16 h.bytes v.in_range)))

halves : (h : H256) → IsH256 h → from_be_bytes h.bytes ≡ higher h * 2 ^ 128 + lower h
halves h v =
    ap from_be_bytes (sym (take-append-drop 16 h.bytes))
    ∙ be_bytes-append 0 (take 16 h.bytes) (drop 16 h.bytes)
    ∙ be_bytes-acc (higher h) (drop 16 h.bytes)
    ∙ rw (length-drop_add 16 h.bytes 16 v.size, lower-eq h v)

compare-halves :
    (a b c d : ℕ)
    → b < 2 ^ 128
    → d < 2 ^ 128
    → (elim (compare a c) [
      | Ordering.eq ↦ compare b d
      | Ordering.lt ↦ Ordering.lt
      | Ordering.gt ↦ Ordering.gt
    ])
      ≡ compare (a * 2 ^ 128 + b) (c * 2 ^ 128 + d)
compare-halves a b c d hb hd = ground arith

-- On two well-formed hashes, `cmp` is the comparison of the big-endian numbers.
pub cmp-be_bytes :
    (a b : H256)
    → IsH256 a
    → IsH256 b
    → cmp a b ≡ compare (from_be_bytes a.bytes) (from_be_bytes b.bytes)
unfolding cmp
cmp-be_bytes a b va vb =
    rw (halves a va, halves b vb)
      (compare-halves (higher a) (lower a) (higher b) (lower b) (lower-lt a va) (lower-lt b vb))
