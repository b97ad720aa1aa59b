-- ===== src/Crypto/Hash/Number.antt =====
-- src/crypto/hash.rs: the hashes as the numbers below 2 ^ 256.
use Prim.Native.Nat.{compare, Ordering}
use native.Mathlib.Nat.{mul-le-mul_right}
use f.Prelude.{
  ℕ, ◌+◌, ◌*◌, ◌<◌, ◌^◌, ◌≡◌, ◌↔◌, refl, sym, ap, ◌∙◌, true, List, [], ◌∷◌, arith, length, All, ltb,
  leb,
}
use f.Crypto.Hash.{H256, IsH256, IsByte, be_bytes, from_be_bytes, cmp, h256_le}
use f.Crypto.Hash.Order.{be_bytes-acc, be_bytes-lt, cmp-be_bytes}

lower_digit : (x y r s p : ℕ) → x < y → r < p → x * p + r < y * p + s
lower_digit x y r s p h hr = grind (arith, mul-le-mul_right p h)

same_digit : (x y r s p : ℕ) → x * p + r ≡ y * p + s → r < p → s < p → (x ≡ y) × (r ≡ s)
same_digit x y r s p e hr hs =
    let below : ltb x y ≡ true → ⊥ =
      λ h. let l = lower_digit x y r s p (ground arith) hr in omega (arith, e, l) in
    let above : ltb y x ≡ true → ⊥ =
      λ h. let l = lower_digit y x s r p (ground arith) hs in omega (arith, e, l) in
    let same : x ≡ y = ground (arith, below, above) in
    (same, omega (arith, e, ap (λ (n : ℕ). n * p) same))

-- Strings of as many bytes are the same number only if they are the same.
be_bytes-injective :
    (xs ys : List ℕ)
    → length xs ≡ length ys
    → All IsByte xs
    → All IsByte ys
    → be_bytes 0 xs ≡ be_bytes 0 ys
    → xs ≡ ys
unfolding be_bytes
be_bytes-injective [] [] l hx hy e = refl
be_bytes-injective [] (y ∷ ys) l hx hy e = absurd (omega arith)
be_bytes-injective (x ∷ xs) [] l hx hy e = absurd (omega arith)
be_bytes-injective (x ∷ xs) (y ∷ ys) l hx hy e =
    let l' : length xs ≡ length ys = omega (arith, l) in
    let (head, tail) =
      same_digit x y (be_bytes 0 xs) (be_bytes 0 ys) (256 ^ length xs)
        (omega (
          arith,
          be_bytes-acc (0 * 256 + x) xs,
          be_bytes-acc (0 * 256 + y) ys,
          e,
          ap (λ (n : ℕ). y * 256 ^ n) l',
        ))
        (be_bytes-lt xs hx.1) (rw l' (be_bytes-lt ys hy.1)) in
    rw (head, be_bytes-injective xs ys l' hx.1 hy.1 tail) refl

number-injective :
    (a b : H256) → IsH256 a → IsH256 b → from_be_bytes a.bytes ≡ from_be_bytes b.bytes → a ≡ b
number-injective a b va vb e =
    ap (λ (bs : List ℕ). record { bytes = bs })
      (be_bytes-injective a.bytes b.bytes (va.size ∙ sym vb.size) va.in_range vb.in_range e)

-- `Ordering::reverse`
abbrev pub reversed : Ordering → Ordering
reversed Ordering.lt = Ordering.gt
reversed Ordering.eq = Ordering.eq
reversed Ordering.gt = Ordering.lt

pub h256_le-number :
    (a b : H256)
    → IsH256 a
    → IsH256 b
    → h256_le a b ≡ leb (from_be_bytes a.bytes) (from_be_bytes b.bytes)
unfolding h256_le
h256_le-number a b va vb = rw (cmp-be_bytes a b va vb, h256_le) (ground arith)

-- What the standard library asks of `Ord`: on well-formed hashes, `cmp` is the comparison of the
-- big-endian numbers, `<=` is theirs, `cmp` says that two hashes are equal exactly if they are, and the
-- comparison the other way around is the reverse.
pub cmp_lawful :
    (a b : H256)
    → IsH256 a
    → IsH256 b
    → (cmp a b ≡ compare (from_be_bytes a.bytes) (from_be_bytes b.bytes))
      × (h256_le a b ≡ leb (from_be_bytes a.bytes) (from_be_bytes b.bytes))
      × ((cmp a b ≡ Ordering.eq) ↔ (a ≡ b))
      × (cmp b a ≡ reversed (cmp a b))
cmp_lawful a b va vb =
    let e = cmp-be_bytes a b va vb in
    let e' = cmp-be_bytes b a vb va in
    (
      e,
      h256_le-number a b va vb,
      (
        λ same. number-injective a b va vb (ground (arith, e, same)),
        λ same. ground (arith, e, ap (λ (x : H256). from_be_bytes x.bytes) same),
      ),
      rw (e, e') (ground arith),
    )
