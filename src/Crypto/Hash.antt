-- ===== src/Crypto/Hash.antt =====
-- src/crypto/hash.rs: 256-bit hashes as 32 big-endian bytes, their equality and their order.
pub mod Order
pub mod Number
pub mod Arrays
use f.Prelude.{
  ℕ, suc, ◌+◌, ◌*◌, ◌<◌, ◌^◌, ◌≡◌, ◌↔◌, ap, Bool, true, false, List, [], ◌∷◌, ◌++◌, arith, Eq,
  bytes_beq, bytes_beq_iff, length, All, take, drop, replicate, leb, ltb, nat_beq, if◌then◌else◌,
}
use Prim.Native.Nat.{compare, Ordering}

-- `H256([u8; 32])`. That there are 32 entries below 256 is the predicate `IsH256`.
pub record H256 : Type 0 where
  pub bytes : List ℕ

abbrev pub IsByte : ℕ → Type 0
IsByte b = b < 256

pub record IsH256 (h : H256) : Type 0 where
  pub size : length h.bytes ≡ 32
  pub in_range : All IsByte h.bytes

-- `H256::default()`
abbrev pub default_h256 : H256
default_h256 = record { bytes = replicate 32 0 }

unfoldable pub h256_beq : H256 → H256 → Bool
h256_beq a b = bytes_beq a.bytes b.bytes

pub h256_beq_iff : (a b : H256) → (h256_beq a b ≡ true) ↔ (a ≡ b)
unfolding h256_beq
h256_beq_iff a b = (
  λ h. ap (λ (bs : List ℕ). record { bytes = bs }) ((bytes_beq_iff a.bytes b.bytes).0 h),
  λ h. (bytes_beq_iff a.bytes b.bytes).1 (ap (λ (x : H256). x.bytes) h),
)

instance abbrev pub h256_eq : Eq H256
h256_eq = record { beq = h256_beq; beq_iff = h256_beq_iff }

-- `u128::from_be_bytes`, on any number of bytes: the accumulator holds the bytes read so far.
unfoldable pub be_bytes : ℕ → List ℕ → ℕ
be_bytes acc [] = acc
be_bytes acc (b ∷ bs) = be_bytes (acc * 256 + b) bs

abbrev pub from_be_bytes : List ℕ → ℕ
from_be_bytes = be_bytes 0

-- `Ord::cmp`: the upper 16 bytes decide, and the lower 16 where those are equal.
unfoldable pub cmp : H256 → H256 → Ordering
unfolding be_bytes
cmp self other =
    let self_higher = from_be_bytes (take 16 self.bytes) in
    let self_lower = from_be_bytes (take 16 (drop 16 self.bytes)) in
    let other_higher = from_be_bytes (take 16 other.bytes) in
    let other_lower = from_be_bytes (take 16 (drop 16 other.bytes)) in
    let lower = compare self_lower other_lower in
    elim (compare self_higher other_higher) [
      | Ordering.eq ↦ lower
      | Ordering.lt ↦ Ordering.lt
      | Ordering.gt ↦ Ordering.gt
    ]

-- `a <= b` and `a < b`, through `partial_cmp`
unfoldable pub h256_le : H256 → H256 → Bool
h256_le a b = elim (cmp a b) [ Ordering.gt ↦ false | _ ↦ true ]

unfoldable pub h256_lt : H256 → H256 → Bool
h256_lt a b = elim (cmp a b) [ Ordering.lt ↦ true | _ ↦ false ]

-- `Hashable`: what can be hashed to an `H256`.
pub record Hashable (T : Type 0) : Type 0 where
  pub hash : T → H256

-- `From<Digest>`: the bytes of the digest. `digest` stands for SHA-256 of the crate `ring`.
abbrev pub from_digest : List ℕ → H256
from_digest d = record { bytes = d }

module _ (sha256 : List ℕ → List ℕ) where
  -- `impl Hashable for H256`
  abbrev pub h256_hashable : Hashable H256
  h256_hashable = record { hash = λ h. from_digest (sha256 h.bytes) }
