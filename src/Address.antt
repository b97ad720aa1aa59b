-- ===== src/Address.antt =====
-- src/address.rs: 160-bit addresses, the last 20 bytes of the digest of a public key.
use f.Prelude.{
  ℕ, ◌-◌, ◌≡◌, ◌↔◌, ap, Bool, true, List, Eq, bytes_beq, bytes_beq_iff, length, drop, replicate,
}

-- `H160([u8; 20])`
pub record H160 : Type 0 where
  pub bytes : List ℕ

-- `H160::default()`
abbrev pub default_h160 : H160
default_h160 = record { bytes = replicate 20 0 }

unfoldable pub h160_beq : H160 → H160 → Bool
h160_beq a b = bytes_beq a.bytes b.bytes

pub h160_beq_iff : (a b : H160) → (h160_beq a b ≡ true) ↔ (a ≡ b)
unfolding h160_beq
h160_beq_iff a b = (
  λ h. ap (λ (bs : List ℕ). record { bytes = bs }) ((bytes_beq_iff a.bytes b.bytes).0 h),
  λ h. (bytes_beq_iff a.bytes b.bytes).1 (ap (λ (x : H160). x.bytes) h),
)

instance abbrev pub h160_eq : Eq H160
h160_eq = record { beq = h160_beq; beq_iff = h160_beq_iff }

-- `H160::from_pubkey`. The digest has 32 bytes, so the subtraction does not stop at 0 and the
-- assertion on the length holds.
unfoldable pub from_pubkey : (List ℕ → List ℕ) → List ℕ → H160
from_pubkey sha256 pub_key_as_bytes =
    let digest_bytes = sha256 pub_key_as_bytes in
    record { bytes = drop (length digest_bytes - 20) digest_bytes }
