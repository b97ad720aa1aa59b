-- ===== src/Crypto/Hash/Arrays.antt =====
-- src/crypto/hash.rs: the conversions between hashes and arrays of bytes.
use f.Prelude.{
  ℕ, ◌≡◌, refl, List, length, nat_beq, replicate, if◌then◌else◌, Result, ok, panic, ◌>>=◌, true,
  arith,
}
use f.Crypto.Hash.{H256, IsH256}

-- `buffer[..].copy_from_slice(input)`, which panics where the lengths differ.
unfoldable pub copy_from_slice : List ℕ → List ℕ → Result (List ℕ)
copy_from_slice input buffer = if nat_beq (length buffer) (length input) then ok input else panic

-- `AsRef<[u8]>`, and `From<H256> for [u8; 32]`
abbrev pub as_ref : H256 → List ℕ
as_ref h = h.bytes

-- `From<[u8; 32]>`
abbrev pub from_array : List ℕ → H256
from_array input = record { bytes = input }

-- `From<&[u8; 32]>`, and `From<Digest>`
unfoldable pub from_slice : List ℕ → Result H256
unfolding copy_from_slice
from_slice input = do buffer ← copy_from_slice input (replicate 32 0); ok (from_array buffer)

-- `From<&H256> for [u8; 32]`
unfoldable pub to_array : H256 → Result (List ℕ)
unfolding copy_from_slice
to_array h = copy_from_slice (as_ref h) (replicate 32 0)

copy_from_slice-fits :
    (input buffer : List ℕ) → length buffer ≡ length input → copy_from_slice input buffer ≡ ok input
unfolding copy_from_slice
copy_from_slice-fits input buffer same =
    let fits : nat_beq (length buffer) (length input) ≡ true = ground arith in rw fits refl

-- A well-formed hash is converted to an array and back without a panic.
pub from_slice-to_array : (h : H256) → IsH256 h → (to_array h >>= from_slice) ≡ ok h
unfolding to_array from_slice
from_slice-to_array h v =
    let copied = copy_from_slice-fits h.bytes (replicate 32 0) (omega (arith, v.size)) in
    rw (copied, copied) refl
