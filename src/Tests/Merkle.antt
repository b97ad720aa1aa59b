-- ===== src/Tests/Merkle.antt =====
-- The hashes, the Merkle tree and the signatures on concrete data.
use f.Prelude.{
  ℕ, zero, suc, ◌+◌, ◌-◌, ◌*◌, ◌^◌, ◌≤◌, ◌<◌, ◌≡◌, ◌⊎◌, refl, Bool, true, List, [], ◌∷◌, ◌++◌,
  replicate, length, leb, ◌↔◌, ok, some, arith, All, Result,
}
use Prim.Native.Nat.{compare}
use f.Crypto.Hash.{H256, IsH256, IsByte, default_h256, cmp, from_be_bytes, Hashable, h256_hashable}
use f.Crypto.Hash.{h256_le}
use f.Crypto.Hash.Number.{reversed, cmp_lawful}
use Prim.Native.Nat.{compare, Ordering}
use f.Crypto.Merkle
use f.Crypto.Merkle.{MerkleTree, root, proof, verify}
use f.Crypto.Merkle.Proofs.{verify-proof, level_count_bounds}
use f.Crypto.Merkle.Binding.{verify_binding, Collision}
use f.Crypto.Merkle.Duplicate.{new-duplicate}

abbrev filled : ℕ → H256
filled b = record { bytes = replicate 32 b }

replicate-IsByte : (n b : ℕ) → b < 256 → All IsByte (replicate n b)
replicate-IsByte zero b h = tt
replicate-IsByte (suc n) b h = (h, replicate-IsByte n b h)

filled-IsH256 : (b : ℕ) → b < 256 → IsH256 (filled b)
filled-IsH256 b h = record { size = refl; in_range = replicate-IsByte 32 b h }

-- The digest of the tests: the bytes themselves.
abbrev same : List ℕ → List ℕ
same bytes = bytes

abbrev three : List H256
three = filled 1 ∷ filled 2 ∷ filled 3 ∷ []

verify-proof_example :
    (t : MerkleTree) × (siblings : List H256) × (f.Crypto.Merkle.new same ⦃h = h256_hashable same⦄
        three
      ≡ ok t)
    × (proof t 2 ≡ ok siblings)
    × (length siblings + 1 ≡ t.level_count)
    × (verify same (root t) (filled 3) siblings 2 3 ≡ ok true)
verify-proof_example = verify-proof same ⦃h = h256_hashable same⦄ three 2 (filled 3) 3 refl

-- A digest of 32 zeros.
abbrev zeros : List ℕ → List ℕ
zeros bytes = replicate 32 0

verify_accepts : (b : ℕ) → verify zeros default_h256 (filled b) (filled 7 ∷ []) 1 2 ≡ ok true
unfolding verify f.Crypto.Hash.h256_beq f.Prelude.bytes_beq
verify_accepts b = refl

verify_binding_example : (filled 1 ≡ filled 2) ⊎ Collision zeros
verify_binding_example =
    verify_binding zeros (λ x. refl) default_h256 (filled 1) (filled 2) (filled 7 ∷ [])
      (filled 7 ∷ []) 1 2 2 refl refl (refl, tt) (refl, tt) refl (verify_accepts 1)
      (verify_accepts 2)

tree_of_three : (t : MerkleTree) × (f.Crypto.Merkle.new same ⦃h = h256_hashable same⦄ three ≡ ok t)
tree_of_three =
    let (t, made, _, _, _) = level_count_bounds same ⦃h = h256_hashable same⦄ three (omega arith) in
    (t, made)

new-duplicate_example :
    f.Crypto.Merkle.new same ⦃h = h256_hashable same⦄
      (filled 1 ∷ filled 2 ∷ filled 3 ∷ filled 3 ∷ [])
    ≡ ok tree_of_three.0
new-duplicate_example =
    new-duplicate same ⦃h = h256_hashable same⦄ three (filled 3) tree_of_three.0 (omega arith) refl
      refl tree_of_three.1

cmp_lawful_example :
    (cmp (filled 3) (filled 4)
      ≡ compare (from_be_bytes (filled 3).bytes) (from_be_bytes (filled 4).bytes))
    × (h256_le (filled 3) (filled 4)
        ≡ leb (from_be_bytes (filled 3).bytes) (from_be_bytes (filled 4).bytes))
    × ((cmp (filled 3) (filled 4) ≡ Ordering.eq) ↔ (filled 3 ≡ filled 4))
    × (cmp (filled 4) (filled 3) ≡ reversed (cmp (filled 3) (filled 4)))
cmp_lawful_example =
    cmp_lawful (filled 3) (filled 4) (filled-IsH256 3 (omega arith)) (filled-IsH256 4 (omega arith))
