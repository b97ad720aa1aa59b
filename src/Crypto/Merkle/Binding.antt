-- ===== src/Crypto/Merkle/Binding.antt =====
-- src/crypto/merkle.rs: two data that `verify` accepts at one position.

use f.Prelude.{
  ℕ, zero, suc, ◌≡◌, ◌≢◌, ◌⊎◌, inl, inr, refl, sym, ap, ◌∙◌, Bool, true, false, List, [], ◌∷◌, ◌++◌,
  arith, ok, >>=-eq-ok, ok-injective, length, bytes_beq, bytes_beq_iff, Bool-cases, All, ◌==◌,
}
use f.Crypto.Hash.{H256, from_digest, h256_eq, h256_beq_iff}
use f.Crypto.Merkle.{hash_children, combine, climb, binary_index, verify}

-- Two different inputs with one digest.
pub Collision : (List ℕ → List ℕ) → Type 0
Collision sha256 = (x : List ℕ) × (y : List ℕ) × (x ≢ y) × (sha256 x ≡ sha256 y)

append_injective : (a b c d : List ℕ) → length a ≡ length c → a ++ b ≡ c ++ d → (a ≡ c) × (b ≡ d)
append_injective [] b [] d h e = (refl, e)
append_injective [] b (x ∷ c) d h e = absurd (omega arith)
append_injective (x ∷ a) b [] d h e = absurd (omega arith)
append_injective (x ∷ a) b (y ∷ c) d h e =
    let (p, q) = append_injective a b c d (omega arith) (cc) in ((cc), q)

different : {b : Bool} → b ≡ false → b ≡ true → ⊥
different e h = cc

bytes_eq : (a b : H256) → a.bytes ≡ b.bytes → a ≡ b
bytes_eq a b e = ap (λ (bs : List ℕ). record { bytes = bs }) e

abbrev pub Is32 : H256 → Type 0
Is32 h = length h.bytes ≡ 32

keep_first : {A B : Type 0} {C : Type 0} → (A × B) ⊎ C → A ⊎ C
keep_first (inl (a, b)) = inl a
keep_first (inr c) = inr c

keep_second : {A B : Type 0} {C : Type 0} → (A × B) ⊎ C → B ⊎ C
keep_second (inl (a, b)) = inl b
keep_second (inr c) = inr c

module _ (sha256 : List ℕ → List ℕ) (size : (x : List ℕ) → length (sha256 x) ≡ 32) where
  digest_binds :
      (x y : List ℕ) → from_digest (sha256 x) ≡ from_digest (sha256 y) → (x ≡ y) ⊎ Collision sha256
  unfolding Collision
  digest_binds x y e = elim (Bool-cases (bytes_beq x y)) [
    | inl same ↦ inl ((bytes_beq_iff x y).0 same)
    | inr differ ↦
        inr (x, y, λ w. different differ ((bytes_beq_iff x y).1 w), ap (λ (h : H256). h.bytes) e)
  ]

  hash_children_binds :
      (a b c d : H256)
      → Is32 a
      → Is32 c
      → hash_children sha256 a b ≡ hash_children sha256 c d
      → ((a ≡ c) × (b ≡ d)) ⊎ Collision sha256
  unfolding hash_children
  hash_children_binds a b c d ha hc e =
      elim (digest_binds (a.bytes ++ b.bytes) (c.bytes ++ d.bytes) e) [
        | inl same ↦
            let (p, q) = append_injective a.bytes b.bytes c.bytes d.bytes (ha ∙ sym hc) same in
            inl (bytes_eq a c p, bytes_eq b d q)
        | inr found ↦ inr found
      ]

  combine_binds :
      (b : ℕ) (c d p q e e' : H256)
      → Is32 c
      → Is32 d
      → Is32 p
      → Is32 q
      → combine sha256 b c p ≡ ok e
      → combine sha256 b d q ≡ ok e'
      → Is32 e × Is32 e' × (e ≡ e' → (c ≡ d) ⊎ Collision sha256)
  unfolding combine hash_children
  combine_binds zero c d p q e e' hc hd hp hq ec ed = (
    rw (← ok-injective ec) (size (c.bytes ++ p.bytes)),
    rw (← ok-injective ed) (size (d.bytes ++ q.bytes)),
    λ w.
        keep_first
          (hash_children_binds c p d q hc hd (ok-injective ec ∙ w ∙ sym (ok-injective ed))),
  )
  combine_binds (suc zero) c d p q e e' hc hd hp hq ec ed = (
    rw (← ok-injective ec) (size (p.bytes ++ c.bytes)),
    rw (← ok-injective ed) (size (q.bytes ++ d.bytes)),
    λ w.
        keep_second
          (hash_children_binds p c q d hp hq (ok-injective ec ∙ w ∙ sym (ok-injective ed))),
  )
  combine_binds (suc (suc b)) c d p q e e' hc hd hp hq ec ed = cc

  climb_binds :
      (c d e : H256) (bs : List ℕ) (ps qs : List H256)
      → Is32 c
      → Is32 d
      → All Is32 ps
      → All Is32 qs
      → length ps ≡ length qs
      → climb sha256 c bs ps ≡ ok e
      → climb sha256 d bs qs ≡ ok e
      → (c ≡ d) ⊎ Collision sha256
  unfolding climb
  climb_binds c d e bs [] [] hc hd hp hq same ec ed = inl (cc)
  climb_binds c d e bs [] (q ∷ qs) hc hd hp hq same ec ed = absurd (omega arith)
  climb_binds c d e bs (p ∷ ps) [] hc hd hp hq same ec ed = absurd (omega arith)
  climb_binds c d e [] (p ∷ ps) (q ∷ qs) hc hd hp hq same ec ed = cc
  climb_binds c d e (b ∷ bs) (p ∷ ps) (q ∷ qs) hc hd hp hq same ec ed =
      let (c', ec₁, ec₂) = >>=-eq-ok (combine sha256 b c p) (λ x. climb sha256 x bs ps) ec in
      let (d', ed₁, ed₂) = >>=-eq-ok (combine sha256 b d q) (λ x. climb sha256 x bs qs) ed in
      let (hc', hd', binds) = combine_binds b c d p q c' d' hc hd hp.0 hq.0 ec₁ ed₁ in
      elim (climb_binds c' d' e bs ps qs hc' hd' hp.1 hq.1 (omega arith) ec₂ ed₂) [
        | inl same' ↦ binds same'
        | inr found ↦ inr found
      ]

  -- If the digest always has 32 bytes, and so have the hashes involved, then two data hashes that
  -- `verify` accepts against one root, at one index, with siblings equally many are the same, or
  -- they give two different inputs of the digest with one output.
  pub verify_binding :
      (expected c d : H256) (ps qs : List H256) (index m n : ℕ)
      → Is32 c
      → Is32 d
      → All Is32 ps
      → All Is32 qs
      → length ps ≡ length qs
      → verify sha256 expected c ps index m ≡ ok true
      → verify sha256 expected d qs index n ≡ ok true
      → (c ≡ d) ⊎ Collision sha256
  unfolding verify
  verify_binding expected c d ps qs index m n hc hd hp hq same vc vd =
      let (x, ex, tx) =
        >>=-eq-ok (climb sha256 c (binary_index (length ps) index) ps) (λ y. ok (expected == y))
          vc in
      let (y, ey, ty) =
        >>=-eq-ok (climb sha256 d (binary_index (length qs) index) qs) (λ z. ok (expected == z))
          vd in
      let at_x = (h256_beq_iff expected x).0 (ok-injective tx) in
      let at_y = (h256_beq_iff expected y).0 (ok-injective ty) in
      climb_binds c d expected (binary_index (length ps) index) ps qs hc hd hp hq same (rw at_x ex)
        (rw (same, at_y) ey)
