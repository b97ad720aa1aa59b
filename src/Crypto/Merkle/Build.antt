-- ===== src/Crypto/Merkle/Build.antt =====
-- src/crypto/merkle.rs: one round of the loop in `MerkleTree::new`.
use f.Prelude.{
  ℕ, zero, suc, ◌+◌, ◌*◌, ◌/◌, ◌%◌, ◌≡◌, refl, some, List, [], ◌∷◌, ◌++◌, arith, ok, length, last,
  get_elem?, length-append, Bool-cases, inl, inr, nat_beq, nat_beq_iff,
}
use f.Crypto.Merkle.{
  MerkleTreeNode, node, present, node_hash, duplicate_last_node, hash_children, pair_up, next_level,
}

get_elem?-append {ℓ} :
    {A : Type ℓ} (xs ys : List A) (i : ℕ) (a : A)
    → get_elem? xs i ≡ some a
    → get_elem? (xs ++ ys) i ≡ some a
get_elem?-append [] ys i a h = cc
get_elem?-append (x ∷ xs) ys zero a h = h
get_elem?-append (x ∷ xs) ys (suc i) a h = get_elem?-append xs ys i a h

last-cons {ℓ} : {A : Type ℓ} (x : A) (xs : List A) → (a : A) × (last (x ∷ xs) ≡ some a)
last-cons x [] = (x, refl)
last-cons x (y ∷ ys) = last-cons y ys

-- The level after the duplication: even, at most one longer, with every node where it was.
pub record Evened (ns es : List MerkleTreeNode) : Type 0 where
  pub even : length es % 2 ≡ 0
  pub size : length es ≡ (length ns + 1) / 2 * 2
  pub kept : (i : ℕ) (n : MerkleTreeNode) → get_elem? ns i ≡ some n → get_elem? es i ≡ some n

module _ (sha256 : List ℕ → List ℕ) where
  pub length-pair_up : (es : List MerkleTreeNode) → length (pair_up sha256 es) ≡ length es / 2
  unfolding pair_up
  length-pair_up [] = omega arith
  length-pair_up (n ∷ []) = omega arith
  length-pair_up (l ∷ r ∷ es) = omega (arith, length-pair_up es)

  -- The parent of position `i` of an even level, and which of its children the node there is.
  pub record Parent (n : MerkleTreeNode) (i : ℕ) (p : MerkleTreeNode) : Type 0 where
    pub left : MerkleTreeNode
    pub right : MerkleTreeNode
    pub shape :
        p
        ≡ node
            (present left)
            (present right)
            (hash_children sha256 (node_hash left) (node_hash right))
    pub is_left : i % 2 ≡ 0 → n ≡ left
    pub is_right : i % 2 ≡ 1 → n ≡ right

  pub pair_up-Parent :
      (es : List MerkleTreeNode) (i : ℕ) (n : MerkleTreeNode)
      → length es % 2 ≡ 0
      → get_elem? es i ≡ some n
      → (p : MerkleTreeNode) × (get_elem? (pair_up sha256 es) (i / 2) ≡ some p) × Parent n i p
  unfolding pair_up
  pair_up-Parent [] i n h e = cc
  pair_up-Parent (x ∷ []) i n h e = absurd (omega arith)
  pair_up-Parent (l ∷ r ∷ es) zero n h e = (
    _,
    refl,
    record {
      left = l;
      right = r;
      shape = refl;
      is_left = λ _. ground arith;
      is_right = λ (w : 0 % 2 ≡ 1). absurd (omega arith);
    },
  )
  pair_up-Parent (l ∷ r ∷ es) (suc zero) n h e = (
    _,
    refl,
    record {
      left = l;
      right = r;
      shape = refl;
      is_left = λ (w : 1 % 2 ≡ 0). absurd (omega arith);
      is_right = λ _. ground arith;
    },
  )
  pair_up-Parent (l ∷ r ∷ es) (suc (suc i)) n h e =
      let (p, at, q) = pair_up-Parent es i n (omega arith) e in
      let halved : suc (suc i) / 2 ≡ suc (i / 2) = omega arith in
      (
        p,
        rw halved at,
        record {
          left = q.left;
          right = q.right;
          shape = q.shape;
          is_left = λ w. q.is_left (omega arith);
          is_right = λ w. q.is_right (omega arith);
        },
      )

  duplicated-Evened :
      (n a : MerkleTreeNode) (ns : List MerkleTreeNode)
      → length (n ∷ ns) % 2 ≡ 1
      → Evened (n ∷ ns) ((n ∷ ns) ++ a ∷ [])
  duplicated-Evened n a ns odd = record {
    even = omega (arith, length-append ns (a ∷ []));
    size = omega (arith, length-append ns (a ∷ []));
    kept = λ i m h. get_elem?-append (n ∷ ns) (a ∷ []) i m h;
  }

  -- The duplication and the assertion after it succeed on any level that is not empty.
  pub next_level-Evened :
      (n : MerkleTreeNode) (ns : List MerkleTreeNode)
      → (es : List MerkleTreeNode) × (next_level sha256 (n ∷ ns) ≡ ok (pair_up sha256 es))
        × Evened (n ∷ ns) es
  unfolding next_level duplicate_last_node
  next_level-Evened n ns = elim (Bool-cases (nat_beq (length (n ∷ ns) % 2) 1)) [
    | inl odd ↦
        let (a, e) = last-cons n ns in
        let v = duplicated-Evened n a ns ((nat_beq_iff _ 1).0 odd) in
        ((n ∷ ns) ++ a ∷ [], rw (odd, e, (nat_beq_iff _ 0).1 v.even), v)
    | inr even ↦
        let e : length (n ∷ ns) % 2 ≡ 0 = ground arith in
        (
          n ∷ ns,
          rw (even, (nat_beq_iff _ 0).1 e),
          record { even = e; size = omega arith; kept = λ i m h. h },
        )
  ]
