-- ===== src/Crypto/Merkle/Rounds.antt =====
-- src/crypto/merkle.rs: the levels in the rounds of the loop in `MerkleTree::new`.

use native.Mathlib.Nat.{pow-suc, mul-le-mul_right}
use f.Prelude.{
  ℕ, zero, suc, ◌+◌, ◌*◌, ◌/◌, ◌^◌, ◌≤◌, ◌<◌, ◌≡◌, refl, ap, ◌∙◌, List, [], ◌∷◌, map, arith, some,
  ok, length, get_elem?, length-map,
}
use f.Crypto.Hash.{H256, h256_eq}
use f.Crypto.Merkle.{
  MerkleTreeNode, MerkleTree, pair_up, next_level, build, leaf, binary_index, climb, descend,
}
use f.Crypto.Merkle.Build.{pair_up-Parent, length-pair_up, next_level-Evened, Evened}
use f.Crypto.Merkle.Level.{Reaches, Reaches-Parent, shift, shift-suc}

module _ (sha256 : List ℕ → List ℕ) where
  -- `k` rounds have led from the hashes `ds` to the level `ns`.
  pub record IsLevel (k : ℕ) (ns : List MerkleTreeNode) (ds : List H256) : Type 0 where
    pub above :
        (i : ℕ) (d : H256)
        → get_elem? ds i ≡ some d
        → (n : MerkleTreeNode) × (get_elem? ns (shift k i) ≡ some n) × Reaches sha256 k n i d
    pub many : length ds ≤ length ns * 2 ^ k
    pub few : length ns * 2 ^ k < length ds + 2 ^ k
    pub tight : 2 ^ k < 2 * length ds

  leaf-above :
      (ds : List H256) (i : ℕ) (d : H256)
      → get_elem? ds i ≡ some d
      → get_elem? (map (leaf sha256) ds) i ≡ some (leaf sha256 d)
  leaf-above [] i d e = cc
  leaf-above (x ∷ ds) zero d e = ground arith
  leaf-above (x ∷ ds) (suc i) d e = leaf-above ds i d e

  pub leaf-Reaches : (i : ℕ) (d : H256) → Reaches sha256 0 (leaf sha256 d) i d
  unfolding descend climb binary_index
  leaf-Reaches i d = record { path = []; size = refl; down = refl; up = refl }

  pub leaves-IsLevel : (ds : List H256) → 0 < length ds → IsLevel 0 (map (leaf sha256) ds) ds
  leaves-IsLevel ds h = record {
    above = λ i d e. (leaf sha256 d, leaf-above ds i d e, leaf-Reaches i d);
    many = omega (arith, length-map (leaf sha256) ds);
    few = omega (arith, length-map (leaf sha256) ds);
    tight = omega arith;
  }

  -- Lengths halve, rounding up, while the powers of two double.
  level_sizes :
      (m c p d : ℕ)
      → 2 ≤ m
      → c ≡ (m + 1) / 2
      → d ≤ m * p
      → m * p < d + p
      → (d ≤ c * (p * 2)) × (c * (p * 2) < d + p * 2) × (p * 2 < 2 * d)
  level_sizes m c p d big half many few =
      let low : m * p ≤ (2 * c) * p = mul-le-mul_right p (omega arith) in
      let high : (2 * c) * p ≤ (m + 1) * p = mul-le-mul_right p (omega arith) in
      let two : 2 * p ≤ m * p = mul-le-mul_right p big in (omega arith, omega arith, omega arith)

  paired-IsLevel :
      (k : ℕ) (ns es : List MerkleTreeNode) (ds : List H256)
      → 2 ≤ length ns
      → Evened ns es
      → IsLevel k ns ds
      → IsLevel (suc k) (pair_up sha256 es) ds
  paired-IsLevel k ns es ds big w v = record {
    above = λ i d e.
        let (n, at_n, q) = v.above i d e in
        let (p, at_p, parent) = pair_up-Parent sha256 es (shift k i) n w.even (w.kept _ n at_n) in
        (p, rw shift-suc at_p, Reaches-Parent sha256 k i d parent q);
    many = rw pow-suc sizes.0;
    few = rw pow-suc sizes.1;
    tight = rw pow-suc sizes.2;
  }
    where
      sizes :
          (length ds ≤ length (pair_up sha256 es) * (2 ^ k * 2))
          × (length (pair_up sha256 es) * (2 ^ k * 2) < length ds + 2 ^ k * 2)
          × (2 ^ k * 2 < 2 * length ds)
      sizes =
          level_sizes (length ns) (length (pair_up sha256 es)) (2 ^ k) (length ds) big
            (omega (arith, length-pair_up sha256 es, w.size)) v.many v.few

  uncons :
      (xs : List MerkleTreeNode)
      → 0 < length xs
      → (m : MerkleTreeNode) × (ms : List MerkleTreeNode) × (xs ≡ m ∷ ms)
  uncons [] h = absurd (omega arith)
  uncons (m ∷ ms) h = (m, ms, refl)

  next_level-IsLevel :
      (k : ℕ) (n r : MerkleTreeNode) (ns : List MerkleTreeNode) (ds : List H256)
      → IsLevel k (n ∷ r ∷ ns) ds
      → (m : MerkleTreeNode) × (ms : List MerkleTreeNode) × (next_level sha256 (n ∷ r ∷ ns)
          ≡ ok (m ∷ ms))
        × (length ms ≤ length ns)
        × IsLevel (suc k) (m ∷ ms) ds
  next_level-IsLevel k n r ns ds v =
      let (es, e, w) = next_level-Evened sha256 n (r ∷ ns) in
      let size : length (pair_up sha256 es) ≡ (length ns + 3) / 2 =
        omega (arith, length-pair_up sha256 es, w.size) in
      let (m, ms, q) = uncons (pair_up sha256 es) (omega arith) in
      let step = paired-IsLevel k (n ∷ r ∷ ns) es ds (omega arith) w v in
      (m, ms, e ∙ ap ok q, omega (arith, ap length q), rw q at step)

  pub record Built (t : MerkleTree) (ds : List H256) : Type 0 where
    pub height : ℕ
    pub levels : t.level_count ≡ suc height
    pub top : IsLevel height (t.tree_root ∷ []) ds

  pub build-Built :
      (fuel k : ℕ) (n : MerkleTreeNode) (ns : List MerkleTreeNode) (ds : List H256)
      → length ns ≤ fuel
      → IsLevel k (n ∷ ns) ds
      → (t : MerkleTree) × (build sha256 fuel (n ∷ ns) (k + 1) ≡ ok t) × Built t ds
  unfolding build
  build-Built fuel k n [] ds h v = (
    record { tree_root = n; level_count = k + 1 },
    refl,
    record { height = k; levels = omega arith; top = v },
  )
  build-Built zero k n (r ∷ ns) ds h v = absurd (omega arith)
  build-Built (suc fuel) k n (r ∷ ns) ds h v =
      let (m, ms, e, fewer, w) = next_level-IsLevel k n r ns ds v in
      let (t, eq, b) = build-Built fuel (suc k) m ms ds (omega arith) w in
      let q : suc k + 1 ≡ k + 1 + 1 = omega arith in (t, rw (e, ← q) eq, b)
