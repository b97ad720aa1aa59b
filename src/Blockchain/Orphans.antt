-- ===== src/Blockchain/Orphans.antt =====
-- src/blockchain.rs: where the blocks of the orphan buffer stand.
use f.Prelude.{
  ℕ, ◌≡◌, refl, sym, subst, some, List, [], ◌∷◌, ◌++◌, arith, ok, All, All-append, Option-cases,
  Bool-cases, inl, inr,
}
use f.Crypto.Hash.{H256, h256_eq, h256_beq, h256_beq_iff}
use f.HashMap.{HashMap, get, insert, remove}
use f.HashMap.Laws.{get-insert, get-remove}
use f.Block.{Block}
use f.Blockchain.{Blockchain, new, insert_recursively, add_to_orphan_buffer}
use f.Blockchain.Fuel.{insert_block_fields, insert_recursively-keeps}
use f.Blockchain.Reach.{Reachable, start, mine, adopt, buffer, note_origin}
use f.Externals.{Externals}

abbrev pub HasParent : H256 → Block → Type 0
HasParent h b = b.header.parent ≡ h

-- The lists of orphans stand under the hashes of their parents.
pub record IsParented (m : HashMap H256 (List Block)) : Type 0 where
  pub parented : (h : H256) (bs : List Block) → get h m ≡ some bs → All (HasParent h) bs

remove-IsParented :
    (k : H256) (m : HashMap H256 (List Block)) → IsParented m → IsParented (remove k m)
remove-IsParented k m v = record {
  parented = λ h bs e. v.parented h bs (ground (arith, get-remove k h m));
}

insert-IsParented :
    (k : H256) (cs : List Block) (m : HashMap H256 (List Block))
    → All (HasParent k) cs
    → IsParented m
    → IsParented (insert k cs m)
insert-IsParented k cs m all v = record {
  parented = λ h bs e. elim (Bool-cases (h256_beq k h)) [
    | inl same ↦
        let here : bs ≡ cs = ground (arith, get-insert k h cs m) in
        let at_k = (h256_beq_iff k h).0 same in
        subst (λ (x : H256). All (HasParent x) bs) at_k (subst (All (HasParent k)) (sym here) all)
    | inr other ↦ v.parented h bs (ground (arith, get-insert k h cs m))
  ];
}

add_to_orphan_buffer-IsParented :
    (b : Block) (c : Blockchain)
    → IsParented c.orphan_buffer
    → IsParented (add_to_orphan_buffer b c).orphan_buffer
unfolding add_to_orphan_buffer
add_to_orphan_buffer-IsParented b c v = elim (Option-cases (get b.header.parent c.orphan_buffer)) [
  | inl e ↦ rw e (insert-IsParented b.header.parent (b ∷ []) c.orphan_buffer (refl, tt) v)
  | inr (bs, e) ↦ rw e (
      insert-IsParented b.header.parent (bs ++ b ∷ []) c.orphan_buffer
        (All-append (HasParent b.header.parent) bs (b ∷ []) (v.parented _ bs e) (refl, tt)) v)
]

module _ (ext : Externals) where
  insert_recursively-IsParented :
      (fuel : ℕ) (b : Block) (s s' : Blockchain × List H256)
      → IsParented s.0.orphan_buffer
      → insert_recursively ext fuel b s ≡ ok s'
      → IsParented s'.0.orphan_buffer
  insert_recursively-IsParented =
      insert_recursively-keeps ext (λ s. IsParented s.0.orphan_buffer)
        (λ b c c' out p new_block done.
          subst IsParented (sym (insert_block_fields ext b c c' done).1) p)
        (λ h c out p. remove-IsParented h c.orphan_buffer p)

  new-IsParented : IsParented (new ext).orphan_buffer
  unfolding new get
  new-IsParented = record { parented = λ h bs e. cc }

  -- In every reachable chain each list of the orphan buffer stands under the hash which all its blocks
  -- name as their parent.
  pub Reachable-IsParented : {c : Blockchain} → Reachable ext c → IsParented c.orphan_buffer
  Reachable-IsParented (start e) =
      subst (λ (x : Blockchain). IsParented x.orphan_buffer) (sym e) new-IsParented
  Reachable-IsParented (mine {c = c} {c' = c'} b r new_block room done) =
      subst IsParented (sym (insert_block_fields ext b c c' done).1) (Reachable-IsParented r)
  Reachable-IsParented (adopt {c = c} {c' = c'} fuel b out out' r done room) =
      insert_recursively-IsParented fuel b (c, out) (c', out') (Reachable-IsParented r) done
  Reachable-IsParented (buffer {c = c} b r e) =
      subst (λ (x : Blockchain). IsParented x.orphan_buffer) (sym e)
        (add_to_orphan_buffer-IsParented b c (Reachable-IsParented r))
  Reachable-IsParented (note_origin {c = c} m r e) =
      subst (λ (x : Blockchain). IsParented x.orphan_buffer) (sym e) (Reachable-IsParented r)
