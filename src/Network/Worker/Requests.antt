-- ===== src/Network/Worker/Requests.antt =====
-- src/network/worker.rs: requests for blocks and transactions, and their answers.
use f.Prelude.{
  ◌≡◌, refl, Bool, true, false, some, none, List, [], ◌∷◌, map, arith, filter, if◌then◌else◌, ok,
  panic, Option-cases, Bool-cases, inl, inr,
}
use f.Crypto.Hash.{H256, h256_eq}
use f.HashMap.{is_some}
use f.HashMap.Laws.{get-of-contains_key}
use f.Transaction.{SignedTransaction}
use f.Block.{Block}
use f.Block.Hashing.{hash_block}
use f.Blockchain.{Blockchain, contains_block}
use f.Blockchain.Reads.{get_block}
use f.Blockchain.Invariant.{IsWellFormed}
use f.Mempool.{Mempool, get_transaction}
use f.Network.Message.{blocks, transactions}
use f.Network.Worker.{
  Node, write, unless_empty, on_get_blocks, fetch_blocks, fetch_transactions, on_get_transactions,
}
use f.Externals.{Externals}

module _ (ext : Externals) (c : Blockchain) (v : IsWellFormed ext c) where
  fetch_blocks-hashes :
      (hs : List H256)
      → (bs : List Block) × (fetch_blocks (filter (λ h. contains_block h c) hs) c ≡ ok bs)
        × (map (hash_block ext) bs ≡ filter (λ h. contains_block h c) hs)
  unfolding fetch_blocks filter get_block
  fetch_blocks-hashes [] = ([], refl, refl)
  fetch_blocks-hashes (h ∷ hs) =
      let (bs, e, w) = fetch_blocks-hashes hs in
      elim (Bool-cases (contains_block h c)) [
        | inl known ↦
            let (b, at_h) =
              get-of-contains_key h c.hash_to_block (unfold contains_block in known) in
            (b ∷ bs, rw known (rw (at_h, e)), rw (known, v.hashed h b at_h, w))
        | inr unknown ↦ (bs, rw (unknown, e), rw (unknown, w))
      ]

-- On a well-formed chain a request for blocks is answered without a panic, by one message to the
-- peer with one block for each requested hash that the chain contains, in the order of the request,
-- each with the requested hash; where there are none, by no message.
pub on_get_blocks_lem :
    (ext : Externals) (hashes : List H256) (node : Node)
    → IsWellFormed ext node.blockchain
    → (found : List Block) × (on_get_blocks hashes node
        ≡ ok (unless_empty found (write (blocks found))))
      × (map (hash_block ext) found ≡ filter (λ h. contains_block h node.blockchain) hashes)
unfolding on_get_blocks
on_get_blocks_lem ext hashes node v =
    let (bs, e, w) = fetch_blocks-hashes ext node.blockchain v hashes in (bs, rw e, w)

-- Whether the pool lacks one of the hashes.
unfoldable pub lacks : Mempool → List H256 → Bool
lacks m [] = false
lacks m (h ∷ hs) = if is_some (get_transaction h m) then lacks m hs else true

-- The pooled transactions among the hashes.
unfoldable pub pooled : Mempool → List H256 → List SignedTransaction
pooled m [] = []
pooled m (h ∷ hs) = elim (get_transaction h m) [ none ↦ pooled m hs | some t ↦ t ∷ pooled m hs ]

fetch_transactions-lacks :
    (m : Mempool) (hs : List H256)
    → fetch_transactions hs m ≡ (if lacks m hs then panic else ok (pooled m hs))
unfolding fetch_transactions lacks pooled
fetch_transactions-lacks m [] = refl
fetch_transactions-lacks m (h ∷ hs) = elim (Option-cases (get_transaction h m)) [
  | inl e ↦ rw e
  | inr (t, e) ↦ ground (arith, e, fetch_transactions-lacks m hs)
]

-- A request for transactions makes the worker panic exactly if the pool lacks one of the hashes;
-- otherwise the answer is one message with the pooled transactions in the order of the request, or
-- none for an empty request.
pub on_get_transactions_lem :
    (hashes : List H256) (node : Node)
    → on_get_transactions hashes node ≡ (
        if lacks node.mempool hashes
        then panic
        else ok (
            unless_empty
              (pooled node.mempool hashes)
              (write (transactions (pooled node.mempool hashes)))))
unfolding on_get_transactions
on_get_transactions_lem hashes node = elim (Bool-cases (lacks node.mempool hashes)) [
  | inl e ↦ rw (fetch_transactions-lacks node.mempool hashes, e)
  | inr e ↦ rw (fetch_transactions-lacks node.mempool hashes, e)
]
