-- ===== src/Network/Server/Broadcast.antt =====
-- src/network/server.rs: a message to all peers.
use f.Prelude.{
  ℕ, ◌+◌, ◌≤◌, ◌≡◌, refl, sym, ap, ◌∙◌, subst, Bool, true, false, Option, none, some, List, [], ◌∷◌,
  arith, nat_beq, leb, if◌then◌else◌, Bool-cases, inl, inr, ok, >>=-of-ok, unwrap,
}
use mathlib.Core.Option.{some-injective}
use f.HashMap.{is_some}
use f.Network.Peer.Writer.{WriteState, writing_length, writing_payload, WriteContext, enqueue}
use f.Network.Peer.Remaining.{limit}
use f.Network.Slab.{Slab}
use f.Network.Server.{Peer, Server, broadcast_message, peer_at, write_to, process_control}
use f.Network.Server.Numbers.{one_if, count}
use f.Network.Server.Invariant.{IsPeer, IsConsistent}

-- A peer with a further message in its queue.
abbrev pub queued : List ℕ → Peer → Peer
queued msg p = record p { writer = enqueue msg p.writer }

limit-enqueue :
    (s : WriteState) (msg : List ℕ) (ctx : WriteContext) → limit s (enqueue msg ctx) ≡ limit s ctx
unfolding enqueue
limit-enqueue writing_length msg ctx = refl
limit-enqueue writing_payload msg ctx = refl

pub queued-IsPeer : (msg : List ℕ) (p : Peer) → IsPeer p → IsPeer (queued msg p)
unfolding enqueue
queued-IsPeer msg p v = record {
  reads = v.reads;
  writes = record {
    four = v.writes.four;
    whole = v.writes.whole;
    within =
        subst (λ (n : ℕ). p.writer.written_length ≤ n)
          (sym (limit-enqueue p.writer.state msg p.writer)) v.writes.within;
  };
}

abbrev pub with_queued : List ℕ → Option Peer → Option Peer
with_queued msg none = none
with_queued msg (some p) = some (queued msg p)

module _ (slab : Slab Peer) where
  -- What is found under a number, where it may have got a message.
  abbrev with_message : List ℕ → Bool → Option Peer → Option Peer
  with_message msg got none = none
  with_message msg got (some p) = some (if got then queued msg p else p)

  -- What `write_to` does: the peers of the list get the message, and nothing else changes.
  abbrev HasWritten : List ℕ → List ℕ → Server slab → Type 0
  HasWritten msg keys s =
      (s' : Server slab) × (write_to slab msg keys s ≡ ok s')
      × (s'.peer_list ≡ s.peer_list)
      × (s'.delivered ≡ s.delivered)
      × ((k : ℕ)
          → slab.get k s'.peers ≡ with_message msg (leb 1 (count k keys)) (slab.get k s.peers))

  -- The numbers of a list are occupied, and each is in it once.
  abbrev IsOccupied : List ℕ → Server slab → Type 0
  IsOccupied keys s = (k : ℕ) → count k keys ≤ (if is_some (slab.get k s.peers) then 1 else 0)

  write_to_step :
      (msg : List ℕ) (key : ℕ) (keys : List ℕ) (s : Server slab)
      → IsOccupied (key ∷ keys) s
      → ((t : Server slab) → IsOccupied keys t → HasWritten msg keys t)
      → (found : Option Peer) → slab.get key s.peers ≡ found
      → HasWritten msg (key ∷ keys) s
  unfolding write_to count peer_at
  write_to_step msg key keys s once rest none there = absurd (ground (arith, once key, there))
  write_to_step msg key keys s once rest (some p) there =
      let t : Server slab = record s { peers = slab.set key (queued msg p) s.peers } in
      let (s', ran, same_list, same_delivered, found) =
        rest t
          (λ k. ground (arith, once k, there, slab.get-set key k (queued msg p) p s.peers there)) in
      (
        s',
        >>=-of-ok (peer_at slab key s) _ (ap unwrap there) ∙ ran,
        same_list,
        same_delivered,
        λ k. elim (Bool-cases (nat_beq key k)) [
          | inl same ↦
              let here : slab.get k s.peers ≡ some p = ground (arith, there) in
              let now : slab.get k t.peers ≡ some (queued msg p) =
                ground (arith, slab.get-set key k (queued msg p) p s.peers there) in
              let once_only : leb 1 (count k keys) ≡ false = ground (arith, once k) in
              let got : leb 1 (one_if (nat_beq key k) + count k keys) ≡ true = ground arith in
              found k ∙ rw (now, here, got, once_only)
          | inr other ↦
              let unchanged : slab.get k t.peers ≡ slab.get k s.peers =
                ground (arith, slab.get-set key k (queued msg p) p s.peers there) in
              let same_count : one_if (nat_beq key k) + count k keys ≡ count k keys =
                ground arith in
              found k ∙ rw (unchanged, same_count)
        ],
      )

  write_to_lem :
      (msg : List ℕ) (keys : List ℕ) (s : Server slab) → IsOccupied keys s → HasWritten msg keys s
  unfolding write_to count
  write_to_lem msg [] s once = (s, refl, refl, refl, λ k. kept (slab.get k s.peers))
    where
      kept : (found : Option Peer) → found ≡ with_message msg false found
      kept none = refl
      kept (some p) = refl
  write_to_lem msg (key ∷ keys) s once =
      write_to_step msg key keys s once (write_to_lem msg keys) (slab.get key s.peers) refl

  with_message-listed :
      (msg : List ℕ) (n : ℕ) (found : Option Peer)
      → n ≡ one_if (is_some found)
      → with_message msg (leb 1 n) found ≡ with_queued msg found
  with_message-listed msg n none e = refl
  with_message-listed msg n (some p) e = ap (λ (k : ℕ). with_message msg (leb 1 k) (some p)) e

  is_some-with_queued :
      (msg : List ℕ) (found : Option Peer) → is_some (with_queued msg found) ≡ is_some found
  is_some-with_queued msg none = refl
  is_some-with_queued msg (some p) = refl

  with_queued-IsPeer :
      (msg : List ℕ) (found : Option Peer) (q : Peer)
      → ((p : Peer) → found ≡ some p → IsPeer p)
      → with_queued msg found ≡ some q
      → IsPeer q
  with_queued-IsPeer msg none q sound e = absurd (ground (arith, e))
  with_queued-IsPeer msg (some p) q sound e =
      subst IsPeer (some-injective (queued msg p) q e) (queued-IsPeer msg p (sound p refl))

  -- From a consistent server, a broadcast does not panic: every peer that is connected gets the message
  -- at the end of its queue, exactly once, no number becomes free or occupied, the server is consistent
  -- again, and nothing is passed on to the workers.
  pub broadcast_effect :
      (msg : List ℕ) (s : Server slab)
      → IsConsistent slab s
      → (s' : Server slab) × (process_control slab (broadcast_message msg) s ≡ ok s')
        × ((k : ℕ) → slab.get k s'.peers ≡ with_queued msg (slab.get k s.peers))
        × (s'.peer_list ≡ s.peer_list)
        × (s'.delivered ≡ s.delivered)
        × IsConsistent slab s'
  unfolding process_control
  broadcast_effect msg s v =
      let (s', ran, same_list, same_delivered, found) =
        write_to_lem msg s.peer_list s (λ k. ground (arith, v.listed k)) in
      let all_of : (k : ℕ) → slab.get k s'.peers ≡ with_queued msg (slab.get k s.peers) = λ k.
        found k ∙ with_message-listed msg (count k s.peer_list) (slab.get k s.peers) (v.listed k) in
      let occupied : (k : ℕ) → is_some (slab.get k s'.peers) ≡ is_some (slab.get k s.peers) =
        λ k. ap is_some (all_of k) ∙ is_some-with_queued msg (slab.get k s.peers) in
      (
        s',
        ran,
        all_of,
        same_list,
        same_delivered,
        record {
          listed = λ k. ap (count k) same_list ∙ v.listed k ∙ ap one_if (sym (occupied k));
          small = λ k h. v.small k (sym (occupied k) ∙ h);
          sound = λ k q h.
              with_queued-IsPeer msg (slab.get k s.peers) q (v.sound k) (sym (all_of k) ∙ h);
        },
      )
