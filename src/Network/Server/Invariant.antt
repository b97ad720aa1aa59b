-- ===== src/Network/Server/Invariant.antt =====
-- src/network/server.rs: the table and the list of the peers, and what each change of them keeps.
use mathlib.Core.Option.{some-injective}
use f.Prelude.{
  ℕ, ◌≤◌, ◌<◌, ◌≡◌, refl, ◌∙◌, subst, Bool, true, some, arith, length, nat_beq, leb, Bool-cases,
  inl, inr, ok,
}
use f.HashMap.{is_some}
use f.Network.Peer.Totality.{IsReading}
use f.Network.Peer.Remaining.{IsWriting}
use f.Network.Slab.{Slab}
use f.Network.Server.{
  Peer, new_peer, max_incoming_client, swap_remove, Server, new_server, register, peer_at,
  disconnect,
}
use f.Network.Server.Numbers.{one_if, count, count_push, swap_remove-position, length_at_most}

-- A peer whose two halves are sound.
pub record IsPeer (p : Peer) : Type 0 where
  pub reads : IsReading p.reader
  pub writes : IsWriting p.writer.state p.writer

pub new_peer-IsPeer : IsPeer new_peer
new_peer-IsPeer = record {
  reads = record { within = omega arith; fits = omega arith; wide = omega arith };
  writes = record { four = refl; whole = refl; within = omega arith };
}

module _ (slab : Slab Peer) where
  -- The list of the peers has the numbers of the table, each of them once; there is a limit to the
  -- numbers, and each peer is sound.
  pub record IsConsistent (s : Server slab) : Type 0 where
    pub listed : (k : ℕ) → count k s.peer_list ≡ one_if (is_some (slab.get k s.peers))
    pub small : (k : ℕ) → is_some (slab.get k s.peers) ≡ true → k < max_incoming_client
    pub sound : (k : ℕ) (p : Peer) → slab.get k s.peers ≡ some p → IsPeer p

  pub new_server-IsConsistent : IsConsistent (new_server slab)
  unfolding count
  new_server-IsConsistent = record {
    listed = λ k. rw (slab.get-new k) refl;
    small = λ k h. ground (arith, h, slab.get-new k);
    sound = λ k p h. ground (arith, h, slab.get-new k);
  }

  -- The list is as long as there are peers, and no longer than the limit.
  pub peer_list_bound :
      (s : Server slab) → IsConsistent s → length s.peer_list ≤ max_incoming_client
  peer_list_bound s v =
      length_at_most max_incoming_client s.peer_list (λ k. ground (arith, v.listed k))
        (λ k h. elim (Bool-cases (is_some (slab.get k s.peers))) [
          | inl there ↦ absurd (omega (arith, v.small k there))
          | inr gone ↦ v.listed k ∙ rw gone refl
        ])

  pub register-IsConsistent :
      (registered : Bool) (s : Server slab)
      → IsConsistent s
      → IsConsistent (register slab registered s).1
  unfolding register
  register-IsConsistent registered s v =
      elim (Bool-cases (leb max_incoming_client (slab.vacant_key s.peers))) [
        | inl many ↦ rw many v
        | inr room ↦ elim (Bool-cases registered) [
          | inl done ↦
              rw (room, done)
                (record {
                  listed = λ k. ground (
                    arith,
                    count_push k (slab.vacant_key s.peers) s.peer_list,
                    v.listed k,
                    slab.get-insert k new_peer s.peers,
                    slab.get-vacant_key s.peers,
                  );
                  small = λ k h. elim (Bool-cases (nat_beq (slab.vacant_key s.peers) k)) [
                    | inl same ↦ ground arith
                    | inr other ↦ v.small k (ground (arith, h, slab.get-insert k new_peer s.peers))
                  ];
                  sound = λ k q h. elim (Bool-cases (nat_beq (slab.vacant_key s.peers) k)) [
                    | inl same ↦
                        subst IsPeer
                          (some-injective new_peer q
                            (ground (arith, h, slab.get-insert k new_peer s.peers)))
                          new_peer-IsPeer
                    | inr other ↦
                        v.sound k q (ground (arith, h, slab.get-insert k new_peer s.peers))
                  ];
                })
          | inr lost ↦ rw (room, lost) v
        ]
      ]

  -- The peer under an occupied number changes.
  pub set-IsConsistent :
      (key : ℕ) (p p' : Peer) (s : Server slab)
      → IsConsistent s
      → slab.get key s.peers ≡ some p
      → IsPeer p'
      → IsConsistent (record s { peers = slab.set key p' s.peers })
  set-IsConsistent key p p' s v there sound = record {
    listed = λ k. ground (arith, v.listed k, there, slab.get-set key k p' p s.peers there);
    small = λ k h. ground (arith, v.small k, h, there, slab.get-set key k p' p s.peers there);
    sound = λ k q h. elim (Bool-cases (nat_beq key k)) [
      | inl same ↦
          subst IsPeer
            (some-injective p' q (ground (arith, h, slab.get-set key k p' p s.peers there))) sound
      | inr other ↦ v.sound k q (ground (arith, h, slab.get-set key k p' p s.peers there))
    ];
  }

  -- `disconnect` of an occupied number.
  pub disconnect-IsConsistent :
      (key : ℕ) (p : Peer) (s : Server slab)
      → IsConsistent s
      → slab.get key s.peers ≡ some p
      → (s' : Server slab) × (disconnect slab key s ≡ ok s') × IsConsistent s'
  unfolding disconnect peer_at
  disconnect-IsConsistent key p s v there =
      let (i, found, counts) =
        swap_remove-position key s.peer_list (ground (arith, v.listed key, there)) in
      let s' : Server slab = record s {
        peers = slab.remove key s.peers;
        peer_list = swap_remove i s.peer_list;
      } in
      let ran : disconnect slab key s ≡ ok s' = rw (there, found) in
      (
        s',
        ran,
        record {
          listed = λ k. ground (arith, v.listed k, there, counts k, slab.get-remove key k s.peers);
          small = λ k h. v.small k (ground (arith, h, slab.get-remove key k s.peers));
          sound = λ k q h. v.sound k q (ground (arith, h, slab.get-remove key k s.peers));
        },
      )
