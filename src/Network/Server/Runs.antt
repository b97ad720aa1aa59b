-- ===== src/Network/Server/Runs.antt =====
-- src/network/server.rs: runs of the event loop, and the limit to the connections.
use f.Prelude.{
  suc, ◌≤◌, ◌≡◌, refl, ◌∙◌, Bool, true, false, List, [], ◌∷◌, arith, length, length-append, leb,
  inl, inr, Result, ok, panic, ap, ◌++◌, >>=-of-ok,
}
use f.Network.Slab.{Slab}
use f.Network.Server.{
  Peer, max_incoming_client, Event, Server, register, accept, handle_event, listen,
}
use f.Network.Server.Invariant.{IsConsistent, peer_list_bound, register-IsConsistent}
use f.Network.Server.Events.{Cause, handle_event-Ends}

module _ (slab : Slab Peer) where
  -- How a run of events ends: it returns, or it stops with a panic at an event that has a cause for it.
  pub data Ended (events : List Event) (s : Server slab) (r : Result (Server slab)) : Type 0 where
    returned :
        (s' : Server slab)
        → r ≡ ok s'
        → IsConsistent slab s'
        → length s'.peer_list ≤ max_incoming_client
        → Ended events s r
    stopped :
        (before after : List Event) (e : Event) (q : Server slab)
        → events ≡ before ++ e ∷ after
        → listen slab before s ≡ ok q
        → IsConsistent slab q
        → length q.peer_list ≤ max_incoming_client
        → Cause slab q e
        → r ≡ panic
        → Ended events s r

  pub listen-Ended :
      (events : List Event) (s : Server slab)
      → IsConsistent slab s
      → Ended events s (listen slab events s)
  unfolding listen
  listen-Ended [] s v = returned s refl v (peer_list_bound slab s v)
  listen-Ended (e ∷ es) s v = elim (handle_event-Ends slab e s v) [
    | inr (panics, why) ↦
        stopped [] es e s refl refl v (peer_list_bound slab s v) why (rw panics refl)
    | inl (t, ran, kept) ↦
        after t (>>=-of-ok (handle_event slab e s) (listen slab es) ran) ran
          (listen-Ended es t kept)
  ]
    where
      after :
          (t : Server slab)
          → listen slab (e ∷ es) s ≡ listen slab es t
          → handle_event slab e s ≡ ok t
          → Ended es t (listen slab es t)
          → Ended (e ∷ es) s (listen slab (e ∷ es) s)
      after t same ran (returned s' done kept few) = returned s' (same ∙ done) kept few
      after t same ran (stopped before rest e' q split reached kept few why panics) =
          stopped (e ∷ before) rest e' q (ap (λ (l : List Event). e ∷ l) split)
            (>>=-of-ok (handle_event slab e s) (listen slab before) ran ∙ reached) kept few why
            (same ∙ panics)

  -- A consistent server with 256 peers accepts no further connection and stays as it is.
  pub accept_full :
      (registered : Bool) (s : Server slab)
      → IsConsistent slab s
      → length s.peer_list ≡ max_incoming_client
      → accept slab registered s ≡ s
  unfolding accept register
  accept_full false s v full = unlisted (leb max_incoming_client (slab.vacant_key s.peers)) refl
    where
      unlisted :
          (many : Bool)
          → leb max_incoming_client (slab.vacant_key s.peers) ≡ many
          → (register slab false s).1 ≡ s
      unlisted true h = rw h
      unlisted false h = rw h
  accept_full true s v full = no_room (leb max_incoming_client (slab.vacant_key s.peers)) refl
    where
      no_room :
          (many : Bool)
          → leb max_incoming_client (slab.vacant_key s.peers) ≡ many
          → (register slab true s).1 ≡ s
      no_room true h = rw h
      no_room false h =
          let kept = register-IsConsistent slab true s v in
          let grown : length (register slab true s).1.peer_list ≡ suc (length s.peer_list) =
            rw h (omega (arith, length-append s.peer_list (slab.vacant_key s.peers ∷ []))) in
          absurd (omega (arith, peer_list_bound slab (register slab true s).1 kept))
