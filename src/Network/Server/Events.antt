-- ===== src/Network/Server/Events.antt =====
-- src/network/server.rs: the handling of the events, from a server whose table and list agree.
use f.Prelude.{
  ℕ, ◌/◌, ◌%◌, ◌≡◌, refl, sym, ◌∙◌, subst, Bool, true, false, Option, none, List, [], ◌∷◌, nat_beq,
  if◌then◌else◌, Bool-cases, inl, inr, ok, panic, ok-injective, >>=-of-ok,
}
use f.Network.Slab.{Slab}
use f.Network.Server.{
  Peer, Readable, Writable, ControlSignal, connect_new_peer, broadcast_message, Event, control,
  incoming, token, Server, connect, accept, process_control, handle_token, process_controls,
  accept_all, handle_event,
}
use f.Network.Server.Sockets.{Safe, Ends, SocketCause, on_socket-Ends, register_write_interest-Ends}
use f.Network.Server.Broadcast.{broadcast_effect}
use f.Network.Server.Invariant.{IsConsistent, register-IsConsistent}

module _ (slab : Slab Peer) where
  connect_new_peer-Safe :
      (connected registered : Bool) (s : Server slab)
      → IsConsistent slab s
      → IsConsistent slab (connect slab connected registered s).1
  unfolding connect
  connect_new_peer-Safe true registered s v = register-IsConsistent slab registered s v
  connect_new_peer-Safe false registered s v = v

  process_control-Safe :
      (signal : ControlSignal) (s : Server slab)
      → IsConsistent slab s
      → Safe slab (process_control slab signal s)
  unfolding process_control
  process_control-Safe (connect_new_peer connected registered) s v = (
    (connect slab connected registered s).1,
    refl,
    connect_new_peer-Safe connected registered s v,
  )
  process_control-Safe (broadcast_message msg) s v =
      let (s', ran, found, same_list, same_delivered, kept) = broadcast_effect slab msg s v in
      (s', ran, kept)

  process_controls-Safe :
      (signals : List ControlSignal) (s : Server slab)
      → IsConsistent slab s
      → Safe slab (process_controls slab signals s)
  unfolding process_controls
  process_controls-Safe [] s v = (s, refl, v)
  process_controls-Safe (signal ∷ signals) s v =
      let (s', ran, kept) = process_control-Safe signal s v in
      let (end, all_ran, sound) = process_controls-Safe signals s' kept in
      (end, >>=-of-ok (process_control slab signal s) _ ran ∙ all_ran, sound)

  pub accept_all-IsConsistent :
      (connections : List Bool) (s : Server slab)
      → IsConsistent slab s
      → IsConsistent slab (accept_all slab connections s)
  unfolding accept_all accept
  accept_all-IsConsistent [] s v = v
  accept_all-IsConsistent (registered ∷ rest) s v =
      accept_all-IsConsistent rest (accept slab registered s)
        (register-IsConsistent slab registered s v)

  -- Why the handling of an event panics, or ends the server with an error.
  pub data Cause (s : Server slab) : Event → Type 0 where
    -- the closed control channel cannot be taken from the poll
    kept_control : (signals : List ControlSignal) → Cause s (control signals false)
    -- `accept` of the listener has an error of its own
    broken_listener : (connections : List Bool) → Cause s (incoming connections false)
    -- a message is complete, and no worker is left to take it, or the poll refuses to be asked for less
    on_socket :
        (token_id : ℕ) (readable : Option Readable) (writable : Option Writable) (poll_ok : Bool)
        → nat_beq (token_id % 2) 0 ≡ true
        → SocketCause slab (token_id / 2) readable writable s
        → Cause s (token token_id readable writable poll_ok)
    -- the peer of a queue is gone
    stale_queue :
        (token_id : ℕ) (readable : Option Readable) (writable : Option Writable) (poll_ok : Bool)
        → nat_beq (token_id % 2) 0 ≡ false
        → slab.get (token_id / 2) s.peers ≡ none
        → Cause s (token token_id readable writable poll_ok)
    -- the poll refuses to be asked for the writing of a peer
    refused :
        (token_id : ℕ) (readable : Option Readable) (writable : Option Writable)
        → nat_beq (token_id % 2) 0 ≡ false
        → Cause s (token token_id readable writable false)

  -- From a consistent server, the handling of an event leads to a consistent server, or it panics for one
  -- of the causes.
  pub handle_event-Ends :
      (event : Event) (s : Server slab)
      → IsConsistent slab s
      → Ends slab (handle_event slab event s) (Cause s event)
  unfolding handle_event handle_token
  handle_event-Ends (control signals drained) s v =
      let (s', ran, kept) = process_controls-Safe signals s v in
      let before =
        >>=-of-ok (process_controls slab signals s) (λ s'. if drained then ok s' else panic) ran in
      elim (Bool-cases drained) [
        | inl done ↦ inl (s', before ∙ rw done, kept)
        | inr stuck ↦ inr (
          before ∙ rw stuck,
          subst (λ (d : Bool). Cause s (control signals d)) (sym stuck) (kept_control signals),
        )
      ]
  handle_event-Ends (incoming connections true) s v =
      inl (accept_all slab connections s, refl, accept_all-IsConsistent connections s v)
  handle_event-Ends (incoming connections false) s v = inr (refl, broken_listener connections)
  handle_event-Ends (token token_id readable writable poll_ok) s v =
      elim (Bool-cases (nat_beq (token_id % 2) 0)) [
        | inl even ↦ elim (on_socket-Ends slab (token_id / 2) readable writable s v) [
          | inl (s', ran, kept) ↦ inl (s', rw even ran, kept)
          | inr (panics, why) ↦
              inr (rw even panics, on_socket token_id readable writable poll_ok even why)
        ]
        | inr odd ↦ elim (register_write_interest-Ends slab (token_id / 2) poll_ok s v) [
          | inl (s', ran, kept) ↦ inl (s', rw odd ran, kept)
          | inr (panics, inl gone) ↦
              inr (rw odd panics, stale_queue token_id readable writable poll_ok odd gone)
          | inr (panics, inr refusal) ↦ inr (
            rw odd panics,
            subst (λ (b : Bool). Cause s (token token_id readable writable b)) (sym refusal)
                (refused token_id readable writable odd),
          )
        ]
      ]

  -- Where an event is handled without a panic, the server is consistent again.
  pub handle_event-IsConsistent :
      (event : Event) (s s' : Server slab)
      → IsConsistent slab s
      → handle_event slab event s ≡ ok s'
      → IsConsistent slab s'
  handle_event-IsConsistent event s s' v e = elim (handle_event-Ends event s v) [
    | inl (t, ran, kept) ↦ subst (IsConsistent slab) (ok-injective (sym ran ∙ e)) kept
    | inr (panics, why) ↦ absurd (never (sym panics ∙ e))
  ]
    where
      never : panic ≡ ok s' → ⊥
      never h = cc
