-- ===== src/Tests/Server.antt =====
-- The server on a concrete slab: the numbers are given out in order and not again.
use f.Prelude.{
  ℕ, suc, ◌+◌, ◌<◌, ◌≡◌, refl, true, false, Option, none, some, List, [], ◌∷◌, ◌++◌, length,
  replicate, nat_beq, ltb, if◌then◌else◌, All, ok, panic, arith,
}
use f.Network.Peer.{frame}
use f.Network.Peer.Writer.{WriteContext, Outcome, takes, complete, write}
use f.Network.Peer.Remaining.{Takes}
use f.Network.Slab.{Slab}
use f.Network.Server.{
  Readable, Peer, new_peer, would_block, closed, connect_new_peer, broadcast_message, Event,
  control, incoming, socket_token, writer_token, token, Server, new_server, accept_all, peer_at,
  process_control, process_readable, handle_event, listen,
}
use f.Network.Server.Invariant.{IsConsistent, new_server-IsConsistent}
use f.Network.Server.Events.{accept_all-IsConsistent}
use f.Network.Server.Isolation.{handle_event_isolated}
use f.Network.Server.Start.{start_listening, start_bound}
use f.Network.Server.Runs.{Ended}
use f.Network.Server.Unreceived.{unreceived, unreceived_panics}
use f.Network.Server.Numbers.{one_if, count}
use f.HashMap.{is_some}
use f.Network.Message.{Message, Codec, ping}
use f.Network.Worker.{on_message, on_bytes}
use f.System.Exchange.{broadcast-on_bytes}
use f.Tests.{toy}
use f.Tests.Pool.{fresh_node}

pub record Entries : Type 0 where
  pub next : ℕ
  pub find : ℕ → Option Peer

abbrev pub entry : ℕ → Entries → Option Peer
entry k s = if ltb k s.next then s.find k else none

abbrev pub toy_slab : Slab Peer
toy_slab = record {
  State = Entries;
  new = record { next = 0; find = λ k. none };
  vacant_key = λ s. s.next;
  insert = λ a s. record {
    next = suc s.next;
    find = λ k. if nat_beq s.next k then some a else s.find k;
  };
  get = entry;
  set = λ j a s. record s { find = λ k. if nat_beq j k then some a else s.find k };
  remove = λ j s. record s { find = λ k. if nat_beq j k then none else s.find k };
  get-new = λ k. ground arith;
  get-vacant_key = λ s. ground arith;
  get-insert = λ k a s. ground arith;
  get-set = λ j k a b s there. ground (arith, there);
  get-remove = λ j k s. ground arith;
}

abbrev pub with_peers : ℕ → Server toy_slab
with_peers n = accept_all toy_slab (replicate n true) (new_server toy_slab)

pub with_peers-IsConsistent : (n : ℕ) → IsConsistent toy_slab (with_peers n)
with_peers-IsConsistent n =
    accept_all-IsConsistent toy_slab (replicate n true) (new_server toy_slab)
      (new_server-IsConsistent toy_slab)

-- Two peers connect, a message is broadcast, the first peer is written to, and the second one leaves.
abbrev events : List Event
events =
    incoming (true ∷ true ∷ []) true
    ∷ control (broadcast_message (1 ∷ 2 ∷ []) ∷ connect_new_peer false true ∷ []) true
    ∷ token (writer_token 0) none none true
    ∷ token (socket_token 0)
        (some (record {
          bytes = 0 ∷ 0 ∷ [];
          choices = λ round. 0;
          end = would_block;
          has_receiver = true;
        }))
        (some (record { outcomes = takes 9 ∷ takes 9 ∷ []; blocks = true; poll_ok = true })) true
    ∷ token (socket_token 1)
        (some (record { bytes = []; choices = λ round. 0; end = closed; has_receiver = true })) none
        true
    ∷ []

start_bound_example :
    Ended toy_slab events
      (new_server toy_slab)
      (start_listening toy_slab true true true events (new_server toy_slab))
start_bound_example = start_bound toy_slab events

abbrev leaving : Readable
leaving = record { bytes = []; choices = λ round. 0; end = closed; has_receiver = true }

first_of_two : toy_slab.get 0 (with_peers 2).peers ≡ some new_peer
unfolding accept_all
first_of_two = refl

-- The first of two peers sends a message of two bytes to a server without workers.
unreceived_panics_example :
    listen toy_slab
      (token
          (socket_token 0)
          (some (unreceived toy_slab (λ round. 1) ((1 ∷ 2 ∷ []) ∷ []) would_block))
          none
          true
        ∷ [])
      (with_peers 2)
    ≡ panic
unreceived_panics_example =
    unreceived_panics toy_slab 0 (λ round. 1) (1 ∷ 2 ∷ []) [] would_block none true [] new_peer
      (with_peers 2) first_of_two refl ((omega arith, omega arith), tt)

abbrev outcomes : List Outcome
outcomes = replicate 9 (takes 2)

outcomes-Takes : All Takes outcomes
outcomes-Takes = (tt, (tt, (tt, (tt, (tt, (tt, (tt, (tt, (tt, tt)))))))))

pub second_there : toy_slab.get 1 (with_peers 2).peers ≡ some new_peer
unfolding accept_all
second_there = refl

first_there : toy_slab.get 0 (with_peers 1).peers ≡ some new_peer
unfolding accept_all
first_there = refl

few : length (frame (1 ∷ 2 ∷ [])) + 1 < length outcomes
unfolding frame
few = omega arith

-- Pings only.
abbrev pub encoded : Message → List ℕ
encoded (ping nonce) = 1 ∷ nonce
encoded _ = 0 ∷ []

abbrev pub decoded : List ℕ → Option Message
decoded (suc n ∷ nonce) = some (ping nonce)
decoded _ = none

abbrev pub toy_codec : Codec
toy_codec = record { serialize = encoded; deserialize = decoded }

broadcast-on_bytes_example :
    (sender' : Server toy_slab) × (p' : Peer) × (sent : List ℕ) × (ctx : WriteContext)
    × (receiver' : Server toy_slab) × (bytes : List ℕ) × (process_control toy_slab
          (broadcast_message (1 ∷ 2 ∷ []))
          (with_peers 2)
        ≡ ok sender')
    × (peer_at toy_slab 1 sender' ≡ ok p')
    × (write outcomes p'.writer ≡ ok (sent, (complete, ctx)))
    × (process_readable toy_slab 0
          (record { bytes = sent; choices = λ round. 1; end = would_block; has_receiver = true })
          (with_peers 1)
        ≡ ok receiver')
    × (receiver'.delivered ≡ (with_peers 1).delivered ++ (0, bytes) ∷ [])
    × (on_bytes toy toy_codec 9 bytes fresh_node ≡ on_message toy 9 (ping (2 ∷ [])) fresh_node)
    × (receiver'.peer_list ≡ (with_peers 1).peer_list)
broadcast-on_bytes_example =
    broadcast-on_bytes toy toy_codec toy_slab (with_peers 2) (with_peers 1) 1 0 new_peer new_peer
      (ping (2 ∷ [])) outcomes (λ round. 1) 9 fresh_node refl (with_peers-IsConsistent 2)
      second_there refl first_there refl (omega arith, omega arith) outcomes-Takes few

-- The first of two peers sends what cannot be a message and closes the connection.
abbrev closing : Option Readable
closing =
    some
      (record { bytes = 0 ∷ 0 ∷ 0 ∷ []; choices = λ round. 0; end = closed; has_receiver = true })

closed_first :
    (s' : Server toy_slab) × (handle_event toy_slab
        (token (socket_token 0) closing none true)
        (with_peers 2)
      ≡ ok s')
unfolding handle_event socket_token accept_all
closed_first = (_, refl)

handle_event_isolated_example :
    (toy_slab.get 1 closed_first.0.peers ≡ toy_slab.get 1 (with_peers 2).peers)
    × (count 1 closed_first.0.peer_list ≡ count 1 (with_peers 2).peer_list)
    × (count 1 (with_peers 2).peer_list ≡ one_if (is_some (toy_slab.get 1 (with_peers 2).peers)))
unfolding socket_token
handle_event_isolated_example =
    handle_event_isolated toy_slab (socket_token 0) closing none true (with_peers 2) closed_first.0
      1 (with_peers-IsConsistent 2) closed_first.1 refl
