-- ===== src/Network/Server.antt =====
-- src/network/server.rs: the table of connections and the event loop. What the sockets, the poll and the
-- channels do is part of each event. Messages for the workers are a list, each with the number of the peer
-- whose handle goes with it, in the order in which they are sent on the channel; the workers keep the other
-- side of it. An error that `listen` does not handle ends the
-- server, as a panic does, and is `panic` here.
pub mod Numbers
pub mod Invariant
pub mod Broadcast
pub mod Sockets
pub mod Events
pub mod Runs
pub mod Stale
pub mod Unreceived
pub mod Start
pub mod Delivery
pub mod Isolation
use f.Prelude.{
  ℕ, zero, suc, ◌+◌, ◌-◌, ◌*◌, ◌/◌, ◌%◌, Bool, true, false, not, Option, none, some, List, [], ◌∷◌,
  ◌++◌, map, length, nat_beq, leb, if◌then◌else◌, Result, ok, panic, ◌>>=◌, unwrap,
}
use f.HashMap.{is_some}
use f.Network.Peer.{ReadContext, new_reader, receive}
use f.Network.Peer.Writer.{
  WriteContext, new_writer, WriteResult, complete, eof, chan_closed, failed, Outcome, enqueue,
  write,
}
use f.Network.Slab.{Slab}

-- `peer::Context`: the two halves of a connection.
pub record Peer : Type 0 where
  pub reader : ReadContext
  pub writer : WriteContext

abbrev pub new_peer : Peer
new_peer = record { reader = new_reader; writer = new_writer }

abbrev pub max_incoming_client : ℕ
max_incoming_client = 256

-- `iter().position(|&x| x == id)`
unfoldable pub position : ℕ → List ℕ → Option ℕ
position id [] = none
position id (x ∷ xs) =
    if nat_beq x id then some 0 else elim (position id xs) [ none ↦ none | some i ↦ some (suc i) ]

-- The last element, and the list without it.
unfoldable pub split_last : ℕ → List ℕ → ℕ × List ℕ
split_last x [] = (x, [])
split_last x (y ∷ ys) = let (z, zs) = split_last y ys in (z, x ∷ zs)

-- `swap_remove(index)`, where the index is in range: the last element takes its place.
unfoldable pub swap_remove : ℕ → List ℕ → List ℕ
unfolding split_last
swap_remove i [] = []
swap_remove zero (x ∷ []) = []
swap_remove zero (x ∷ y ∷ ys) = let (z, zs) = split_last y ys in z ∷ zs
swap_remove (suc i) (x ∷ xs) = x ∷ swap_remove i xs

unfoldable pub socket_token : ℕ → ℕ
socket_token key = key * 2

unfoldable pub writer_token : ℕ → ℕ
writer_token key = key * 2 + 1

-- How the reading of a socket ends: with the error `WouldBlock`, with 0 bytes where the peer has closed
-- it, or with another error.
pub data ReadEnd : Type 0 where
  would_block closed broken : ReadEnd

-- What a readable socket gives: its bytes, how they are cut into reads, and how the reading ends; whether
-- a worker still holds the other side of the channel for the messages.
pub record Readable : Type 0 where
  pub bytes : List ℕ
  pub choices : ℕ → ℕ
  pub end : ReadEnd
  pub has_receiver : Bool

-- What a writable socket does; whether an error of `write` is `WouldBlock`; whether the poll takes
-- registrations.
pub record Writable : Type 0 where
  pub outcomes : List Outcome
  pub blocks : Bool
  pub poll_ok : Bool

-- A signal on the control channel. The connection attempt says whether the stream is established and
-- the registrations with the poll succeed.
pub data ControlSignal : Type 0 where
  connect_new_peer : (connected registered : Bool) → ControlSignal
  broadcast_message : List ℕ → ControlSignal

-- An event of the poll.
pub data Event : Type 0 where
  -- the signals on the channel, and whether its end is handled: it is empty, or it is closed and the poll
  -- lets go of it
  control : List ControlSignal → (drained : Bool) → Event
  -- the accepted connections, with whether each can be registered, and whether the next `accept` would
  -- block, or has another error
  incoming : List Bool → (blocks : Bool) → Event
  -- the number of a token, its readiness, and whether the poll takes a registration
  token : ℕ → Option Readable → Option Writable → (poll_ok : Bool) → Event

-- `new_msg_chan.send(…).unwrap()` for each message: without a worker that holds the channel, the first
-- message is a panic.
unfoldable pub send_all : Bool → ℕ → List (List ℕ) → List (ℕ × List ℕ) → Result (List (ℕ × List ℕ))
send_all true key ms delivered = ok (delivered ++ map (λ m. (key, m)) ms)
send_all false key [] delivered = ok delivered
send_all false key (m ∷ ms) delivered = panic

module _ (slab : Slab Peer) where
  pub record Server : Type 0 where
    pub peers : slab.State
    pub peer_list : List ℕ
    pub delivered : List (ℕ × List ℕ)

  -- `Context` as `new` makes it
  abbrev pub new_server : Server
  new_server = record { peers = slab.new; peer_list = []; delivered = [] }

  -- `register`: the key, or `none` for an error, after which nothing has changed.
  unfoldable pub register : Bool → Server → Option ℕ × Server
  register registered s =
      let key = slab.vacant_key s.peers in
      if leb max_incoming_client key then (none, s) else if not registered then (none, s) else (
        some key,
        record s { peers = slab.insert new_peer s.peers; peer_list = s.peer_list ++ key ∷ [] },
      )

  -- `connect`
  unfoldable pub connect : Bool → Bool → Server → Option ℕ × Server
  unfolding register
  connect connected registered s = if connected then register registered s else (none, s)

  -- `accept`: an error is only logged.
  unfoldable pub accept : Bool → Server → Server
  unfolding register
  accept registered s = let (key, s') = register registered s in s'

  -- `&mut self.peers[key]`
  unfoldable pub peer_at : ℕ → Server → Result Peer
  peer_at key s = unwrap (slab.get key s.peers)

  -- The broadcast to the peers of a list.
  unfoldable pub write_to : List ℕ → List ℕ → Server → Result Server
  unfolding peer_at enqueue
  write_to msg [] s = ok s
  write_to msg (key ∷ keys) s = do
    peer ← peer_at key s
    write_to msg keys (record s {
      peers = slab.set key (record peer { writer = enqueue msg peer.writer }) s.peers;
    })

  -- `process_control`
  unfoldable pub process_control : ControlSignal → Server → Result Server
  unfolding connect write_to
  process_control (connect_new_peer connected registered) s =
      let (handle, s') = connect connected registered s in ok s'
  process_control (broadcast_message msg) s = write_to msg s.peer_list s

  -- The removal of a peer, as it stands in each of four places. The slab panics for a key that is not
  -- occupied, as does `unwrap` where the list lacks it.
  unfoldable pub disconnect : ℕ → Server → Result Server
  unfolding peer_at position swap_remove
  disconnect key s = do
    peer ← peer_at key s
    index ← unwrap (position key s.peer_list)
    ok (record s { peers = slab.remove key s.peers; peer_list = swap_remove index s.peer_list })

  -- `process_readable`
  unfoldable pub process_readable : ℕ → Readable → Server → Result Server
  unfolding peer_at disconnect receive send_all
  process_readable key r s = do
    peer ← peer_at key s
    (still_open, (messages, reader)) ← receive r.choices (length r.bytes) r.bytes peer.reader
    delivered ← send_all r.has_receiver key messages s.delivered
    let s' = record s {
      peers = slab.set key (record peer { reader = reader }) s.peers;
      delivered = delivered;
    }
    if still_open
        then elim r.end [
          | would_block ↦ ok s'
          | closed ↦ disconnect key s'
          | broken ↦ disconnect key s'
        ]
        else disconnect key s'

  -- `process_writable`. A registration that fails ends the server.
  unfoldable pub process_writable : ℕ → Writable → Server → Result Server
  unfolding peer_at disconnect write
  process_writable key w s = do
    peer ← peer_at key s
    (sent, (result, writer)) ← write w.outcomes peer.writer
    let s' = record s { peers = slab.set key (record peer { writer = writer }) s.peers }
    elim result [
      | complete ↦ if w.poll_ok then ok s' else panic
      | chan_closed ↦ if w.poll_ok then ok s' else panic
      | eof ↦ disconnect key s'
      | failed ↦ if w.blocks then ok s' else disconnect key s'
    ]

  -- `register_write_interest`, and the `?` behind its call
  unfoldable pub register_write_interest : ℕ → Bool → Server → Result Server
  unfolding peer_at
  register_write_interest key registered s = do
    peer ← peer_at key s
    if registered then ok s else panic

  -- The part of an event on a socket for one kind of readiness, unless the peer is gone.
  unfoldable pub if_contained :
      {E : Type 0} → (ℕ → E → Server → Result Server) → ℕ → Option E → Server → Result Server
  if_contained process key none s = ok s
  if_contained process key (some e) s =
      if is_some (slab.get key s.peers) then process key e s else ok s

  -- The `continue` after a peer that is gone skips the rest of the event, where it would be gone, too.
  unfoldable pub handle_token :
      ℕ → Option Readable → Option Writable → Bool → Server → Result Server
  unfolding if_contained process_readable process_writable register_write_interest
  handle_token token_id readable writable registered s =
      let peer_id = token_id / 2 in
      let on_socket = (do
        s' ← if_contained process_readable peer_id readable s
        if_contained process_writable peer_id writable s') in
      if nat_beq (token_id % 2) 0 then on_socket else register_write_interest peer_id registered s

  unfoldable pub process_controls : List ControlSignal → Server → Result Server
  unfolding process_control
  process_controls [] s = ok s
  process_controls (c ∷ cs) s = do s' ← process_control c s; process_controls cs s'

  unfoldable pub accept_all : List Bool → Server → Server
  unfolding accept
  accept_all [] s = s
  accept_all (registered ∷ rest) s = accept_all rest (accept registered s)

  -- One event of `listen`.
  unfoldable pub handle_event : Event → Server → Result Server
  unfolding process_controls accept_all handle_token
  handle_event (control signals drained) s = do
    s' ← process_controls signals s
    if drained then ok s' else panic
  handle_event (incoming connections blocks) s =
      if blocks then ok (accept_all connections s) else panic
  handle_event (token token_id readable writable registered) s =
      handle_token token_id readable writable registered s

  -- The loop over the events.
  unfoldable pub listen : List Event → Server → Result Server
  unfolding handle_event
  listen [] s = ok s
  listen (e ∷ es) s = do s' ← handle_event e s; listen es s'
