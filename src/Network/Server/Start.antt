-- ===== src/Network/Server/Start.antt =====
-- src/network/server.rs: the start of the event loop, in `Context::start` and at the top of `listen`.
use f.Prelude.{Bool, true, ◌&&◌, List, if◌then◌else◌, Result, panic}
use f.Network.Slab.{Slab}
use f.Network.Server.{Peer, Event, Server, new_server, listen}
use f.Network.Server.Invariant.{new_server-IsConsistent}
use f.Network.Server.Runs.{Ended, listen-Ended}

module _ (slab : Slab Peer) where
  -- Whether the listener can be bound to its address, and whether the poll takes the listener and the
  -- control channel. Each failure is an error of `listen`, of which the server thread ends.
  unfoldable pub start_listening :
      (bound listener_registered control_registered : Bool)
      → List Event
      → Server slab
      → Result (Server slab)
  unfolding listen
  start_listening bound listener_registered control_registered events s =
      if bound && (listener_registered && control_registered) then listen slab events s else panic

  -- A new server that is bound to its address and registered at the poll goes through any run of events.
  -- Either it gets through, or it ends with a panic or an error at one of the events, for one of these
  -- causes: the closed control channel cannot be taken from the poll, the listener has an error, a message
  -- is complete and no worker is left to take it, the poll refuses to change a registration, or the queue
  -- of a peer that is gone is readable. Up to there the table and the list of the peers agree, and there
  -- are at most 256 peers.
  pub start_bound :
      (events : List Event)
      → Ended slab events
          (new_server slab)
          (start_listening true true true events (new_server slab))
  unfolding start_listening
  start_bound events = listen-Ended slab events (new_server slab) (new_server-IsConsistent slab)
