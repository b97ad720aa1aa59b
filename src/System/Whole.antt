-- ===== src/System/Whole.antt =====
-- The threads of src/main.rs with the channels between them: the server passes messages on to the workers,
-- what a thread sends goes to the queue of a peer or to the control channel of the server, and the HTTP
-- interface sends signals to the miner. The lists are the contents of the channels.
pub mod Steps
pub mod Runs
pub mod Requests
pub mod Replies
pub mod Delivery
pub mod Idle
pub mod Unasked
use f.Prelude.{
  ℕ, zero, suc, Bool, Option, none, some, List, [], ◌∷◌, ◌++◌, if◌then◌else◌, Result, ok, ◌>>=◌,
  unwrap,
}
use f.Transaction.{State}
use f.Network.Message.{Message, Codec}
use f.Network.Slab.{Slab}
use f.Network.Server.{
  Peer, ControlSignal, connect_new_peer, broadcast_message, Readable, Writable, Event, control,
  incoming, token, new_server, handle_event,
}
use f.Network.Server.Broadcast.{queued}
use f.Network.Worker.{Effect, write, broadcast}
use f.Miner
use f.Miner.{Incoming, signal, empty}
use f.Generator.{Entry}
use f.Api
use f.Api.{Url, serve}
use f.System.{System, Action, receive, mine, generate, new_system, act}
use f.Externals.{Externals, KeyPair}

-- What happens next, in one of the threads.
pub data Step : Type 0 where
  -- the three kinds of events in `listen`, as in `Event`; the signals are those in the control channel
  control_ready : (drained : Bool) → Step
  incoming_ready : List Bool → (blocks : Bool) → Step
  token_ready : ℕ → Option Readable → Option Writable → (poll_ok : Bool) → Step
  -- a worker handles a message that the server has passed on, the `i`-th that is left, since the workers
  -- need not come to the locks in the order of the channel; whether the connection has gone since then, of
  -- which the number may belong to another one
  work : (i now : ℕ) → (gone : Bool) → Step
  -- a round of the miner and one of the transaction generator
  mining : (now nonce : ℕ) → (choices : ℕ → ℕ) → Step
  generating : (random : KeyPair) → (iter : State → List Entry) → Step
  -- the thread for the known peers asks for a connection, with what comes of it
  request : (connected registered : Bool) → Step
  -- a request to the HTTP interface
  http : Option Url → Step

-- The `i`-th element, and the list without it.
unfoldable pub take_at {ℓ} : {A : Type ℓ} → ℕ → List A → Option (A × List A)
take_at i [] = none
take_at zero (x ∷ xs) = some (x, xs)
take_at (suc i) (x ∷ xs) = elim (take_at i xs) [ none ↦ none | some p ↦ some (p.0, x ∷ p.1) ]

-- `try_recv` of the miner, whose handle the HTTP interface keeps.
abbrev pub next_signal : List Miner.ControlSignal → Incoming × List Miner.ControlSignal
next_signal [] = (empty, [])
next_signal (s ∷ ss) = (signal s, ss)

module _ (ext : Externals) (codec : Codec) (slab : Slab Peer) where
  pub record Program : Type 0 where
    pub server : f.Network.Server.Server slab
    -- the control channel of the server
    pub controls : List ControlSignal
    pub system : System
    -- the control channel of the miner
    pub signals : List Miner.ControlSignal

  abbrev pub new_program : Program
  new_program = record {
    server = new_server slab;
    controls = [];
    system = new_system ext;
    signals = [];
  }

  unfoldable pub write_to_peer :
      ℕ → Message → Option Peer → f.Network.Server.Server slab → f.Network.Server.Server slab
  write_to_peer key m none s = s
  write_to_peer key m (some peer) s = record s {
    peers = slab.set key (queued (codec.serialize m) peer) s.peers;
  }

  -- `server::Handle::connect`, which then waits for the answer, and `server::Handle::broadcast`: a signal
  -- on the control channel of the server
  abbrev pub request_connection : Bool → Bool → Program → Program
  request_connection connected registered p = record p {
    controls = p.controls ++ connect_new_peer connected registered ∷ [];
  }

  abbrev pub request_broadcast : Message → Program → Program
  request_broadcast m p = record p {
    controls = p.controls ++ broadcast_message (codec.serialize m) ∷ [];
  }

  -- `miner::Handle::start` and `miner::Handle::exit`
  abbrev pub signal_miner : Miner.ControlSignal → Program → Program
  signal_miner s p = record p { signals = p.signals ++ s ∷ [] }

  -- `peer::Handle::write`, to the peer under a number, if it is still there. To one that is gone a message
  -- is not sent, which is only logged.
  unfoldable pub write_back :
      Option ℕ → Message → f.Network.Server.Server slab → f.Network.Server.Server slab
  unfolding write_to_peer
  write_back none m s = s
  write_back (some key) m s = write_to_peer key m (slab.get key s.peers) s

  -- What a thread sends; a worker has the number of the peer that its message is from.
  unfoldable pub perform : Option ℕ → List Effect → Program → Program
  unfolding write_back
  perform origin [] p = p
  perform origin (write m ∷ es) p =
      perform origin es (record p { server = write_back origin m p.server })
  perform origin (broadcast m ∷ es) p = perform origin es (request_broadcast m p)

  -- What a request to the HTTP interface sends. After the end of the miner nobody reads its signals; that
  -- the thread of such a request may panic has no effect on the others.
  unfoldable pub perform_http : List f.Api.Effect → Program → Program
  perform_http [] p = p
  perform_http (f.Api.Effect.to_miner s ∷ es) p = perform_http es (signal_miner s p)
  perform_http (f.Api.Effect.broadcast m ∷ es) p = perform_http es (request_broadcast m p)

  -- An action of a thread that has the locks, and what it sends.
  unfoldable pub act_for : KeyPair → Option ℕ → Action → Program → Result Program
  unfolding act perform
  act_for controlled origin a p = do
    (system, effects) ← act ext controlled a p.system
    ok (perform origin effects (record p { system = system }))

  -- An event of the server.
  unfoldable pub on_event : Event → Program → Result Program
  unfolding handle_event
  on_event e p = do server ← handle_event slab e p.server; ok (record p { server = server })

  -- A worker with the message that it has taken, of which the rest is left.
  unfoldable pub handle_taken :
      KeyPair → ℕ → Bool → Option ((ℕ × List ℕ) × List (ℕ × List ℕ)) → Program → Result Program
  unfolding act_for
  handle_taken controlled now gone none p = ok p
  handle_taken controlled now gone (some ((key, bytes), rest)) p = do
    message ← unwrap (codec.deserialize bytes)
    act_for controlled (if gone then none else some key) (receive now message)
        (record p { server = record p.server { delivered = rest } })

  unfoldable pub step : KeyPair → Step → Program → Result Program
  unfolding on_event take_at handle_taken act_for serve perform_http
  step controlled (control_ready drained) p =
      on_event (control p.controls drained) (record p { controls = [] })
  step controlled (incoming_ready connections blocks) p = on_event (incoming connections blocks) p
  step controlled (token_ready token_id readable writable poll_ok) p =
      on_event (token token_id readable writable poll_ok) p
  step controlled (work i now gone) p =
      handle_taken controlled now gone (take_at i p.server.delivered) p
  step controlled (mining now nonce choices) p =
      let (heard, rest) = next_signal p.signals in
      act_for controlled none (mine now nonce choices heard) (record p { signals = rest })
  step controlled (generating random iter) p = act_for controlled none (generate random iter) p
  step controlled (request connected registered) p = ok (request_connection connected registered p)
  step controlled (http url) p = ok (perform_http (serve url).0 p)

  unfoldable pub run : KeyPair → List Step → Program → Result Program
  unfolding step
  run controlled [] p = ok p
  run controlled (s ∷ steps) p = do p' ← step controlled s p; run controlled steps p'
