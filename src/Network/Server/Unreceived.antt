-- ===== src/Network/Server/Unreceived.antt =====
-- src/network/server.rs: messages that no worker is left to take.
use f.Prelude.{
  Result, ℕ, ◌≡◌, refl, ap, ◌∙◌, Bool, false, Option, some, List, ◌∷◌, All, length, panic,
  >>=-of-ok, unwrap,
}
use f.Network.Peer.{new_reader, receive, frames}
use f.Network.Peer.Steps.{IsPayload}
use f.Network.Peer.Framing.{receive-frames}
use f.Network.Slab.{Slab}
use f.Network.Server.{
  Peer, ReadEnd, Readable, Writable, Event, token, socket_token, Server, send_all, peer_at,
  process_readable, if_contained, listen,
}
use f.Network.Server.Stale.{socket-handled}

module _ (slab : Slab Peer) where
  -- A socket that gives whole messages, when no worker holds the channel for them.
  abbrev pub unreceived : (ℕ → ℕ) → List (List ℕ) → ReadEnd → Readable
  unreceived choices ms end = record {
    bytes = frames ms;
    choices = choices;
    end = end;
    has_receiver = false;
  }

  process_readable-panics :
      (key : ℕ) (choices : ℕ → ℕ) (m : List ℕ) (ms : List (List ℕ)) (end : ReadEnd) (q : Peer)
      (s : Server slab)
      → slab.get key s.peers ≡ some q
      → q.reader ≡ new_reader
      → All IsPayload (m ∷ ms)
      → process_readable slab key (unreceived choices (m ∷ ms) end) s ≡ panic
  unfolding process_readable peer_at send_all
  process_readable-panics key choices m ms end q s there unread payloads =
      let pending = frames (m ∷ ms) in
      let (reader, received, rests) = receive-frames choices (m ∷ ms) payloads in
      >>=-of-ok (peer_at slab key s) _ (ap unwrap there)
      ∙ >>=-of-ok (receive choices (length pending) pending q.reader) _
          (ap (receive choices (length pending) pending) unread ∙ received)

  if_contained-there :
      {E : Type 0} (process : ℕ → E → Server slab → Result (Server slab)) (key : ℕ) (e : E)
      (q : Peer) (s : Server slab)
      → slab.get key s.peers ≡ some q
      → if_contained slab process key (some e) s ≡ process key e s
  unfolding if_contained
  if_contained-there process key e q s there = rw there refl

  -- Without a worker, the first message ends the server. When none holds the channel, as none does where
  -- the program has been started with no workers, and a peer that has not sent anything before sends one or
  -- more messages, in any pieces, the server panics at the event of its socket. The messages are not
  -- empty and shorter than 2 ^ 32 bytes.
  pub unreceived_panics :
      (key : ℕ) (choices : ℕ → ℕ) (m : List ℕ) (ms : List (List ℕ)) (end : ReadEnd)
      (w : Option Writable) (poll_ok : Bool) (events : List Event) (q : Peer) (s : Server slab)
      → slab.get key s.peers ≡ some q
      → q.reader ≡ new_reader
      → All IsPayload (m ∷ ms)
      → listen slab
          (token (socket_token key) (some (unreceived choices (m ∷ ms) end)) w poll_ok ∷ events)
          s
        ≡ panic
  unfolding listen
  unreceived_panics key choices m ms end w poll_ok events q s there unread payloads =
      rw (socket-handled slab key (some (unreceived choices (m ∷ ms) end)) w poll_ok s, contained)
        refl
    where
      contained :
          if_contained slab (process_readable slab) key (some (unreceived choices (m ∷ ms) end)) s
          ≡ panic
      contained =
          if_contained-there (process_readable slab) key (unreceived choices (m ∷ ms) end) q s there
          ∙ process_readable-panics key choices m ms end q s there unread payloads
