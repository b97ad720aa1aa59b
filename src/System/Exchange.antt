-- ===== src/System/Exchange.antt =====
-- A message on its way from one node to the worker of another one.
use f.Prelude.{
  true, ℕ, ◌+◌, ◌<◌, ◌≡◌, ap, some, List, [], ◌∷◌, ◌++◌, length, All, ok, >>=-of-ok, unwrap,
}
use f.Network.Message.{Message, Codec}
use f.Network.Peer.{new_reader, frame}
use f.Network.Peer.Steps.{IsPayload}
use f.Network.Peer.Writer.{WriteContext, new_writer, Outcome, complete, write}
use f.Network.Peer.Remaining.{Takes}
use f.Network.Slab.{Slab}
use f.Network.Server.{
  Peer, would_block, Server, broadcast_message, peer_at, process_control, process_readable,
}
use f.Network.Server.Invariant.{IsConsistent}
use f.Network.Server.Delivery.{broadcast-process_readable}
use f.Network.Worker.{Node, on_message, on_bytes}
use f.Externals.{Externals}

module _ (ext : Externals) (codec : Codec) (slab : Slab Peer) where
  -- A message that a consistent server broadcasts is serialised into the queue of a new peer, which writes
  -- it out in one call if its socket accepts something often enough. The server at the other end of the
  -- connection, which has a worker left and reads the bytes in any pieces, passes exactly one message on to
  -- its workers, with the number of the peer, and a worker handles it as the message that was broadcast.
  -- The list of the peers of that server stays as it is. The serialised message is not empty and shorter than 2 ^ 32
  -- bytes, and it is deserialised as the message.
  pub broadcast-on_bytes :
      (sender receiver : Server slab) (sender_key receiver_key : ℕ) (p q : Peer) (m : Message)
      (outcomes : List Outcome) (choices : ℕ → ℕ) (now : ℕ) (node : Node)
      → codec.deserialize (codec.serialize m) ≡ some m
      → IsConsistent slab sender
      → slab.get sender_key sender.peers ≡ some p
      → p.writer ≡ new_writer
      → slab.get receiver_key receiver.peers ≡ some q
      → q.reader ≡ new_reader
      → IsPayload (codec.serialize m)
      → All Takes outcomes
      → length (frame (codec.serialize m)) + 1 < length outcomes
      → (sender' : Server slab) × (p' : Peer) × (sent : List ℕ) × (ctx : WriteContext)
        × (receiver' : Server slab) × (bytes : List ℕ) × (process_control slab
              (broadcast_message (codec.serialize m))
              sender
            ≡ ok sender')
        × (peer_at slab sender_key sender' ≡ ok p')
        × (write outcomes p'.writer ≡ ok (sent, (complete, ctx)))
        × (process_readable slab receiver_key
              (record { bytes = sent; choices = choices; end = would_block; has_receiver = true })
              receiver
            ≡ ok receiver')
        × (receiver'.delivered ≡ receiver.delivered ++ (receiver_key, bytes) ∷ [])
        × (on_bytes ext codec now bytes node ≡ on_message ext now m node)
        × (receiver'.peer_list ≡ receiver.peer_list)
  unfolding on_bytes
  broadcast-on_bytes sender receiver sender_key receiver_key p q m outcomes choices now node decodes
        v there fresh here unread payload all enough =
      let (sender', p', sent, ctx, receiver', ran, taken, written, read, delivered, listed) =
        broadcast-process_readable slab sender receiver sender_key receiver_key p q
          (codec.serialize m) outcomes choices v there fresh here unread payload all enough in
      (
        sender',
        p',
        sent,
        ctx,
        receiver',
        codec.serialize m,
        ran,
        taken,
        written,
        read,
        delivered,
        >>=-of-ok (unwrap (codec.deserialize (codec.serialize m))) _ (ap unwrap decodes),
        listed,
      )
