-- ===== src/Network/Server/Delivery.antt =====
-- src/network/server.rs: messages from one server to another.
use f.Prelude.{
  true, ℕ, ◌+◌, ◌<◌, ◌≡◌, refl, ap, ◌∙◌, some, List, [], ◌∷◌, ◌++◌, arith, length, length-append,
  All, ok, >>=-of-ok, unwrap,
}
use f.Network.Peer.{new_reader, receive, frame, frames}
use f.Network.Peer.Steps.{IsPayload}
use f.Network.Peer.Writer.{WriteContext, new_writer, Outcome, complete, enqueue, write}
use f.Network.Peer.Remaining.{Takes}
use f.Network.Peer.Writing.{enqueue_all, write-receive}
use f.Network.Slab.{Slab}
use f.Network.Server.{
  send_all, Peer, would_block, Server, broadcast_message, peer_at, process_control,
  process_readable,
}
use f.Network.Server.Invariant.{IsConsistent}
use f.Network.Server.Broadcast.{queued, with_queued, broadcast_effect}

module _ (slab : Slab Peer) where
  -- A message that is broadcast by a consistent server is put into the queue of a new peer, which writes
  -- it out in one call if its socket accepts something often enough. A server at the other end of the
  -- connection, which has a worker left and reads the bytes in any pieces, passes exactly this message on to
  -- the workers, with the number of the peer, and its list of peers stays as it is. The message is not empty
  -- and shorter than 2 ^ 32 bytes.
  pub broadcast-process_readable :
      (sender receiver : Server slab) (sender_key receiver_key : ℕ) (p q : Peer) (msg : List ℕ)
      (outcomes : List Outcome) (choices : ℕ → ℕ)
      → IsConsistent slab sender
      → slab.get sender_key sender.peers ≡ some p
      → p.writer ≡ new_writer
      → slab.get receiver_key receiver.peers ≡ some q
      → q.reader ≡ new_reader
      → IsPayload msg
      → All Takes outcomes
      → length (frame msg) + 1 < length outcomes
      → (sender' : Server slab) × (p' : Peer) × (sent : List ℕ) × (ctx : WriteContext)
        × (receiver' : Server slab) × (process_control slab (broadcast_message msg) sender
            ≡ ok sender')
        × (peer_at slab sender_key sender' ≡ ok p')
        × (write outcomes p'.writer ≡ ok (sent, (complete, ctx)))
        × (process_readable slab receiver_key
              (record { bytes = sent; choices = choices; end = would_block; has_receiver = true })
              receiver
            ≡ ok receiver')
        × (receiver'.delivered ≡ receiver.delivered ++ (receiver_key, msg) ∷ [])
        × (receiver'.peer_list ≡ receiver.peer_list)
  unfolding process_readable peer_at frames send_all
  broadcast-process_readable sender receiver sender_key receiver_key p q msg outcomes choices v
        there fresh here unread payload all enough =
      let (sender', ran, found, same_list, same_delivered, kept) =
        broadcast_effect slab msg sender v in
      let (sent, ctx, end, written, received, quiet) =
        write-receive (msg ∷ []) outcomes choices (payload, tt) all
          (omega (arith, length-append (frame msg) [])) in
      (
        sender',
        queued msg p,
        sent,
        ctx,
        record receiver {
          peers = slab.set receiver_key (record q { reader = end }) receiver.peers;
          delivered = receiver.delivered ++ (receiver_key, msg) ∷ [];
        },
        ran,
        ap unwrap (found sender_key ∙ ap (with_queued msg) there),
        ap (λ (w : WriteContext). write outcomes (enqueue msg w)) fresh
            ∙ unfold enqueue_all in written,
        >>=-of-ok (peer_at slab receiver_key receiver) _ (ap unwrap here)
            ∙ >>=-of-ok (receive choices (length sent) sent q.reader) _
                (ap (receive choices (length sent) sent) unread ∙ received),
        refl,
        refl,
      )
