-- ===== src/Network/Server/Stale.antt =====
-- src/network/server.rs: an event on the queue of a peer that is gone.
use f.Prelude.{◌>>=◌, ℕ, ◌*◌, ◌/◌, ◌%◌, ◌≡◌, refl, Bool, Option, arith}
use f.Network.Slab.{Slab}
use f.Network.Server.{
  Peer, Readable, Writable, token, socket_token, Server, process_readable, process_writable,
  if_contained, handle_token, handle_event,
}

module _ (slab : Slab Peer) where
  pub socket-handled :
      (key : ℕ) (r : Option Readable) (w : Option Writable) (b : Bool) (s : Server slab)
      → handle_event slab (token (socket_token key) r w b) s ≡ (
          if_contained slab (process_readable slab) key r s
          >>= if_contained slab (process_writable slab) key w)
  unfolding handle_event handle_token socket_token
  socket-handled key r w b s =
      let even : (key * 2) % 2 ≡ 0 = omega arith in
      let halved : (key * 2) / 2 ≡ key = omega arith in rw (even, halved) refl
