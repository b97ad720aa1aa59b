-- ===== src/Network/Server/Isolation.antt =====
-- src/network/server.rs: what an event on a connection does to the other connections.
use f.Prelude.{
  ℕ, ◌/◌, ◌%◌, ◌≡◌, refl, sym, ap, ◌∙◌, Bool, true, false, Option, none, some, List, arith, length,
  nat_beq, if◌then◌else◌, Result, ok, panic, ◌>>=◌, >>=-eq-ok, ok-injective, unwrap, unwrap-eq-ok,
}
use f.HashMap.{is_some}
use f.Network.Peer.{receive}
use f.Network.Peer.Writer.{WriteResult, complete, eof, chan_closed, failed, write}
use f.Network.Slab.{Slab}
use f.Network.Server.{
  Peer, ReadEnd, would_block, closed, broken, Readable, Writable, token, Server, peer_at, position,
  disconnect, send_all, process_readable, process_writable, register_write_interest, if_contained,
  handle_token, handle_event,
}
use f.Network.Server.Numbers.{one_if, count}
use f.Network.Server.Invariant.{IsConsistent}
use f.Network.Server.Events.{handle_event-IsConsistent}

module _ (slab : Slab Peer) where
  -- From `s` on, only the peer under the number `key` has changed.
  abbrev pub OnlyAt : ℕ → Server slab → Result (Server slab) → Type 0
  OnlyAt key s r =
      (s' : Server slab) (j : ℕ)
      → r ≡ ok s'
      → nat_beq key j ≡ false
      → slab.get j s'.peers ≡ slab.get j s.peers

  same-OnlyAt : (key : ℕ) (s : Server slab) → OnlyAt key s (ok s)
  same-OnlyAt key s s' j e other =
      ap (λ (t : Server slab). slab.get j t.peers) (sym (ok-injective e))

  disconnect-OnlyAt :
      (key : ℕ) (s t : Server slab) → OnlyAt key s (ok t) → OnlyAt key s (disconnect slab key t)
  unfolding disconnect
  disconnect-OnlyAt key s t kept s' j e other =
      let (p, there, k) = >>=-eq-ok (peer_at slab key t) _ e in
      let (i, listed, k') = >>=-eq-ok (unwrap (position key t.peer_list)) _ k in
      ap (λ (u : Server slab). slab.get j u.peers) (sym (ok-injective k'))
      ∙ ground (arith, other, slab.get-remove key j t.peers)
      ∙ kept t j refl other

  -- A peer that is there is replaced.
  replaced-OnlyAt :
      (key : ℕ) (p p' : Peer) (s : Server slab) (messages : List (ℕ × List ℕ))
      → peer_at slab key s ≡ ok p
      → OnlyAt key s (ok (record s { peers = slab.set key p' s.peers; delivered = messages }))
  unfolding peer_at
  replaced-OnlyAt key p p' s messages there s' j e other =
      ap (λ (u : Server slab). slab.get j u.peers) (sym (ok-injective e))
      ∙ ground (
        arith,
        other,
        slab.get-set key j p' p s.peers (unwrap-eq-ok (slab.get key s.peers) there),
      )

  read_end-OnlyAt :
      (key : ℕ) (still_open : Bool) (end : ReadEnd) (s t : Server slab)
      → OnlyAt key s (ok t)
      → OnlyAt key s (
          if still_open
          then elim end [
            | would_block ↦ ok t
            | closed ↦ disconnect slab key t
            | broken ↦ disconnect slab key t
          ]
          else disconnect slab key t)
  read_end-OnlyAt key false end s t kept = disconnect-OnlyAt key s t kept
  read_end-OnlyAt key true would_block s t kept = kept
  read_end-OnlyAt key true closed s t kept = disconnect-OnlyAt key s t kept
  read_end-OnlyAt key true broken s t kept = disconnect-OnlyAt key s t kept

  process_readable-OnlyAt :
      (key : ℕ) (r : Readable) (s : Server slab) → OnlyAt key s (process_readable slab key r s)
  unfolding process_readable
  process_readable-OnlyAt key r s s' j e other =
      let (p, there, k) = >>=-eq-ok (peer_at slab key s) _ e in
      let ((still_open, (ms, reader)), ran, k') =
        >>=-eq-ok (receive r.choices (length r.bytes) r.bytes p.reader) _ k in
      let (messages, sent, k'') = >>=-eq-ok (send_all r.has_receiver key ms s.delivered) _ k' in
      let p' : Peer = record p { reader = reader } in
      let t : Server slab = record s { peers = slab.set key p' s.peers; delivered = messages } in
      read_end-OnlyAt key still_open r.end s t (replaced-OnlyAt key p p' s messages there) s' j k''
        other

  if-OnlyAt :
      (key : ℕ) (b : Bool) (s : Server slab) (x y : Result (Server slab))
      → OnlyAt key s x
      → OnlyAt key s y
      → OnlyAt key s (if b then x else y)
  if-OnlyAt key true s x y hx hy = hx
  if-OnlyAt key false s x y hx hy = hy

  panic-OnlyAt : (key : ℕ) (s : Server slab) → OnlyAt key s panic
  panic-OnlyAt key s s' j e other = cc

  write_end-OnlyAt :
      (key : ℕ) (w : Writable) (result : WriteResult) (s t : Server slab)
      → OnlyAt key s (ok t)
      → OnlyAt key s (elim result [
        | complete ↦ if w.poll_ok then ok t else panic
        | chan_closed ↦ if w.poll_ok then ok t else panic
        | eof ↦ disconnect slab key t
        | failed ↦ if w.blocks then ok t else disconnect slab key t
      ])
  write_end-OnlyAt key w complete s t kept = if-OnlyAt key w.poll_ok s _ _ kept (panic-OnlyAt key s)
  write_end-OnlyAt key w chan_closed s t kept =
      if-OnlyAt key w.poll_ok s _ _ kept (panic-OnlyAt key s)
  write_end-OnlyAt key w eof s t kept = disconnect-OnlyAt key s t kept
  write_end-OnlyAt key w failed s t kept =
      if-OnlyAt key w.blocks s _ _ kept (disconnect-OnlyAt key s t kept)

  process_writable-OnlyAt :
      (key : ℕ) (w : Writable) (s : Server slab) → OnlyAt key s (process_writable slab key w s)
  unfolding process_writable
  process_writable-OnlyAt key w s s' j e other =
      let (p, there, k) = >>=-eq-ok (peer_at slab key s) _ e in
      let ((sent, (result, writer)), ran, k') = >>=-eq-ok (write w.outcomes p.writer) _ k in
      let p' : Peer = record p { writer = writer } in
      let t : Server slab = record s { peers = slab.set key p' s.peers } in
      write_end-OnlyAt key w result s t (replaced-OnlyAt key p p' s s.delivered there) s' j k' other

  if_contained-OnlyAt :
      {E : Type 0} (process : ℕ → E → Server slab → Result (Server slab)) (key : ℕ)
      (event : Option E) (s : Server slab)
      → ((e : E) → OnlyAt key s (process key e s))
      → OnlyAt key s (if_contained slab process key event s)
  unfolding if_contained
  if_contained-OnlyAt process key none s kept = same-OnlyAt key s
  if_contained-OnlyAt process key (some e) s kept =
      if-OnlyAt key (is_some (slab.get key s.peers)) s _ _ (kept e) (same-OnlyAt key s)

  on_socket-OnlyAt :
      (key : ℕ) (readable : Option Readable) (writable : Option Writable) (s : Server slab)
      → OnlyAt key s (
          if_contained slab (process_readable slab) key readable s
          >>= if_contained slab (process_writable slab) key writable)
  on_socket-OnlyAt key readable writable s s' j e other =
      let (t, ran, k) = >>=-eq-ok (if_contained slab (process_readable slab) key readable s) _ e in
      if_contained-OnlyAt (process_writable slab) key writable t
        (λ w. process_writable-OnlyAt key w t) s' j k other
      ∙ if_contained-OnlyAt (process_readable slab) key readable s
          (λ r. process_readable-OnlyAt key r s) t j ran other

  register_write_interest-OnlyAt :
      (key : ℕ) (registered : Bool) (s : Server slab)
      → OnlyAt key s (register_write_interest slab key registered s)
  unfolding register_write_interest
  register_write_interest-OnlyAt key registered s s' j e other =
      let (p, there, k) = >>=-eq-ok (peer_at slab key s) _ e in
      if-OnlyAt key registered s _ _ (same-OnlyAt key s) (panic-OnlyAt key s) s' j k other

  handle_token-OnlyAt :
      (token_id : ℕ) (readable : Option Readable) (writable : Option Writable) (registered : Bool)
      (s : Server slab)
      → OnlyAt (token_id / 2) s (handle_token slab token_id readable writable registered s)
  unfolding handle_token
  handle_token-OnlyAt token_id readable writable registered s =
      if-OnlyAt (token_id / 2) (nat_beq (token_id % 2) 0) s _ _
        (on_socket-OnlyAt (token_id / 2) readable writable s)
        (register_write_interest-OnlyAt (token_id / 2) registered s)

  -- In a consistent server, an event on the socket or on the queue of one peer that is handled without a
  -- panic, whatever the peer sends or accepts and however the connection ends, leaves every other peer as it
  -- is, with what has been read from it and what is queued for it. It disconnects none of them: each stands
  -- in the list to which messages are broadcast as often as before, once where it is connected.
  pub handle_event_isolated :
      (token_id : ℕ) (readable : Option Readable) (writable : Option Writable) (registered : Bool)
      (s s' : Server slab) (other : ℕ)
      → IsConsistent slab s
      → handle_event slab (token token_id readable writable registered) s ≡ ok s'
      → nat_beq (token_id / 2) other ≡ false
      → (slab.get other s'.peers ≡ slab.get other s.peers)
        × (count other s'.peer_list ≡ count other s.peer_list)
        × (count other s.peer_list ≡ one_if (is_some (slab.get other s.peers)))
  unfolding handle_event
  handle_event_isolated token_id readable writable registered s s' other v e different =
      let same = handle_token-OnlyAt token_id readable writable registered s s' other e different in
      let kept =
        handle_event-IsConsistent slab (token token_id readable writable registered) s s' v e in
      (
        same,
        kept.listed other
            ∙ ap (λ (o : Option Peer). one_if (is_some o)) same
            ∙ sym (v.listed other),
        v.listed other,
      )
