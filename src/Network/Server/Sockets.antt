-- ===== src/Network/Server/Sockets.antt =====
-- src/network/server.rs: what an event on one connection keeps.
use f.Prelude.{
  ℕ, ◌≡◌, refl, sym, ap, ◌∙◌, ◌⊎◌, subst, Bool, true, false, Option, none, some, List, [], ◌∷◌,
  ◌++◌, map, arith, length, if◌then◌else◌, Bool-cases, inl, inr, Result, ok, panic, ◌>>=◌,
  >>=-of-ok, unwrap,
}
use mathlib.Core.List.{append-nil}
use f.HashMap.{is_some}
use f.Network.Peer.{ReadContext, receive}
use f.Network.Peer.Totality.{receive_total}
use f.Network.Peer.Writer.{WriteResult, complete, eof, chan_closed, failed, write}
use f.Network.Peer.Writing.{write_lem}
use f.Network.Slab.{Slab}
use f.Network.Server.{
  Peer, ReadEnd, would_block, closed, broken, Readable, Writable, Server, peer_at, disconnect,
  send_all, process_readable, process_writable, register_write_interest, if_contained,
}
use f.Network.Server.Invariant.{IsConsistent, set-IsConsistent, disconnect-IsConsistent}

module _ (slab : Slab Peer) where
  -- A result that is a consistent server.
  abbrev pub Safe : Result (Server slab) → Type 0
  Safe r = (s : Server slab) × (r ≡ ok s) × IsConsistent slab s

  deliver-IsConsistent :
      (messages : List (ℕ × List ℕ)) (s : Server slab)
      → IsConsistent slab s
      → IsConsistent slab (record s { delivered = messages })
  deliver-IsConsistent messages s v = record { listed = v.listed; small = v.small; sound = v.sound }

  -- The number of a peer that has just been assigned is occupied.
  set-there :
      (key : ℕ) (p p' : Peer) (s : Server slab)
      → slab.get key s.peers ≡ some p
      → slab.get key (slab.set key p' s.peers) ≡ some p'
  set-there key p p' s there = ground (arith, slab.get-set key key p' p s.peers there)

  -- A result that is a consistent server, or a panic for the reason `F`.
  abbrev pub Ends : Result (Server slab) → Type 0 → Type 0
  Ends r F = Safe r ⊎ ((r ≡ panic) × F)

  -- A message is read completely, and no worker holds the channel for it.
  abbrev pub Unsent : ℕ → Readable → Server slab → Type 0
  Unsent key r s =
      (p : Peer) × (still_open : Bool) × (m : List ℕ) × (ms : List (List ℕ))
      × (reader : ReadContext) × (r.has_receiver ≡ false)
      × (slab.get key s.peers ≡ some p)
      × (receive r.choices (length r.bytes) r.bytes p.reader ≡ ok (still_open, (m ∷ ms, reader)))

  send_all-cases :
      (open_channel : Bool) (key : ℕ) (ms : List (List ℕ)) (d : List (ℕ × List ℕ))
      → (send_all open_channel key ms d ≡ ok (d ++ map (λ m. (key, m)) ms))
        ⊎ ((open_channel ≡ false)
            × (m : List ℕ) × (rest : List (List ℕ)) × (ms ≡ m ∷ rest)
            × (send_all open_channel key ms d ≡ panic))
  unfolding send_all
  send_all-cases true key ms d = inl refl
  send_all-cases false key [] d = inl (ap ok (sym (append-nil d)))
  send_all-cases false key (m ∷ ms) d = inr (refl, m, ms, refl, refl)

  process_readable-Ends :
      (key : ℕ) (r : Readable) (p : Peer) (s : Server slab)
      → IsConsistent slab s
      → slab.get key s.peers ≡ some p
      → Ends (process_readable slab key r s) (Unsent key r s)
  unfolding process_readable peer_at
  process_readable-Ends key r p s v there =
      let sound = v.sound key p there in
      let (still_open, ms, reader, ran, reads) =
        receive_total r.choices (length r.bytes) r.bytes p.reader (omega arith) sound.reads in
      let p' : Peer = record p { reader = reader } in
      let kept =
        set-IsConsistent slab key p p' s v there
          (record { reads = reads; writes = sound.writes }) in
      let s' : Server slab = record s {
        peers = slab.set key p' s.peers;
        delivered = s.delivered ++ map (λ m. (key, m)) ms;
      } in
      let kept' : IsConsistent slab s' =
        deliver-IsConsistent (s.delivered ++ map (λ m. (key, m)) ms)
          (record s { peers = slab.set key p' s.peers }) kept in
      let gone = disconnect-IsConsistent slab key p' s' kept' (set-there key p p' s there) in
      let before =
        >>=-of-ok (peer_at slab key s) _ (ap unwrap there)
        ∙ >>=-of-ok (receive r.choices (length r.bytes) r.bytes p.reader) _ ran in
      elim (send_all-cases r.has_receiver key ms s.delivered) [
        | inl sent ↦ inl (
            subst Safe
              (sym (before ∙ >>=-of-ok (send_all r.has_receiver key ms s.delivered) _ sent))
              (ended still_open r.end s' kept' gone))
        | inr (no_worker, m, rest, some_message, panics) ↦ inr (
          before ∙ rw panics refl,
          (p, still_open, m, rest, reader, no_worker, there, rw some_message at ran),
        )
      ]
    where
      ended :
          (still_open : Bool) (end : ReadEnd) (s' : Server slab)
          → IsConsistent slab s'
          → Safe (disconnect slab key s')
          → Safe (
              if still_open
              then elim end [
                | would_block ↦ ok s'
                | closed ↦ disconnect slab key s'
                | broken ↦ disconnect slab key s'
              ]
              else disconnect slab key s')
      ended false end s' kept gone = gone
      ended true would_block s' kept gone = (s', refl, kept)
      ended true closed s' kept gone = gone
      ended true broken s' kept gone = gone

  granted-Ends :
      (granted : Bool) (s : Server slab)
      → IsConsistent slab s
      → Ends (if granted then ok s else panic) (granted ≡ false)
  granted-Ends true s v = inl (s, refl, v)
  granted-Ends false s v = inr (refl, refl)

  process_writable-Ends :
      (key : ℕ) (w : Writable) (p : Peer) (s : Server slab)
      → IsConsistent slab s
      → slab.get key s.peers ≡ some p
      → Ends (process_writable slab key w s) (w.poll_ok ≡ false)
  unfolding process_writable peer_at
  process_writable-Ends key w p s v there =
      let sound = v.sound key p there in
      let (sent, result, writer, ran, sends, leaves, writes) =
        write_lem w.outcomes p.writer sound.writes in
      let p' : Peer = record p { writer = writer } in
      let s' : Server slab = record s { peers = slab.set key p' s.peers } in
      let kept : IsConsistent slab s' =
        set-IsConsistent slab key p p' s v there
          (record { reads = sound.reads; writes = writes }) in
      let gone = disconnect-IsConsistent slab key p' s' kept (set-there key p p' s there) in
      subst (λ r. Ends r (w.poll_ok ≡ false))
        (sym (
          >>=-of-ok (peer_at slab key s) _ (ap unwrap there)
          ∙ >>=-of-ok (write w.outcomes p.writer) _ ran))
        (ended result s' kept gone)
    where
      ended :
          (result : WriteResult) (s' : Server slab)
          → IsConsistent slab s'
          → Safe (disconnect slab key s')
          → Ends
              (elim result [
                | complete ↦ if w.poll_ok then ok s' else panic
                | chan_closed ↦ if w.poll_ok then ok s' else panic
                | eof ↦ disconnect slab key s'
                | failed ↦ if w.blocks then ok s' else disconnect slab key s'
              ])
              (w.poll_ok ≡ false)
      ended complete s' kept gone = granted-Ends w.poll_ok s' kept
      ended chan_closed s' kept gone = granted-Ends w.poll_ok s' kept
      ended eof s' kept gone = inl gone
      ended failed s' kept gone = elim (Bool-cases w.blocks) [
        | inl blocked ↦ inl (s', rw blocked, kept)
        | inr lost ↦ inl (let (t, done, sound) = gone in (t, rw lost done, sound))
      ]

  if_contained-Ends :
      {E : Type 0} (process : ℕ → E → Server slab → Result (Server slab)) (key : ℕ)
      (event : Option E) (F : E → Type 0) (s : Server slab)
      → IsConsistent slab s
      → ((e : E) (p : Peer) → slab.get key s.peers ≡ some p → Ends (process key e s) (F e))
      → Ends (if_contained slab process key event s) ((e : E) × (event ≡ some e) × F e)
  unfolding if_contained
  if_contained-Ends process key none F s v ends = inl (s, refl, v)
  if_contained-Ends process key (some e) F s v ends = found (slab.get key s.peers) refl
    where
      with_event :
          Ends (process key e s) (F e)
          → Ends (process key e s) ((e' : _) × (some e ≡ some e') × F e')
      with_event (inl done) = inl done
      with_event (inr (panics, why)) = inr (panics, (e, refl, why))

      found :
          (o : Option Peer)
          → slab.get key s.peers ≡ o
          → Ends
              (if is_some (slab.get key s.peers) then process key e s else ok s)
              ((e' : _) × (some e ≡ some e') × F e')
      found none gone = inl (s, rw gone, v)
      found (some p) there = rw there (with_event (ends e p there))

  -- Why the handling of a socket panics: a message cannot be passed on, or the poll refuses to be asked for
  -- less after everything has been written.
  abbrev pub SocketCause : ℕ → Option Readable → Option Writable → Server slab → Type 0
  SocketCause key readable writable s =
      ((r : Readable) × (readable ≡ some r) × Unsent key r s)
      ⊎ ((w : Writable) × (writable ≡ some w) × (w.poll_ok ≡ false))

  pub on_socket-Ends :
      (key : ℕ) (readable : Option Readable) (writable : Option Writable) (s : Server slab)
      → IsConsistent slab s
      → Ends
          (if_contained slab (process_readable slab) key readable s
            >>= if_contained slab (process_writable slab) key writable)
          (SocketCause key readable writable s)
  on_socket-Ends key readable writable s v =
      elim (if_contained-Ends (process_readable slab) key readable (λ r. Unsent key r s) s v
        (λ r p there. process_readable-Ends key r p s v there)) [
          | inr (panics, why) ↦ inr (rw panics refl, inl why)
          | inl (s', ran, kept) ↦
              let before =
                >>=-of-ok (if_contained slab (process_readable slab) key readable s)
                  (if_contained slab (process_writable slab) key writable) ran in
              elim (if_contained-Ends (process_writable slab) key writable (λ w. w.poll_ok ≡ false)
                s' kept (λ w p there. process_writable-Ends key w p s' kept there)) [
                  | inl (end, ended, sound) ↦ inl (end, before ∙ ended, sound)
                  | inr (panics, why) ↦ inr (before ∙ panics, inr why)
                ]
        ]

  pub register_write_interest-Ends :
      (key : ℕ) (registered : Bool) (s : Server slab)
      → IsConsistent slab s
      → Ends
          (register_write_interest slab key registered s)
          ((slab.get key s.peers ≡ none) ⊎ (registered ≡ false))
  unfolding register_write_interest peer_at
  register_write_interest-Ends key registered s v = found (slab.get key s.peers) refl
    where
      found :
          (o : Option Peer)
          → slab.get key s.peers ≡ o
          → Ends
              (peer_at slab key s >>= (λ peer. if registered then ok s else panic))
              ((slab.get key s.peers ≡ none) ⊎ (registered ≡ false))
      found none gone = inr (rw gone refl, inl gone)
      found (some p) there = elim (Bool-cases registered) [
        | inl done ↦ inl (s, rw (there, done) refl, v)
        | inr refused ↦ inr (rw (there, refused) refl, inr refused)
      ]
