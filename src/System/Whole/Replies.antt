-- ===== src/System/Whole/Replies.antt =====
-- Where what a worker sends goes to.
use f.Prelude.{
  ℕ, ◌≡◌, refl, sym, ap, ◌∙◌, Bool, Bool-cases, inl, inr, Option, none, some, List, [], ◌∷◌, ◌++◌,
  map, arith, nat_beq, if◌then◌else◌, ok,
}
use mathlib.Core.List.{append_assoc, append-nil}
use f.Network.Message.{Message, Codec}
use f.Network.Slab.{Slab}
use f.Network.Server.{Peer, ControlSignal, broadcast_message, Server}
use f.Network.Server.Broadcast.{queued, with_queued}
use f.Network.Worker.{Node, Effect, write, broadcast, on_message}
use f.System.{act}
use f.System.Whole.{
  work, take_at, Program, write_to_peer, write_back, perform, act_for, handle_taken, step,
}
use f.Externals.{Externals, KeyPair}

-- The messages for the peer, and those for all peers.
pub written : List Effect → List Message
written [] = []
written (write m ∷ es) = m ∷ written es
written (broadcast m ∷ es) = written es

pub announced : List Effect → List Message
announced [] = []
announced (write m ∷ es) = announced es
announced (broadcast m ∷ es) = m ∷ announced es

module _ (ext : Externals) (codec : Codec) (slab : Slab Peer) where
  -- A peer, if it is there, with several messages at the end of its queue, in their order.
  unfoldable pub with_all : List Message → Option Peer → Option Peer
  with_all [] found = found
  with_all (m ∷ ms) found = with_all ms (with_queued (codec.serialize m) found)

  abbrev pub signal_of : Message → ControlSignal
  signal_of m = broadcast_message (codec.serialize m)

  get-write_back :
      (key k : ℕ) (m : Message) (s : Server slab)
      → slab.get k (write_back ext codec slab (some key) m s).peers ≡ (
          if nat_beq key k
          then with_queued (codec.serialize m) (slab.get k s.peers)
          else slab.get k s.peers)
  unfolding write_back write_to_peer
  get-write_back key k m s = to (slab.get key s.peers) refl
    where
      to :
          (found : Option Peer)
          → slab.get key s.peers ≡ found
          → slab.get k (write_to_peer ext codec slab key m found s).peers ≡ (
              if nat_beq key k
              then with_queued (codec.serialize m) (slab.get k s.peers)
              else slab.get k s.peers)
      to none there = elim (Bool-cases (nat_beq key k)) [
        | inl same ↦
            let here : slab.get k s.peers ≡ none = ground (arith, there) in rw (same, here) refl
        | inr other ↦ rw other refl
      ]
      to (some p) there =
          let changed = slab.get-set key k (queued (codec.serialize m) p) p s.peers there in
          elim (Bool-cases (nat_beq key k)) [
            | inl same ↦
                let here : slab.get k s.peers ≡ some p = ground (arith, there) in
                rw (same, here) (rw same at changed)
            | inr other ↦ rw other (rw other at changed)
          ]

  -- What is found under a number, where the peer of the message may have got replies.
  abbrev pub answered : Option ℕ → ℕ → List Message → Option Peer → Option Peer
  answered none k ms found = found
  answered (some key) k ms found = if nat_beq key k then with_all ms found else found

  get-write_back_any :
      (origin : Option ℕ) (k : ℕ) (m : Message) (s : Server slab)
      → slab.get k (write_back ext codec slab origin m s).peers
        ≡ answered origin k (m ∷ []) (slab.get k s.peers)
  unfolding write_back with_all
  get-write_back_any none k m s = refl
  get-write_back_any (some key) k m s = get-write_back key k m s

  answered_twice :
      (origin : Option ℕ) (k : ℕ) (m : Message) (ms : List Message) (found : Option Peer)
      → answered origin k ms (answered origin k (m ∷ []) found) ≡ answered origin k (m ∷ ms) found
  unfolding with_all
  answered_twice none k m ms found = refl
  answered_twice (some key) k m ms found = elim (Bool-cases (nat_beq key k)) [
    | inl same ↦ rw same refl
    | inr other ↦ rw other refl
  ]

  answered_nothing :
      (origin : Option ℕ) (k : ℕ) (found : Option Peer) → answered origin k [] found ≡ found
  unfolding with_all
  answered_nothing none k found = refl
  answered_nothing (some key) k found = ground arith

  write_back_rest :
      (origin : Option ℕ) (m : Message) (s : Server slab)
      → ((write_back ext codec slab origin m s).peer_list ≡ s.peer_list)
        × ((write_back ext codec slab origin m s).delivered ≡ s.delivered)
  unfolding write_back write_to_peer
  write_back_rest none m s = (refl, refl)
  write_back_rest (some key) m s = to (slab.get key s.peers)
    where
      to :
          (found : Option Peer)
          → ((write_to_peer ext codec slab key m found s).peer_list ≡ s.peer_list)
            × ((write_to_peer ext codec slab key m found s).delivered ≡ s.delivered)
      to none = (refl, refl)
      to (some p) = (refl, refl)

  -- What sending does: the replies go to the peer of the message, the broadcasts to the control channel,
  -- and nothing else changes.
  pub record Sent (origin : Option ℕ) (effects : List Effect) (p q : Program ext codec slab)
      : Type 0 where
    pub queues :
        (k : ℕ)
        → slab.get k q.server.peers
          ≡ answered origin k (written effects) (slab.get k p.server.peers)
    pub listed : q.server.peer_list ≡ p.server.peer_list
    pub passed_on : q.server.delivered ≡ p.server.delivered
    pub controls : q.controls ≡ p.controls ++ map signal_of (announced effects)
    pub shared : q.system ≡ p.system
    pub signals : q.signals ≡ p.signals

  pub perform-Sent :
      (origin : Option ℕ) (effects : List Effect) (p : Program ext codec slab)
      → Sent origin effects p (perform ext codec slab origin effects p)
  unfolding perform written announced
  perform-Sent origin [] p = record {
    queues = λ k. sym (answered_nothing origin k (slab.get k p.server.peers));
    listed = refl;
    passed_on = refl;
    controls = sym (append-nil p.controls);
    shared = refl;
    signals = refl;
  }
  perform-Sent origin (write m ∷ es) p =
      let v =
        perform-Sent origin es
          (record p { server = write_back ext codec slab origin m p.server }) in
      let (listed, passed_on) = write_back_rest origin m p.server in
      record {
        queues = λ k.
            v.queues k
            ∙ ap (answered origin k (written es)) (get-write_back_any origin k m p.server)
            ∙ answered_twice origin k m (written es) (slab.get k p.server.peers);
        listed = v.listed ∙ listed;
        passed_on = v.passed_on ∙ passed_on;
        controls = v.controls;
        shared = v.shared;
        signals = v.signals;
      }
  perform-Sent origin (broadcast m ∷ es) p =
      let v = perform-Sent origin es (record p { controls = p.controls ++ signal_of m ∷ [] }) in
      record {
        queues = v.queues;
        listed = v.listed;
        passed_on = v.passed_on;
        controls =
            v.controls ∙ append_assoc p.controls (signal_of m ∷ []) (map signal_of (announced es));
        shared = v.shared;
        signals = v.signals;
      }

  -- A worker that takes a message of the channel and handles it without a panic leaves the rest of the
  -- channel. Its replies are at the end of the queue of the peer that the message is from, in their
  -- order, unless that connection has gone, and its broadcasts are at the end of the control channel; no
  -- other queue changes, and the chain and the pool are those that the handler leaves.
  pub work-Sent :
      (controlled : KeyPair) (i now key : ℕ) (gone : Bool) (bytes : List ℕ)
      (rest : List (ℕ × List ℕ)) (m : Message) (node : Node) (effects : List Effect)
      (p : Program ext codec slab)
      → take_at i p.server.delivered ≡ some ((key, bytes), rest)
      → codec.deserialize bytes ≡ some m
      → on_message ext now m p.system.node ≡ ok (node, effects)
      → (q : Program ext codec slab) × (step ext codec slab controlled (work i now gone) p ≡ ok q)
        × Sent
            (if gone then none else some key)
            effects
            (record p {
              server = record p.server { delivered = rest };
              system = record p.system { node = node };
            })
            q
  unfolding step handle_taken act_for act
  work-Sent controlled i now key gone bytes rest m node effects p taken decoded handled = (
    perform ext codec slab (if gone then none else some key) effects (record p {
      server = record p.server { delivered = rest };
      system = record p.system { node = node };
    }),
    ap
          (λ (x : Option ((ℕ × List ℕ) × List (ℕ × List ℕ))).
            handle_taken ext codec slab controlled now gone x p)
          taken
        ∙ rw (decoded, handled) refl,
    perform-Sent (if gone then none else some key) effects _,
  )
