-- ===== src/System/Whole/Steps.antt =====
-- What the threads keep when what they send is delivered.
use f.Prelude.{
  ℕ, ◌≡◌, ◌⊎◌, inl, inr, refl, Bool, true, Option, none, some, List, [], ◌∷◌, Result, ok, panic,
  out_of_fuel, >>=-of-ok,
}
use f.Transaction.{State}
use f.Network.Message.{Message, Codec}
use f.Network.Slab.{Slab}
use f.Network.Server.{
  Peer, Readable, Writable, Event, control, incoming, token, Server, handle_event,
}
use f.Network.Server.Broadcast.{queued, queued-IsPeer}
use f.Network.Server.Events.{Cause, handle_event-Ends}
use f.Network.Server.Invariant.{IsConsistent, set-IsConsistent}
use f.Network.Worker.{Effect, write, broadcast}
use f.Blockchain.Reach.{Reachable-IsWellFormed}
use f.Api
use f.Api.{Url, serve}
use f.System.{System, Action, receive, mine, generate, act}
use f.Blockchain.Work.{AllWorked}
use f.System.Work.{act-AllWorked}
use f.System.Runs.{IsSound, is_regular, act-IsSound}
use f.System.Fuel.{act-ne-out_of_fuel}
use f.System.Whole.{
  Step, control_ready, incoming_ready, token_ready, work, mining, generating, take_at, next_signal,
  Program, write_to_peer, write_back, perform, perform_http, act_for, on_event,
}
use f.Externals.{Externals, KeyPair}

module _ (ext : Externals) (codec : Codec) (slab : Slab Peer) where
  -- The table of the connections agrees with the list of the peers, what the threads share is sound, and
  -- the blocks have their work.
  pub record IsWell (p : Program ext codec slab) : Type 0 where
    pub server : IsConsistent slab p.server
    pub system : IsSound ext p.system
    pub worked : AllWorked ext p.system.node.blockchain

  -- What the data structures grant a step: to a message or a round of the miner what `is_regular` says.
  abbrev pub is_allowed : Step → Program ext codec slab → Bool
  is_allowed (work i now gone) p = elim (take_at i p.server.delivered) [
    | none ↦ true
    | some ((key, bytes), rest) ↦ elim (codec.deserialize bytes) [
      | none ↦ true
      | some message ↦ is_regular ext (receive now message) p.system
    ]
  ]
  is_allowed (mining now nonce choices) p =
      is_regular ext (mine now nonce choices (next_signal p.signals).0) p.system
  is_allowed _ p = true

  -- A thread panics: a worker, the miner or the generator, or the server for one of the causes that its
  -- event may have.
  pub data Fails (controlled : KeyPair) (p : Program ext codec slab) : Step → Type 0 where
    undecoded :
        (i now : ℕ) (gone : Bool) (key : ℕ) (bytes : List ℕ) (rest : List (ℕ × List ℕ))
        → take_at i p.server.delivered ≡ some ((key, bytes), rest)
        → codec.deserialize bytes ≡ none
        → Fails controlled p (work i now gone)
    worker :
        (i now : ℕ) (gone : Bool) (key : ℕ) (bytes : List ℕ) (rest : List (ℕ × List ℕ))
        (m : Message)
        → take_at i p.server.delivered ≡ some ((key, bytes), rest)
        → codec.deserialize bytes ≡ some m
        → act ext controlled (receive now m) p.system ≡ panic
        → Fails controlled p (work i now gone)
    miner :
        (now nonce : ℕ) (choices : ℕ → ℕ)
        → act ext controlled (mine now nonce choices (next_signal p.signals).0) p.system ≡ panic
        → Fails controlled p (mining now nonce choices)
    generator :
        (random : KeyPair) (iter : State → List f.Generator.Entry)
        → act ext controlled (generate random iter) p.system ≡ panic
        → Fails controlled p (generating random iter)
    on_controls :
        (drained : Bool)
        → Cause slab p.server (control p.controls drained)
        → Fails controlled p (control_ready drained)
    on_incoming :
        (connections : List Bool) (blocks : Bool)
        → Cause slab p.server (incoming connections blocks)
        → Fails controlled p (incoming_ready connections blocks)
    on_token :
        (token_id : ℕ) (readable : Option Readable) (writable : Option Writable) (poll_ok : Bool)
        → Cause slab p.server (token token_id readable writable poll_ok)
        → Fails controlled p (token_ready token_id readable writable poll_ok)

  write_back-IsConsistent :
      (origin : Option ℕ) (m : Message) (s : Server slab)
      → IsConsistent slab s
      → IsConsistent slab (write_back ext codec slab origin m s)
  unfolding write_back write_to_peer
  write_back-IsConsistent none m s v = v
  write_back-IsConsistent (some key) m s v = to (slab.get key s.peers) refl
    where
      to :
          (found : Option Peer)
          → slab.get key s.peers ≡ found
          → IsConsistent slab (write_to_peer ext codec slab key m found s)
      to none there = v
      to (some peer) there =
          set-IsConsistent slab key peer (queued (codec.serialize m) peer) s v there
            (queued-IsPeer (codec.serialize m) peer (v.sound key peer there))

  pub perform-IsConsistent :
      (origin : Option ℕ) (effects : List Effect) (p : Program ext codec slab)
      → IsConsistent slab p.server
      → IsConsistent slab (perform ext codec slab origin effects p).server
  unfolding perform
  perform-IsConsistent origin [] p v = v
  perform-IsConsistent origin (write m ∷ es) p v =
      perform-IsConsistent origin es _ (write_back-IsConsistent origin m p.server v)
  perform-IsConsistent origin (broadcast m ∷ es) p v = perform-IsConsistent origin es _ v

  perform-IsWell :
      (origin : Option ℕ) (effects : List Effect) (p : Program ext codec slab)
      → IsWell p
      → IsWell (perform ext codec slab origin effects p)
  unfolding perform
  perform-IsWell origin [] p v = v
  perform-IsWell origin (write m ∷ es) p v = perform-IsWell origin es _ (record {
    server = write_back-IsConsistent origin m p.server v.server;
    system = v.system;
    worked = v.worked;
  })
  perform-IsWell origin (broadcast m ∷ es) p v =
      perform-IsWell origin es _
        (record { server = v.server; system = v.system; worked = v.worked })

  pub perform_http-IsWell :
      (effects : List f.Api.Effect) (p : Program ext codec slab)
      → IsWell p
      → IsWell (perform_http ext codec slab effects p)
  unfolding perform_http
  perform_http-IsWell [] p v = v
  perform_http-IsWell (f.Api.Effect.to_miner s ∷ es) p v =
      perform_http-IsWell es _ (record { server = v.server; system = v.system; worked = v.worked })
  perform_http-IsWell (f.Api.Effect.broadcast m ∷ es) p v =
      perform_http-IsWell es _ (record { server = v.server; system = v.system; worked = v.worked })

  -- A step leads to a program that is well, or panics for the reason `F`.
  abbrev pub Ends : Result (Program ext codec slab) → Type 0 → Type 0
  Ends r F = ((q : Program ext codec slab) × (r ≡ ok q) × IsWell q) ⊎ ((r ≡ panic) × F)

  pub act_for-Ends :
      (controlled : KeyPair) (origin : Option ℕ) (a : Action) (p : Program ext codec slab)
      → IsWell p
      → is_regular ext a p.system ≡ true
      → Ends (act_for ext codec slab controlled origin a p) (act ext controlled a p.system ≡ panic)
  unfolding act_for
  act_for-Ends controlled origin a p v regular = go (act ext controlled a p.system) refl
    where
      go :
          (r : Result (System × List Effect))
          → act ext controlled a p.system ≡ r
          → Ends
              (act_for ext codec slab controlled origin a p)
              (act ext controlled a p.system ≡ panic)
      go (ok (system, effects)) e = inl (
        _,
        >>=-of-ok (act ext controlled a p.system) _ e,
        perform-IsWell origin effects _ (record {
          server = v.server;
          system = act-IsSound ext controlled a p.system system effects v.system regular e;
          worked = act-AllWorked ext controlled a p.system (system, effects) v.worked e;
        }),
      )
      go panic e = inr (rw e refl, e)
      go out_of_fuel e = absurd (
          act-ne-out_of_fuel ext controlled a p.system (Reachable-IsWellFormed v.system.chain)
            v.system.pool e)

  pub on_event-Ends :
      (e : Event) (p : Program ext codec slab)
      → IsWell p
      → Ends (on_event ext codec slab e p) (Cause slab p.server e)
  unfolding on_event
  on_event-Ends e p v = elim (handle_event-Ends slab e p.server v.server) [
    | inl (s', ran, kept) ↦ inl (
      record p { server = s' },
      >>=-of-ok (handle_event slab e p.server) _ ran,
      record { server = kept; system = v.system; worked = v.worked },
    )
    | inr (panics, why) ↦ inr (rw panics refl, why)
  ]
