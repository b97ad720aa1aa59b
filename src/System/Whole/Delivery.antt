-- ===== src/System/Whole/Delivery.antt =====
-- From what a thread sends to the queues of the peers.
use f.Prelude.{ℕ, ◌≡◌, refl, ap, ◌∙◌, true, Option, List, [], ◌∷◌, ◌++◌, map, ok, >>=-of-ok, ◌>>=◌}
use f.Network.Message.{Message, Codec}
use f.Network.Slab.{Slab}
use f.Network.Server.{Peer, ControlSignal, Server, process_control, process_controls, handle_event}
use f.Network.Server.Broadcast.{broadcast_effect}
use f.Network.Server.Invariant.{IsConsistent}
use f.Network.Worker.{Effect}
use f.System.{System, Action, act}
use f.System.Whole.{control_ready, Program, perform, act_for, on_event, step}
use f.System.Whole.Steps.{perform-IsConsistent}
use f.System.Whole.Replies.{written, announced, with_all, signal_of, answered, perform-Sent}
use f.Externals.{Externals, KeyPair}

module _ (ext : Externals) (codec : Codec) (slab : Slab Peer) where
  -- A consistent server works off any broadcasts that are in its control channel.
  process_controls-broadcasts :
      (ms : List Message) (s : Server slab)
      → IsConsistent slab s
      → (s' : Server slab) × (process_controls slab (map (signal_of ext codec slab) ms) s ≡ ok s')
        × ((k : ℕ) → slab.get k s'.peers ≡ with_all ext codec slab ms (slab.get k s.peers))
        × (s'.peer_list ≡ s.peer_list)
        × (s'.delivered ≡ s.delivered)
        × IsConsistent slab s'
  unfolding process_controls with_all
  process_controls-broadcasts [] s v = (s, refl, λ k. refl, refl, refl, v)
  process_controls-broadcasts (m ∷ ms) s v =
      let (t, ran, found, listed, delivered, kept) =
        broadcast_effect slab (codec.serialize m) s v in
      let (s', ran_on, found', listed', delivered', kept') =
        process_controls-broadcasts ms t kept in
      (
        s',
        >>=-of-ok (process_control slab (signal_of ext codec slab m) s) _ ran ∙ ran_on,
        λ k. found' k ∙ ap (with_all ext codec slab ms) (found k),
        listed' ∙ listed,
        delivered' ∙ delivered,
        kept',
      )

  handled :
      (controlled : KeyPair) (p : Program ext codec slab) (signals : List ControlSignal)
      (s' : Server slab)
      → p.controls ≡ signals
      → process_controls slab signals p.server ≡ ok s'
      → step ext codec slab controlled (control_ready true) p
        ≡ ok (record p { server = s'; controls = [] })
  unfolding step on_event handle_event
  handled controlled p signals s' waiting ran = rw (waiting, ran) refl

  -- What a worker, the miner or the generator sends in an action that returns, from a state with a
  -- consistent server and an empty control channel, is delivered as soon as the server reads the channel: every peer
  -- that is connected has all the broadcasts at the end of its queue, in their order, the one that the
  -- message is from after the replies to it. Nothing else has changed in the table of the server.
  pub act_for-delivers :
      (controlled : KeyPair) (origin : Option ℕ) (a : Action) (p : Program ext codec slab)
      (system : System) (effects : List Effect)
      → IsConsistent slab p.server
      → p.controls ≡ []
      → act ext controlled a p.system ≡ ok (system, effects)
      → (q : Program ext codec slab) × ((act_for ext codec slab controlled origin a p
            >>= step ext codec slab controlled (control_ready true))
          ≡ ok q)
        × ((k : ℕ)
            → slab.get k q.server.peers
              ≡ with_all ext codec slab
                  (announced effects)
                  (answered ext codec slab origin k (written effects) (slab.get k p.server.peers)))
        × (q.server.peer_list ≡ p.server.peer_list)
        × (q.server.delivered ≡ p.server.delivered)
        × (q.controls ≡ [])
        × (q.system ≡ system)
  unfolding act_for
  act_for-delivers controlled origin a p system effects v empty acted =
      let p' : Program ext codec slab = record p { system = system } in
      let t = perform ext codec slab origin effects p' in
      let sent = perform-Sent ext codec slab origin effects p' in
      let waiting : t.controls ≡ map (signal_of ext codec slab) (announced effects) =
        sent.controls
        ∙ ap (λ (l : List ControlSignal). l ++ map (signal_of ext codec slab) (announced effects))
            empty in
      let kept : IsConsistent slab t.server =
        perform-IsConsistent ext codec slab origin effects p' v in
      let (s', ran, found, listed, delivered, kept') =
        process_controls-broadcasts (announced effects) t.server kept in
      (
        record t { server = s'; controls = [] },
        >>=-of-ok (act_for ext codec slab controlled origin a p)
              (step ext codec slab controlled (control_ready true))
              (>>=-of-ok (act ext controlled a p.system) _ acted)
            ∙ handled controlled t _ s' waiting ran,
        λ k. found k ∙ ap (with_all ext codec slab (announced effects)) (sent.queues k),
        listed ∙ sent.listed,
        delivered ∙ sent.passed_on,
        refl,
        sent.shared,
      )
