-- ===== src/System/Whole/Runs.antt =====
-- Runs of all the threads with the channels between them.
use f.Prelude.{
  ℕ, ◌≡◌, inl, inr, refl, ap, ◌∙◌, Bool, true, Option, none, some, List, [], ◌∷◌, ◌++◌, ◌&&◌, arith,
  Result, ok, panic, out_of_fuel, >>=-of-ok, if◌then◌else◌,
}
use f.Network.Message.{Message, Codec}
use f.Network.Slab.{Slab}
use f.Network.Server.{Peer, control, incoming, token}
use f.Network.Server.Invariant.{new_server-IsConsistent}
use f.Api.{serve}
use f.System.{receive, mine, generate}
use f.Blockchain.Work.{new-AllWorked}
use f.System.Runs.{new_system-IsSound}
use f.System.Whole.{
  Step, control_ready, incoming_ready, token_ready, work, mining, generating, request, http,
  take_at, next_signal, Program, new_program, handle_taken, step, run,
}
use f.System.Whole.Steps.{
  IsWell, is_allowed, Fails, undecoded, worker, miner, generator, on_controls, on_incoming,
  on_token, Ends, perform_http-IsWell, act_for-Ends, on_event-Ends,
}
use f.Externals.{Externals, KeyPair}

module _ (ext : Externals) (codec : Codec) (slab : Slab Peer) (controlled : KeyPair) where
  because :
      {F G : Type 0} (r : Result (Program ext codec slab))
      → (F → G)
      → Ends ext codec slab r F
      → Ends ext codec slab r G
  because r f (inl done) = inl done
  because r f (inr (failed, why)) = inr (failed, f why)

  handle_taken-Ends :
      (i now : ℕ) (gone : Bool) (p : Program ext codec slab)
      → IsWell ext codec slab p
      → is_allowed ext codec slab (work i now gone) p ≡ true
      → (taken : Option ((ℕ × List ℕ) × List (ℕ × List ℕ))) → take_at i p.server.delivered ≡ taken
      → Ends ext codec slab
          (handle_taken ext codec slab controlled now gone taken p)
          (Fails ext codec slab controlled p (work i now gone))
  unfolding handle_taken
  handle_taken-Ends i now gone p v allowed none found = inl (p, refl, v)
  handle_taken-Ends i now gone p v allowed (some ((key, bytes), rest)) found =
      decode (codec.deserialize bytes) refl
    where
      decode :
          (message : Option Message)
          → codec.deserialize bytes ≡ message
          → Ends ext codec slab
              (handle_taken ext codec slab controlled now gone (some ((key, bytes), rest)) p)
              (Fails ext codec slab controlled p (work i now gone))
      decode none decoded = inr (rw decoded refl, undecoded i now gone key bytes rest found decoded)
      decode (some m) decoded = rw decoded (
          because _ (λ failed. worker i now gone key bytes rest m found decoded failed)
            (act_for-Ends ext codec slab controlled (if gone then none else some key)
              (receive now m) (record p { server = record p.server { delivered = rest } })
              (record {
                server = record {
                  listed = v.server.listed;
                  small = v.server.small;
                  sound = v.server.sound;
                };
                system = v.system;
                worked = v.worked;
              })
              (ground (arith, allowed, found, decoded))))

  step-Ends :
      (s : Step) (p : Program ext codec slab)
      → IsWell ext codec slab p
      → is_allowed ext codec slab s p ≡ true
      → Ends ext codec slab
          (step ext codec slab controlled s p)
          (Fails ext codec slab controlled p s)
  unfolding step
  step-Ends (control_ready drained) p v allowed = because _ (on_controls drained) (
      on_event-Ends ext codec slab (control p.controls drained) (record p { controls = [] })
        (record { server = v.server; system = v.system; worked = v.worked }))
  step-Ends (incoming_ready connections blocks) p v allowed =
      because _ (on_incoming connections blocks)
        (on_event-Ends ext codec slab (incoming connections blocks) p v)
  step-Ends (token_ready token_id readable writable poll_ok) p v allowed =
      because _ (on_token token_id readable writable poll_ok)
        (on_event-Ends ext codec slab (token token_id readable writable poll_ok) p v)
  step-Ends (work i now gone) p v allowed =
      handle_taken-Ends i now gone p v allowed (take_at i p.server.delivered) refl
  step-Ends (mining now nonce choices) p v allowed = because _ (miner now nonce choices) (
      act_for-Ends ext codec slab controlled none (mine now nonce choices (next_signal p.signals).0)
        (record p { signals = (next_signal p.signals).1 })
        (record { server = v.server; system = v.system; worked = v.worked }) allowed)
  step-Ends (generating random iter) p v allowed =
      because _ (generator random iter)
        (act_for-Ends ext codec slab controlled none (generate random iter) p v refl)
  step-Ends (request connected registered) p v allowed =
      inl (_, refl, record { server = v.server; system = v.system; worked = v.worked })
  step-Ends (http url) p v allowed =
      inl (_, refl, perform_http-IsWell ext codec slab (serve url).0 p v)

  -- Each step of a run is allowed in the state in which it is taken.
  abbrev pub all_allowed : List Step → Program ext codec slab → Bool
  all_allowed [] p = true
  all_allowed (s ∷ steps) p =
      is_allowed ext codec slab s p && elim (step ext codec slab controlled s p) [
        | ok p' ↦ all_allowed steps p'
        | panic ↦ true
        | out_of_fuel ↦ true
      ]

  -- A run returns, or one of its steps is a panic.
  pub data Outcome (steps : List Step) (p : Program ext codec slab) : Type 0 where
    returned :
        (q : Program ext codec slab)
        → run ext codec slab controlled steps p ≡ ok q
        → IsWell ext codec slab q
        → Outcome steps p
    failed :
        (before after : List Step) (s : Step) (q : Program ext codec slab)
        → steps ≡ before ++ s ∷ after
        → run ext codec slab controlled before p ≡ ok q
        → IsWell ext codec slab q
        → Fails ext codec slab controlled q s
        → run ext codec slab controlled steps p ≡ panic
        → Outcome steps p

  run-Outcome :
      (steps : List Step) (p : Program ext codec slab)
      → IsWell ext codec slab p
      → all_allowed steps p ≡ true
      → Outcome steps p
  unfolding run
  run-Outcome [] p v allowed = returned p refl v
  run-Outcome (s ∷ steps) p v allowed = elim (step-Ends s p v (ground (arith, allowed))) [
    | inr (panics, why) ↦ failed [] steps s p refl refl v why (rw panics refl)
    | inl (q, ran, kept) ↦
        after q ran kept (run-Outcome steps q kept (ground (arith, allowed, ran)))
  ]
    where
      after :
          (q : Program ext codec slab)
          → step ext codec slab controlled s p ≡ ok q
          → IsWell ext codec slab q
          → Outcome steps q
          → Outcome (s ∷ steps) p
      after q ran kept (returned r done well) =
          returned r (>>=-of-ok (step ext codec slab controlled s p) _ ran ∙ done) well
      after q ran kept (failed before rest t r split done well why panics) =
          failed (s ∷ before) rest t r (ap (λ (l : List Step). s ∷ l) split)
            (>>=-of-ok (step ext codec slab controlled s p) _ ran ∙ done) well why
            (>>=-of-ok (step ext codec slab controlled s p) _ ran ∙ panics)

  -- The whole program from its start, with what its threads send delivered to the queues of the peers, to
  -- the server and to the miner. In every run up to the first panic, in any order of the threads, of steps
  -- of which none makes more than 2 ^ 64 blocks or a header whose hash is the hash of another block, one of
  -- two things happens. It returns in a state in which the table of the connections agrees with the list of
  -- the peers, the chain, the pool and the miner are sound, and every block but the genesis block has its
  -- work. Or it comes to such a state, and there a worker, the miner or the generator panics, or the server
  -- ends with a panic or an error at an event, for one of these causes: the closed control channel cannot
  -- be taken from the poll, the listener has an error, a message is complete and no worker is left to take
  -- it, the poll refuses to change a registration, or the queue of a peer that is gone is readable. Nothing
  -- runs for ever.
  pub run_outcome :
      (steps : List Step)
      → all_allowed steps (new_program ext codec slab) ≡ true
      → Outcome steps (new_program ext codec slab)
  run_outcome steps allowed =
      run-Outcome steps (new_program ext codec slab)
        (record {
          server = new_server-IsConsistent slab;
          system = new_system-IsSound ext;
          worked = new-AllWorked ext;
        })
        allowed
