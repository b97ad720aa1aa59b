-- ===== src/System/Whole/Unasked.antt =====
-- src/api/mod.rs and src/miner.rs: a program in which nobody starts the miner.
use f.Prelude.{
  ℕ, ◌≡◌, ◌&&◌, refl, sym, ap, ◌∙◌, subst, Bool, true, Option, none, some, List, [], ◌∷◌, arith,
  All-append, ok, >>=-eq-ok, ok-injective, if◌then◌else◌, unwrap,
}
use f.Network.Message.{Message, Codec}
use f.Network.Slab.{Slab}
use f.Network.Server.{Peer, Event, control, incoming, token, handle_event}
use f.Miner.{ControlSignal}
use f.Api
use f.Api.{Url, serve}
use f.System.{System, receive, mine, generate}
use f.System.Whole.{
  Step, control_ready, incoming_ready, token_ready, work, mining, generating, request, http,
  take_at, next_signal, Program, new_program, perform_http, act_for, on_event, handle_taken, step,
  run,
}
use f.Externals.{Externals, KeyPair}
use f.System.Whole.Idle.{
  is_exit, IsIdle, Quiet, act_for-inverse, receive-miner, generate-miner, mine-IsIdle,
}

-- What a request to the HTTP interface sends does not start the miner.
abbrev pub no_start : List f.Api.Effect → Bool
no_start [] = true
no_start (f.Api.Effect.to_miner s ∷ es) = is_exit s && no_start es
no_start (f.Api.Effect.broadcast m ∷ es) = no_start es

-- The step is not a request that starts the miner.
abbrev pub unasked : Step → Bool
unasked (http url) = no_start (serve url).0
unasked _ = true

abbrev pub all_unasked : List Step → Bool
all_unasked [] = true
all_unasked (s ∷ steps) = unasked s && all_unasked steps

module _ (ext : Externals) (codec : Codec) (slab : Slab Peer) (controlled : KeyPair) where
  record IsQuiet (p : Program ext codec slab) : Type 0 where
    idle : IsIdle p.system.miner
    quiet : Quiet p.signals

  same_miner :
      (p q : Program ext codec slab) (s : System)
      → q.system ≡ s
      → s.miner ≡ p.system.miner
      → q.signals ≡ p.signals
      → IsQuiet p
      → IsQuiet q
  same_miner p q s at_end same signals v = record {
    idle = subst IsIdle (sym (ap (λ (x : System). x.miner) at_end ∙ same)) v.idle;
    quiet = subst Quiet (sym signals) v.quiet;
  }

  received-IsQuiet :
      (origin : Option ℕ) (now : ℕ) (m : Message) (p q : Program ext codec slab)
      → IsQuiet p
      → act_for ext codec slab controlled origin (receive now m) p ≡ ok q
      → IsQuiet q
  received-IsQuiet origin now m p q v e =
      let (s, effects, acted, at_end, signals) =
        act_for-inverse ext codec slab controlled origin (receive now m) p q e in
      same_miner p q s at_end
        (receive-miner ext codec slab controlled now m p.system s effects acted) signals v

  handle_taken-IsQuiet :
      (now : ℕ) (gone : Bool) (taken : Option ((ℕ × List ℕ) × List (ℕ × List ℕ)))
      (p q : Program ext codec slab)
      → IsQuiet p
      → handle_taken ext codec slab controlled now gone taken p ≡ ok q
      → IsQuiet q
  unfolding handle_taken
  handle_taken-IsQuiet now gone none p q v e = subst IsQuiet (ok-injective e) v
  handle_taken-IsQuiet now gone (some ((key, bytes), rest)) p q v e =
      let (m, decoded, k) = >>=-eq-ok (unwrap (codec.deserialize bytes)) _ e in
      received-IsQuiet (if gone then none else some key) now m
        (record p { server = record p.server { delivered = rest } }) q
        (record { idle = v.idle; quiet = v.quiet }) k

  on_event-IsQuiet :
      (event : Event) (p q : Program ext codec slab)
      → IsQuiet p
      → on_event ext codec slab event p ≡ ok q
      → IsQuiet q
  unfolding on_event
  on_event-IsQuiet event p q v e =
      let (s, ran, k) = >>=-eq-ok (handle_event slab event p.server) _ e in
      subst IsQuiet (ok-injective k) (record { idle = v.idle; quiet = v.quiet })

  perform_http-IsQuiet :
      (effects : List f.Api.Effect) (p : Program ext codec slab)
      → no_start effects ≡ true
      → IsQuiet p
      → IsQuiet (perform_http ext codec slab effects p)
  unfolding perform_http
  perform_http-IsQuiet [] p h v = v
  perform_http-IsQuiet (f.Api.Effect.to_miner s ∷ es) p h v =
      perform_http-IsQuiet es _ (ground (arith, h)) (record {
        idle = v.idle;
        quiet =
            All-append (λ x. is_exit x ≡ true) p.signals (s ∷ []) v.quiet (ground (arith, h), tt);
      })
  perform_http-IsQuiet (f.Api.Effect.broadcast m ∷ es) p h v =
      perform_http-IsQuiet es _ h (record { idle = v.idle; quiet = v.quiet })

  heard_rest : (heard : List ControlSignal) → Quiet heard → Quiet (next_signal heard).1
  heard_rest [] q = tt
  heard_rest (s ∷ ss) q = q.1

  step-IsQuiet :
      (s : Step) (p q : Program ext codec slab)
      → unasked s ≡ true
      → IsQuiet p
      → step ext codec slab controlled s p ≡ ok q
      → IsQuiet q
  unfolding step
  step-IsQuiet (control_ready drained) p q h v e =
      on_event-IsQuiet (control p.controls drained) (record p { controls = [] }) q
        (record { idle = v.idle; quiet = v.quiet }) e
  step-IsQuiet (incoming_ready connections blocks) p q h v e =
      on_event-IsQuiet (incoming connections blocks) p q v e
  step-IsQuiet (token_ready token_id readable writable poll_ok) p q h v e =
      on_event-IsQuiet (token token_id readable writable poll_ok) p q v e
  step-IsQuiet (work i now gone) p q h v e =
      handle_taken-IsQuiet now gone (take_at i p.server.delivered) p q v e
  step-IsQuiet (mining now nonce choices) p q h v e =
      let p' : Program ext codec slab = record p { signals = (next_signal p.signals).1 } in
      let (s, effects, acted, at_end, signals) =
        act_for-inverse ext codec slab controlled none
          (mine now nonce choices (next_signal p.signals).0) p' q e in
      record {
        idle = subst IsIdle (ap (λ (x : System). x.miner) (sym at_end)) (
            mine-IsIdle ext codec slab controlled now nonce choices p.signals p.system s effects
              v.idle v.quiet acted);
        quiet = subst Quiet (sym signals) (heard_rest p.signals v.quiet);
      }
  step-IsQuiet (generating random iter) p q h v e =
      let (s, effects, acted, at_end, signals) =
        act_for-inverse ext codec slab controlled none (generate random iter) p q e in
      same_miner p q s at_end
        (generate-miner ext codec slab controlled random iter p.system s effects acted) signals v
  step-IsQuiet (request connected registered) p q h v e =
      subst IsQuiet (ok-injective e) (record { idle = v.idle; quiet = v.quiet })
  step-IsQuiet (http url) p q h v e =
      subst IsQuiet (ok-injective e) (perform_http-IsQuiet (serve url).0 p h v)

  run-IsQuiet :
      (steps : List Step) (p q : Program ext codec slab)
      → all_unasked steps ≡ true
      → IsQuiet p
      → run ext codec slab controlled steps p ≡ ok q
      → IsQuiet q
  unfolding run
  run-IsQuiet [] p q h v e = subst IsQuiet (ok-injective e) v
  run-IsQuiet (s ∷ steps) p q h v e =
      let (t, ran, k) = >>=-eq-ok (step ext codec slab controlled s p) _ e in
      run-IsQuiet steps t q (ground (arith, h)) (step-IsQuiet s p t (ground (arith, h)) v ran) k

  -- In a run of the whole program from its start that returns, in which no request to the HTTP interface
  -- starts the miner, the miner never runs and mines nothing, whatever the peers send.
  pub run_unasked :
      (steps : List Step) (q : Program ext codec slab)
      → all_unasked steps ≡ true
      → run ext codec slab controlled steps (new_program ext codec slab) ≡ ok q
      → IsIdle q.system.miner
  run_unasked steps q h e =
      let v =
        run-IsQuiet steps (new_program ext codec slab) q h
          (record { idle = record { still = λ i w. cc; nothing_mined = refl }; quiet = tt }) e in
      v.idle
