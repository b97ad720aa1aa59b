-- ===== src/System/Whole/Idle.antt =====
-- src/miner.rs: a miner that gets no signal to start.
use f.Prelude.{
  ℕ, ◌≡◌, ◌≢◌, refl, sym, ap, ◌∙◌, subst, Bool, true, false, Option, List, [], ◌∷◌, arith, All, ok,
  >>=-eq-ok, ok-injective,
}
use f.Network.Message.{Message, Codec}
use f.Network.Slab.{Slab}
use f.Network.Server.{Peer}
use f.Network.Worker.{Node, Effect, on_message}
use f.Miner
use f.Miner.{
  Context, ControlSignal, OperatingState, Incoming, signal, empty, exit, paused, shut_down,
  handle_control_signal, round_in, loop_round,
}
use f.Miner.Control.{exit-ends}
use f.Generator.{generation_round}
use f.System.{System, Action, receive, mine, generate, act}
use f.System.Whole.{next_signal, Program, act_for}
use f.System.Whole.Replies.{perform-Sent}
use f.Externals.{Externals, KeyPair}

-- A signal that does not start the miner.
abbrev pub is_exit : ControlSignal → Bool
is_exit exit = true
is_exit (Miner.start i) = false

-- The miner does not run and has mined nothing.
pub record IsIdle (ctx : Context) : Type 0 where
  pub still : (i : ℕ) → ctx.operating_state ≢ Miner.run i
  pub nothing_mined : ctx.total_blocks_mined ≡ 0

abbrev pub Quiet : List ControlSignal → Type 0
Quiet = All (λ s. is_exit s ≡ true)

module _ (ext : Externals) (codec : Codec) (slab : Slab Peer) (controlled : KeyPair) where
  round_in-IsIdle :
      (state : OperatingState) (now nonce : ℕ) (choices : ℕ → ℕ) (heard : List ControlSignal)
      (ctx : Context) (node : Node) (r : Context × (Node × List Effect))
      → ctx.operating_state ≡ state
      → IsIdle ctx
      → Quiet heard
      → round_in ext state now nonce choices (next_signal heard).0 ctx node ≡ ok r
      → IsIdle r.0
  unfolding round_in
  round_in-IsIdle (Miner.run i) now nonce choices heard ctx node r at v q e = absurd (v.still i at)
  round_in-IsIdle shut_down now nonce choices heard ctx node r at v q e =
      subst (λ (x : Context × (Node × List Effect)). IsIdle x.0) (ok-injective e) v
  round_in-IsIdle paused now nonce choices [] ctx node r at v q e =
      subst (λ (x : Context × (Node × List Effect)). IsIdle x.0) (ok-injective e) v
  round_in-IsIdle paused now nonce choices (exit ∷ ss) ctx node r at v q e =
      let (ctx', handled, k) =
        >>=-eq-ok (handle_control_signal ext now exit node.blockchain ctx) _ e in
      let ended : IsIdle (record ctx { operating_state = shut_down }) = record {
        still = λ i w. cc;
        nothing_mined = v.nothing_mined;
      } in
      subst (λ (x : Context × (Node × List Effect)). IsIdle x.0) (ok-injective k)
        (subst IsIdle (exit-ends ext now node.blockchain ctx ctx' handled) ended)
  round_in-IsIdle paused now nonce choices (Miner.start i ∷ ss) ctx node r at v q e =
      absurd (ground (arith, q.0))

  pub act_for-inverse :
      (origin : Option ℕ) (a : Action) (p q : Program ext codec slab)
      → act_for ext codec slab controlled origin a p ≡ ok q
      → (s : System) × (effects : List Effect) × (act ext controlled a p.system ≡ ok (s, effects))
        × (q.system ≡ s)
        × (q.signals ≡ p.signals)
  unfolding act_for
  act_for-inverse origin a p q e =
      let ((s, effects), acted, k) = >>=-eq-ok (act ext controlled a p.system) _ e in
      let sent = perform-Sent ext codec slab origin effects (record p { system = s }) in
      let same = ok-injective k in
      (
        s,
        effects,
        acted,
        ap (λ (x : Program ext codec slab). x.system) (sym same) ∙ sent.shared,
        ap (λ (x : Program ext codec slab). x.signals) (sym same) ∙ sent.signals,
      )

  pub receive-miner :
      (now : ℕ) (m : Message) (s s' : System) (effects : List Effect)
      → act ext controlled (receive now m) s ≡ ok (s', effects)
      → s'.miner ≡ s.miner
  unfolding act
  receive-miner now m s s' effects e =
      let (r, ran, k) = >>=-eq-ok (on_message ext now m s.node) _ e in
      ap (λ (x : System × List Effect). x.0.miner) (sym (ok-injective k))

  pub generate-miner :
      (random : KeyPair) (iter : f.Transaction.State → List f.Generator.Entry) (s s' : System)
      (effects : List Effect)
      → act ext controlled (generate random iter) s ≡ ok (s', effects)
      → s'.miner ≡ s.miner
  unfolding act
  generate-miner random iter s s' effects e =
      let (r, ran, k) = >>=-eq-ok (generation_round ext controlled random iter s.node) _ e in
      ap (λ (x : System × List Effect). x.0.miner) (sym (ok-injective k))

  pub mine-IsIdle :
      (now nonce : ℕ) (choices : ℕ → ℕ) (heard : List ControlSignal) (s s' : System)
      (effects : List Effect)
      → IsIdle s.miner
      → Quiet heard
      → act ext controlled (mine now nonce choices (next_signal heard).0) s ≡ ok (s', effects)
      → IsIdle s'.miner
  unfolding act loop_round
  mine-IsIdle now nonce choices heard s s' effects v q e =
      let (r, ran, k) =
        >>=-eq-ok (loop_round ext now nonce choices (next_signal heard).0 s.miner s.node) _ e in
      subst (λ (x : System × List Effect). IsIdle x.0.miner) (ok-injective k)
        (round_in-IsIdle s.miner.operating_state now nonce choices heard s.miner s.node r refl v q
          ran)
