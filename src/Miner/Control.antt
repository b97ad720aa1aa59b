-- ===== src/Miner/Control.antt =====
-- src/miner.rs: the control state of the miner over the rounds of its loop.
use f.Prelude.{
  ℕ, ◌≡◌, ◌≢◌, ◌⊎◌, inl, inr, refl, sym, ap, subst, none, List, [], ◌∷◌, arith, ok, >>=-eq-ok,
  ◌>>=◌, Option, some, ok-injective,
}
use f.Mempool.{Mempool}
use f.Block.{Block}
use f.Transaction.{default_signed}
use f.Blockchain.{Blockchain}
use f.Miner.{
  ControlSignal, start, exit, OperatingState, paused, run, shut_down, Incoming, signal, empty,
  disconnected, Context, handle_control_signal, mining_stats, collect, header_on_tip, submit,
  mine_round, mine_in, round_in, loop_round,
}
use f.Miner.Round.{Round, missed, found, submit-Round}
use f.Network.Worker.{Node, Effect}
use f.Externals.{Externals}

-- A miner that runs has a start time, and one that never started has mined no block.
pub record IsStarted (ctx : Context) : Type 0 where
  pub running : (i : ℕ) → ctx.operating_state ≡ run i → ctx.start_time ≢ none
  pub idle : ctx.start_time ≡ none → ctx.total_blocks_mined ≡ 0

module _ (ext : Externals) where
  reported :
      (now : ℕ) (c : Blockchain) (ended ctx' : Context) (begun : Option ℕ)
      → (elim begun [
        | none ↦ ok ended
        | some at ↦ mining_stats ext now at ended c >>= λ stats. ok ended
      ])
        ≡ ok ctx'
      → ended ≡ ctx'
  reported now c ended ctx' none e = ok-injective e
  reported now c ended ctx' (some at) e =
      let (stats, ran, k) = >>=-eq-ok (mining_stats ext now at ended c) _ e in ok-injective k

  -- What `Exit` leads to, if it returns.
  pub exit-ends :
      (now : ℕ) (c : Blockchain) (ctx ctx' : Context)
      → handle_control_signal ext now exit c ctx ≡ ok ctx'
      → record ctx { operating_state = shut_down } ≡ ctx'
  unfolding handle_control_signal
  exit-ends now c ctx ctx' e =
      reported now c (record ctx { operating_state = shut_down }) ctx' ctx.start_time e

  handle_control_signal-IsStarted :
      (now : ℕ) (s : ControlSignal) (c : Blockchain) (ctx ctx' : Context)
      → IsStarted ctx
      → handle_control_signal ext now s c ctx ≡ ok ctx'
      → IsStarted ctx'
  handle_control_signal-IsStarted now exit c ctx ctx' v e =
      subst IsStarted (exit-ends now c ctx ctx' e) (record { running = λ i w z. cc; idle = v.idle })
  handle_control_signal-IsStarted now (start i) c ctx ctx' v e =
      unfold handle_control_signal in
      record { running = λ j w z. ground (arith, v.idle); idle = λ z. ground (arith, v.idle) }

  submitted-IsStarted :
      (ctx : Context) (c : Blockchain) (pool : Mempool) (block : Block)
      (r : Context × (Node × List Effect))
      → IsStarted ctx
      → ctx.start_time ≢ none
      → Round ext ctx c block pool r
      → IsStarted r.0
  submitted-IsStarted ctx c pool block r v begun (missed weak done) =
      subst IsStarted (ap (λ (x : Context × (Node × List Effect)). x.0) (sym done)) v
  submitted-IsStarted ctx c pool block r v begun (found c' total strong inserted counted done) =
      subst IsStarted (ap (λ (x : Context × (Node × List Effect)). x.0) (sym done))
        (record { running = v.running; idle = λ z. absurd (begun z) })

  mine_round-IsStarted :
      (now nonce : ℕ) (choices : ℕ → ℕ) (ctx : Context) (node : Node)
      (r : Context × (Node × List Effect))
      → IsStarted ctx
      → ctx.start_time ≢ none
      → mine_round ext now nonce choices ctx node ≡ ok r
      → IsStarted r.0
  unfolding mine_round
  mine_round-IsStarted now nonce choices ctx node r v begun e =
      let (header, made, k) = >>=-eq-ok (header_on_tip ext now nonce node.blockchain) _ e in
      let (taken, ran, k') =
        >>=-eq-ok (collect choices 20 (default_signed ∷ []) node.mempool)
          (λ x.
            submit ext ctx node.blockchain x.1
              (record { header = header; content = record { transactions = x.0 } }))
          k in
      submitted-IsStarted ctx node.blockchain taken.1
        (record { header = header; content = record { transactions = taken.0 } }) r v begun
        (submit-Round ext ctx node.blockchain taken.1 _ r k')

  kept :
      {ctx : Context} {node : Node} (r : Context × (Node × List Effect))
      → IsStarted ctx
      → ok (ctx, (node, [])) ≡ ok r
      → IsStarted r.0
  kept r v e = subst IsStarted (ap (λ (x : Context × (Node × List Effect)). x.0) (ok-injective e)) v

  mine_in-IsStarted :
      (state : OperatingState) (now nonce : ℕ) (choices : ℕ → ℕ) (ctx : Context) (node : Node)
      (r : Context × (Node × List Effect))
      → ctx.operating_state ≡ state
      → IsStarted ctx
      → mine_in ext state now nonce choices ctx node ≡ ok r
      → IsStarted r.0
  unfolding mine_in
  mine_in-IsStarted paused now nonce choices ctx node r at v e = kept r v e
  mine_in-IsStarted shut_down now nonce choices ctx node r at v e = kept r v e
  mine_in-IsStarted (run i) now nonce choices ctx node r at v e =
      mine_round-IsStarted now nonce choices ctx node r v (v.running i at) e

  round_in-IsStarted :
      (state : OperatingState) (now nonce : ℕ) (choices : ℕ → ℕ) (incoming : Incoming)
      (ctx : Context) (node : Node) (r : Context × (Node × List Effect))
      → ctx.operating_state ≡ state
      → IsStarted ctx
      → round_in ext state now nonce choices incoming ctx node ≡ ok r
      → IsStarted r.0
  unfolding round_in
  round_in-IsStarted shut_down now nonce choices incoming ctx node r at v e = kept r v e
  round_in-IsStarted paused now nonce choices (signal s) ctx node r at v e =
      let (ctx', handled, k) =
        >>=-eq-ok (handle_control_signal ext now s node.blockchain ctx) _ e in
      kept r (handle_control_signal-IsStarted now s node.blockchain ctx ctx' v handled) k
  round_in-IsStarted paused now nonce choices empty ctx node r at v e = kept r v e
  round_in-IsStarted paused now nonce choices disconnected ctx node r at v e = cc
  round_in-IsStarted (run i) now nonce choices (signal s) ctx node r at v e =
      let (ctx', handled, k) =
        >>=-eq-ok (handle_control_signal ext now s node.blockchain ctx) _ e in
      mine_in-IsStarted ctx'.operating_state now nonce choices ctx' node r refl
        (handle_control_signal-IsStarted now s node.blockchain ctx ctx' v handled) k
  round_in-IsStarted (run i) now nonce choices empty ctx node r at v e =
      mine_in-IsStarted (run i) now nonce choices ctx node r at v e
  round_in-IsStarted (run i) now nonce choices disconnected ctx node r at v e = cc

  -- A round of the loop that returns, with any signal and in any operating state, keeps the invariant
  -- that a running miner has a start time and that one that never started has mined nothing.
  pub loop_round-IsStarted :
      (now nonce : ℕ) (choices : ℕ → ℕ) (incoming : Incoming) (ctx : Context) (node : Node)
      (r : Context × (Node × List Effect))
      → IsStarted ctx
      → loop_round ext now nonce choices incoming ctx node ≡ ok r
      → IsStarted r.0
  unfolding loop_round
  loop_round-IsStarted now nonce choices incoming ctx node r v e =
      round_in-IsStarted ctx.operating_state now nonce choices incoming ctx node r refl v e

  round_in-idle :
      (state : OperatingState) (now nonce : ℕ) (choices : ℕ → ℕ) (incoming : Incoming)
      (ctx : Context) (node : Node) (r : Context × (Node × List Effect))
      → ((i : ℕ) → state ≢ run i)
      → round_in ext state now nonce choices incoming ctx node ≡ ok r
      → (r.1 ≡ (node, [])) × ((r.0 ≡ ctx) ⊎ (state ≡ paused))
  unfolding round_in
  round_in-idle shut_down now nonce choices incoming ctx node r idle e = (cc, inl cc)
  round_in-idle paused now nonce choices (signal s) ctx node r idle e =
      let (ctx', handled, k) =
        >>=-eq-ok (handle_control_signal ext now s node.blockchain ctx) _ e in
      (cc, inr refl)
  round_in-idle paused now nonce choices empty ctx node r idle e = (cc, inl cc)
  round_in-idle paused now nonce choices disconnected ctx node r idle e = cc
  round_in-idle (run i) now nonce choices incoming ctx node r idle e = absurd (idle i refl)

  -- A round that returns, of a miner that is not running, leaves the chain and the pool as they were
  -- and sends nothing, whatever the signal; its control state stays, too, unless it is paused.
  pub loop_round_idle :
      (now nonce : ℕ) (choices : ℕ → ℕ) (incoming : Incoming) (ctx : Context) (node : Node)
      (r : Context × (Node × List Effect))
      → ((i : ℕ) → ctx.operating_state ≢ run i)
      → loop_round ext now nonce choices incoming ctx node ≡ ok r
      → (r.1 ≡ (node, [])) × ((r.0 ≡ ctx) ⊎ (ctx.operating_state ≡ paused))
  unfolding loop_round
  loop_round_idle now nonce choices incoming ctx node r idle e =
      round_in-idle ctx.operating_state now nonce choices incoming ctx node r idle e
