-- ===== src/Network/Peer/Writing.antt =====
-- src/network/peer.rs: whole calls of `WriteContext::write`, and what the other side reads.
use mathlib.Core.List.{append_assoc, append-nil}
use f.Prelude.{
  ℕ, zero, suc, ◌+◌, ◌*◌, ◌≤◌, ◌<◌, ◌≡◌, refl, sym, ap, ◌∙◌, subst, List, [], ◌∷◌, ◌++◌, Bool, true,
  false, arith, length, if◌then◌else◌, All, ok, >>=-of-ok,
}
use f.Network.Peer.{ReadContext, new_reader, receive, frames}
use f.Network.Peer.Steps.{IsPayload, AtRest}
use f.Network.Peer.Framing.{receive-frames}
use f.Network.Peer.Writer.{
  WriteResult, complete, chan_closed, WriteState, writing_length, writing_payload, WriteContext,
  new_writer, enqueue, Outcome, Round, again, return, round_in, write_loop, write,
}
use f.Network.Peer.Remaining.{
  IsWriting, remaining, work, rounds_left, Takes, finished, Leaves, Kept,
}
use f.Network.Peer.Rounds.{round_in-Kept}

-- The bytes that a context has still to send.
abbrev pub to_send : WriteContext → List ℕ
to_send ctx = remaining ctx.state ctx

-- What a call has done, in terms of what was to be sent.
record Written (outcomes : List Outcome) (ctx : WriteContext) (sent : List ℕ) (result : WriteResult)
    (ctx' : WriteContext) : Type 0 where
  sound : IsWriting ctx'.state ctx'
  sends : sent ++ to_send ctx' ≡ to_send ctx
  leaves : Leaves result (to_send ctx')
  ends : All Takes outcomes → work ctx.state ctx ≤ length outcomes → result ≡ finished ctx

write_loop-Written :
    (fuel : ℕ) (outcomes : List Outcome) (ctx : WriteContext)
    → rounds_left ctx.state outcomes ≤ fuel
    → IsWriting ctx.state ctx
    → (sent : List ℕ) × (result : WriteResult) × (ctx' : WriteContext) × (write_loop fuel outcomes
          ctx
        ≡ ok (sent, (result, ctx')))
      × Written outcomes ctx sent result ctx'
unfolding write_loop
write_loop-Written zero outcomes ctx h v = absurd (no_rounds ctx.state h)
  where
    no_rounds : (s : WriteState) → rounds_left s outcomes ≤ 0 → ⊥
    no_rounds writing_length h = omega arith
    no_rounds writing_payload h = omega arith
write_loop-Written (suc fuel) outcomes ctx h v =
    let (round, ran, kept) = round_in-Kept ctx.state outcomes ctx v refl in
    go round ran kept (write_loop-Written fuel)
  where
    go :
        (round : Round)
        → round_in ctx.state outcomes ctx ≡ ok round
        → Kept ctx.state outcomes ctx round
        → ((outcomes' : List Outcome) (ctx' : WriteContext)
            → rounds_left ctx'.state outcomes' ≤ fuel
            → IsWriting ctx'.state ctx'
            → (sent : List ℕ) × (result : WriteResult) × (end : WriteContext) × (write_loop fuel
                  outcomes' ctx'
                ≡ ok (sent, (result, end)))
              × Written outcomes' ctx' sent result end)
        → (sent : List ℕ) × (result : WriteResult) × (end : WriteContext) × (write_loop
              (suc fuel)
              outcomes
              ctx
            ≡ ok (sent, (result, end)))
          × Written outcomes ctx sent result end
    go (return result ctx') ran kept rest = (
      [],
      result,
      ctx',
      >>=-of-ok (round_in ctx.state outcomes ctx) _ ran,
      record {
        sound = kept.0;
        sends = kept.1;
        leaves = subst (Leaves result) (sym kept.1) kept.2;
        ends = λ all enough. kept.3 all (omega arith);
      },
    )
    go (again bytes outcomes' ctx') ran kept rest =
        let (sent, result, end, ran', w) = rest outcomes' ctx' (omega (arith, kept.2)) kept.0 in
        (
          bytes ++ sent,
          result,
          end,
          >>=-of-ok (round_in ctx.state outcomes ctx) _ ran
              ∙ >>=-of-ok (write_loop fuel outcomes' ctx') _ ran',
          record {
            sound = w.sound;
            sends = append_assoc bytes sent (to_send end) ∙ ap (λ ys. bytes ++ ys) w.sends ∙ kept.1;
            leaves = w.leaves;
            ends = λ all enough.
                w.ends (kept.5 all) (omega (arith, kept.3))
                ∙ ap (λ (b : Bool). if b then complete else chan_closed) kept.4;
          },
        )

rounds_within :
    (s : WriteState) (outcomes : List Outcome) → rounds_left s outcomes ≤ 2 * length outcomes + 2
rounds_within writing_length outcomes = omega arith
rounds_within writing_payload outcomes = omega arith

-- From a sound context and for any behaviour of the socket, a call of `write` returns, with a sound
-- context. What it has sent and what it has still to send are together what it had to send: the
-- rest of the current frame and the frames of the queue. Nothing is left where it reports that it is
-- complete, or that the queue is closed.
pub write_lem :
    (outcomes : List Outcome) (ctx : WriteContext)
    → IsWriting ctx.state ctx
    → (sent : List ℕ) × (result : WriteResult) × (ctx' : WriteContext) × (write outcomes ctx
        ≡ ok (sent, (result, ctx')))
      × (sent ++ to_send ctx' ≡ to_send ctx)
      × Leaves result (to_send ctx')
      × IsWriting ctx'.state ctx'
unfolding write
write_lem outcomes ctx v =
    let (sent, result, ctx', ran, w) =
      write_loop-Written (2 * length outcomes + 2) outcomes ctx (rounds_within ctx.state outcomes)
        v in
    (sent, result, ctx', ran, w.sends, w.leaves, w.sound)

finished_rest :
    (b : Bool) (rest : List ℕ) → Leaves (if b then complete else chan_closed) rest → rest ≡ []
finished_rest true rest e = e
finished_rest false rest e = e

-- If the socket accepts something in every call, and as often as there are bytes to send and messages
-- in the queue and once more, then a call of `write` from a sound context sends everything, and it
-- reports that it is complete, or that the queue is closed where it has no sender.
pub write_finishes :
    (outcomes : List Outcome) (ctx : WriteContext)
    → IsWriting ctx.state ctx
    → All Takes outcomes
    → length (to_send ctx) + length ctx.queue < length outcomes
    → (ctx' : WriteContext) × (write outcomes ctx ≡ ok (to_send ctx, (finished ctx, ctx')))
      × (to_send ctx' ≡ [])
unfolding write
write_finishes outcomes ctx v all enough =
    let (sent, result, ctx', ran, w) =
      write_loop-Written (2 * length outcomes + 2) outcomes ctx (rounds_within ctx.state outcomes)
        v in
    let done : result ≡ finished ctx = w.ends all (omega arith) in
    let none_left : to_send ctx' ≡ [] =
      finished_rest ctx.connected (to_send ctx')
        (subst (λ r. Leaves r (to_send ctx')) done w.leaves) in
    let everything : sent ≡ to_send ctx =
      sym (append-nil sent) ∙ ap (λ ys. sent ++ ys) (sym none_left) ∙ w.sends in
    (
      ctx',
      ran
          ∙ ap (λ r. ok (sent, (r, ctx'))) done
          ∙ ap (λ ys. ok (ys, (finished ctx, ctx'))) everything,
      none_left,
    )

-- The messages of a list are put into the queue one by one.
unfoldable pub enqueue_all : List (List ℕ) → WriteContext → WriteContext
unfolding enqueue
enqueue_all [] ctx = ctx
enqueue_all (m ∷ ms) ctx = enqueue_all ms (enqueue m ctx)

enqueue_all-queue :
    (ms : List (List ℕ)) (ctx : WriteContext)
    → enqueue_all ms ctx ≡ record ctx { queue = ctx.queue ++ ms }
unfolding enqueue_all
enqueue_all-queue [] ctx = ap (λ q. record ctx { queue = q }) (sym (append-nil ctx.queue))
enqueue_all-queue (m ∷ ms) ctx =
    enqueue_all-queue ms (enqueue m ctx)
    ∙ ap (λ q. record ctx { queue = q }) (append_assoc ctx.queue (m ∷ []) ms)

-- Messages that are put into the queue of a new connection, none of them empty and each shorter than
-- 2 ^ 32 bytes, are all written by one call of `write` if the socket accepts something often enough,
-- and the other side, which reads the bytes in any pieces, receives exactly these messages in their
-- order.
pub write-receive :
    (ms : List (List ℕ)) (outcomes : List Outcome) (choices : ℕ → ℕ)
    → All IsPayload ms
    → All Takes outcomes
    → length (frames ms) + length ms < length outcomes
    → (sent : List ℕ) × (ctx' : WriteContext) × (end : ReadContext) × (write outcomes
          (enqueue_all ms new_writer)
        ≡ ok (sent, (complete, ctx')))
      × (receive choices (length sent) sent new_reader ≡ ok (true, (ms, end)))
      × AtRest end
write-receive ms outcomes choices ps all enough =
    let queued : WriteContext = record new_writer { queue = ms } in
    let sound : IsWriting writing_payload queued = record {
      four = refl;
      whole = refl;
      within = omega arith;
    } in
    let (ctx', ran, none_left) = write_finishes outcomes queued sound all enough in
    let (end, received, quiet) = receive-frames choices ms ps in
    (
      frames ms,
      ctx',
      end,
      ap (write outcomes) (enqueue_all-queue ms new_writer) ∙ ran,
      received,
      quiet,
    )
