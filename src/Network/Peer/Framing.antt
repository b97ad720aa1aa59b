-- ===== src/Network/Peer/Framing.antt =====
-- src/network/peer.rs: streams of framed messages, cut into reads by the socket.
use f.Prelude.{
  take-drop, length-take, length-drop, ℕ, zero, suc, ◌+◌, ◌-◌, ◌≤◌, ◌<◌, ◌≡◌, ◌⊎◌, inl, inr, refl,
  sym, ap, ◌∙◌, true, List, [], ◌∷◌, ◌++◌, arith, length, length-append, take, drop, All, ok,
  >>=-of-ok,
}
use f.Network.Peer.{ReadContext, new_reader, read, given, receive, frames}
use f.Network.Peer.Reads.{given_bounds}
use f.Network.Peer.Steps.{
  IsPayload, AtRest, Awaits, at_length, at_payload, Next, moved, got, partial_read, full_read,
  length-frames,
}

Ended : (ℕ → ℕ) → ℕ → List ℕ → ReadContext → List (List ℕ) → Type 0
Ended choices fuel pending ctx ms =
    (end : ReadContext) × (receive choices fuel pending ctx ≡ ok (true, (ms, end))) × AtRest end

requested :
    (ctx : ReadContext) (pending : List ℕ) (ms : List (List ℕ))
    → Awaits ctx pending ms
    → ctx.read_length < ctx.msg_length
requested ctx pending _ (at_length ms st len under wide f ps) = omega arith
requested ctx pending _ (at_payload m ms st len under fits wide f ps) = omega arith

advance :
    (chunk rest pending : List ℕ) (ctx : ReadContext) (ms : List (List ℕ))
    → 0 < length chunk
    → length chunk ≤ ctx.msg_length - ctx.read_length
    → chunk ++ rest ≡ pending
    → Awaits ctx pending ms
    → Next ctx chunk rest ms
advance chunk rest pending ctx ms some_given most e a =
    elim (cases (ctx.read_length + length chunk) ctx.msg_length
      (omega (arith, requested ctx pending ms a))) [
        | inl below ↦ partial_read chunk rest pending ctx ms some_given below e a
        | inr full ↦ full_read chunk rest pending ctx ms some_given full e a
      ]
  where
    cases : (a b : ℕ) → a ≤ b → (a < b) ⊎ (a ≡ b)
    cases zero zero h = inr refl
    cases zero (suc b) h = inl (omega arith)
    cases (suc a) zero h = absurd (omega arith)
    cases (suc a) (suc b) h = elim (cases a b (omega arith)) [
      | inl below ↦ inl (omega arith)
      | inr same ↦ inr (ap suc same)
    ]

at_end :
    (choices : ℕ → ℕ) (fuel : ℕ) (ctx : ReadContext) (ms : List (List ℕ))
    → Awaits ctx [] ms
    → Ended choices fuel [] ctx ms
unfolding Ended receive frames
at_end choices fuel ctx _ (at_length [] st len under wide f ps) = (
  ctx,
  refl,
  record {
    awaits_length = st;
    whole_length = len;
    none_read = omega (
      arith,
      ap length f,
      length-append (take ctx.read_length ctx.buffer) [],
      length-take ctx.read_length ctx.buffer (omega arith),
    );
    wide = wide;
  },
)
at_end choices fuel ctx _ (at_length (m ∷ ms) st len under wide f ps) = absurd (
    omega (
      arith,
      ap length f,
      length-frames m ms,
      length-append (take ctx.read_length ctx.buffer) [],
      length-take ctx.read_length ctx.buffer (omega arith),
    ))
at_end choices fuel ctx _ (at_payload m ms st len under fits wide f ps) = absurd (
    omega (
      arith,
      ap length f,
      length-append m (frames ms),
      length-append (take ctx.read_length ctx.buffer) [],
      length-take ctx.read_length ctx.buffer (omega arith),
    ))

-- How much the next read gives.
abbrev pub next_size : (ℕ → ℕ) → ℕ → ℕ → List ℕ → ReadContext → ℕ
next_size choices fuel b pending ctx =
    given (choices fuel) (ctx.msg_length - ctx.read_length) (length (b ∷ pending))

after-Next :
    (choices : ℕ → ℕ) (fuel b : ℕ) (pending : List ℕ) (ctx : ReadContext) (ms : List (List ℕ))
    → ((ctx' : ReadContext) (ms' : List (List ℕ))
        → Awaits ctx' (drop (next_size choices fuel b pending ctx) (b ∷ pending)) ms'
        → Ended choices fuel (drop (next_size choices fuel b pending ctx) (b ∷ pending)) ctx' ms')
    → Next ctx
        (take (next_size choices fuel b pending ctx) (b ∷ pending))
        (drop (next_size choices fuel b pending ctx) (b ∷ pending))
        ms
    → Ended choices (suc fuel) (b ∷ pending) ctx ms
unfolding receive Ended
after-Next choices fuel b pending ctx ms rest (moved ctx' done a) =
    let (end, ran, quiet) = rest ctx' ms a in
    (
      end,
      >>=-of-ok (read (take (next_size choices fuel b pending ctx) (b ∷ pending)) ctx) _ done ∙ ran,
      quiet,
    )
after-Next choices fuel b pending ctx ms rest (got ctx' m ms' same done a) =
    let (end, ran, quiet) = rest ctx' ms' a in
    (
      end,
      >>=-of-ok (read (take (next_size choices fuel b pending ctx) (b ∷ pending)) ctx) _ done
          ∙ >>=-of-ok
              (receive choices fuel (drop (next_size choices fuel b pending ctx) (b ∷ pending))
                ctx')
              _ ran
          ∙ ap (λ xs. ok (true, (xs, end))) (sym same),
      quiet,
    )

receive-Awaits :
    (choices : ℕ → ℕ) (fuel : ℕ) (pending : List ℕ) (ctx : ReadContext) (ms : List (List ℕ))
    → length pending ≤ fuel
    → Awaits ctx pending ms
    → Ended choices fuel pending ctx ms
receive-Awaits choices fuel [] ctx ms h a = at_end choices fuel ctx ms a
receive-Awaits choices zero (b ∷ pending) ctx ms h a = absurd (omega arith)
receive-Awaits choices (suc fuel) (b ∷ pending) ctx ms h a =
    let n = next_size choices fuel b pending ctx in
    let (some_given, most, available) =
      given_bounds (choices fuel) (ctx.msg_length - ctx.read_length) (length (b ∷ pending))
        (omega (arith, requested ctx (b ∷ pending) ms a)) (omega arith) in
    let size = length-take n (b ∷ pending) available in
    after-Next choices fuel b pending ctx ms
      (λ ctx' ms' a'.
        receive-Awaits choices fuel (drop n (b ∷ pending)) ctx' ms'
          (omega (arith, length-drop n (b ∷ pending))) a')
      (advance (take n (b ∷ pending)) (drop n (b ∷ pending)) (b ∷ pending) ctx ms (omega arith)
        (omega arith) (take-drop n (b ∷ pending)) a)

-- A stream of framed messages, none of them empty and each shorter than 2 ^ 32 bytes, is received as
-- exactly these messages, in their order, however the socket cuts the stream into reads. No read panics,
-- as many rounds as the stream has bytes are enough, the connection stays open, and the reader is ready
-- for another message.
pub receive-frames :
    (choices : ℕ → ℕ) (ms : List (List ℕ))
    → All IsPayload ms
    → (end : ReadContext) × (receive choices (length (frames ms)) (frames ms) new_reader
        ≡ ok (true, (ms, end)))
      × AtRest end
unfolding Ended
receive-frames choices ms ps =
    receive-Awaits choices (length (frames ms)) (frames ms) new_reader ms (omega arith)
      (at_length ms refl refl (omega arith) (omega arith) refl ps)
