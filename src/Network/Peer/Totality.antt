-- ===== src/Network/Peer/Totality.antt =====
-- src/network/peer.rs: the reading of any bytes at all.
use f.Prelude.{
  length-drop, ℕ, zero, suc, ◌+◌, ◌-◌, ◌≤◌, ◌<◌, ◌≡◌, inl, inr, refl, sym, ap, ◌∙◌, subst, Bool,
  true, false, List, [], ◌∷◌, arith, length, take, drop, nat_beq, Bool-cases, Result, ok, >>=-of-ok,
}
use f.Crypto.Hash.{be_bytes}
use f.Network.Peer.{
  DecodeState, reading_length, reading_payload, ReadResult, go_on, message, eof, ReadContext, grow,
  filled, read, given, receive,
}
use f.Network.Peer.Buffer.{take-overwrite}
use f.Network.Peer.Framing.{next_size}
use f.Network.Peer.Reads.{after, read-partial, read-full, grow_fits, filled-length}

-- A reading context, between two reads.
pub record IsReading (ctx : ReadContext) : Type 0 where
  pub within : ctx.read_length ≤ ctx.msg_length
  pub fits : ctx.msg_length ≤ length ctx.buffer
  pub wide : 4 ≤ length ctx.buffer

-- A result of a read, from which the reading can go on.
abbrev Sound : Result (ReadContext × ReadResult) → Type 0
Sound r = (ctx : ReadContext) × (result : ReadResult) × (r ≡ ok (ctx, result)) × IsReading ctx

filled-IsReading :
    (s : DecodeState) (ctx : ReadContext)
    → ctx.msg_length ≤ length ctx.buffer
    → 4 ≤ length ctx.buffer
    → Sound (filled s ctx)
unfolding filled
filled-IsReading reading_length ctx fits wide =
    let n = be_bytes 0 (take 4 ctx.buffer) in
    let (grown, kept) = grow_fits n ctx.buffer in
    (
      record ctx {
        buffer = grow n ctx.buffer;
        msg_length = n;
        read_length = 0;
        state = reading_payload;
      },
      go_on,
      filled-length ctx n wide refl,
      record { within = omega arith; fits = grown; wide = omega (arith, kept) },
    )
filled-IsReading reading_payload ctx fits wide = (
  record ctx { msg_length = 4; read_length = 0; state = reading_length },
  message (take ctx.msg_length ctx.buffer),
  refl,
  record { within = omega arith; fits = wide; wide = wide },
)

-- The read of at most as many bytes as were asked for.
read-Sound :
    (bytes : List ℕ) (ctx : ReadContext)
    → IsReading ctx
    → ctx.read_length + length bytes ≤ ctx.msg_length
    → Sound (read bytes ctx)
unfolding read
read-Sound [] ctx v room = (ctx, eof, ground (arith, v.within, v.fits), v)
read-Sound (b ∷ bytes) ctx v room =
    let size = (take-overwrite ctx.read_length (b ∷ bytes) ctx.buffer (omega (arith, v.fits))).1 in
    let ctx' = after (b ∷ bytes) ctx in
    elim (Bool-cases (nat_beq (ctx.read_length + length (b ∷ bytes)) ctx.msg_length)) [
      | inl full ↦
          subst Sound (sym (read-full (b ∷ bytes) ctx (omega arith) (ground arith) v.fits)) (
            filled-IsReading ctx.state ctx' (omega (arith, v.fits, size))
              (omega (arith, v.wide, size)))
      | inr more ↦ (
        ctx',
        go_on,
        read-partial (b ∷ bytes) ctx (omega arith) (ground arith) v.fits,
        record {
          within = room;
          fits = omega (arith, v.fits, size);
          wide = omega (arith, v.wide, size);
        },
      )
    ]

given_most : (choice requested available : ℕ) → given choice requested available ≤ requested
unfolding given
given_most choice requested available = ground arith

given_some :
    (choice requested available : ℕ)
    → 0 < requested
    → 0 < available
    → 0 < given choice requested available
unfolding given
given_some choice requested available hr ha = ground arith

-- What a whole call of `receive` gives.
abbrev Received : (ℕ → ℕ) → ℕ → List ℕ → ReadContext → Type 0
Received choices fuel bytes ctx =
    (still_open : Bool) × (messages : List (List ℕ)) × (end : ReadContext) × (receive choices fuel
        bytes ctx
      ≡ ok (still_open, (messages, end)))
    × IsReading end

length-take_most : (n : ℕ) (xs : List ℕ) → length (take n xs) ≤ n
length-take_most zero xs = omega arith
length-take_most (suc n) [] = omega arith
length-take_most (suc n) (x ∷ xs) = omega (arith, length-take_most n xs)

receive_end :
    (choices : ℕ → ℕ) (fuel b : ℕ) (pending : List ℕ) (ctx ctx' : ReadContext)
    → IsReading ctx'
    → read (take (next_size choices fuel b pending ctx) (b ∷ pending)) ctx ≡ ok (ctx', eof)
    → Received choices (suc fuel) (b ∷ pending) ctx
unfolding receive
receive_end choices fuel b pending ctx ctx' v ran = (
  false,
  [],
  ctx',
  >>=-of-ok (read (take (next_size choices fuel b pending ctx) (b ∷ pending)) ctx) _ ran,
  v,
)

receive_step :
    (choices : ℕ → ℕ) (fuel b : ℕ) (pending : List ℕ) (ctx ctx' : ReadContext) (result : ReadResult)
    → IsReading ctx'
    → read (take (next_size choices fuel b pending ctx) (b ∷ pending)) ctx ≡ ok (ctx', result)
    → Received choices fuel (drop (next_size choices fuel b pending ctx) (b ∷ pending)) ctx'
    → Received choices (suc fuel) (b ∷ pending) ctx
unfolding receive
receive_step choices fuel b pending ctx ctx' eof v ran rest =
    receive_end choices fuel b pending ctx ctx' v ran
receive_step choices fuel b pending ctx ctx' go_on v ran (still_open, ms, end, rest, sound) = (
  still_open,
  ms,
  end,
  >>=-of-ok (read (take (next_size choices fuel b pending ctx) (b ∷ pending)) ctx) _ ran ∙ rest,
  sound,
)
receive_step choices fuel b pending ctx ctx' (message m) v ran (still_open, ms, end, rest, sound) =
    (
      still_open,
      m ∷ ms,
      end,
      >>=-of-ok (read (take (next_size choices fuel b pending ctx) (b ∷ pending)) ctx) _ ran
          ∙ >>=-of-ok
              (receive choices fuel (drop (next_size choices fuel b pending ctx) (b ∷ pending))
                ctx')
              _ rest,
      sound,
    )

-- From a reading context that is sound, any bytes at all, cut into reads in any way, are read without a
-- panic, whatever lengths they announce: as many rounds as there are bytes are enough, and the reading
-- context is sound again.
pub receive_total :
    (choices : ℕ → ℕ) (fuel : ℕ) (bytes : List ℕ) (ctx : ReadContext)
    → length bytes ≤ fuel
    → IsReading ctx
    → (still_open : Bool) × (messages : List (List ℕ)) × (end : ReadContext) × (receive choices fuel
          bytes ctx
        ≡ ok (still_open, (messages, end)))
      × IsReading end
unfolding receive
receive_total choices fuel [] ctx h v = (true, [], ctx, refl, v)
receive_total choices zero (b ∷ pending) ctx h v = absurd (omega arith)
receive_total choices (suc fuel) (b ∷ pending) ctx h v =
    let requested = ctx.msg_length - ctx.read_length in
    let n = next_size choices fuel b pending ctx in
    let most = given_most (choices fuel) requested (length (b ∷ pending)) in
    let chunk = take n (b ∷ pending) in
    let size = length-take_most n (b ∷ pending) in
    elim (Bool-cases (nat_beq ctx.read_length ctx.msg_length)) [
      | inl none ↦
          let zero_of : n ≡ 0 = ground (arith, most) in
          receive_end choices fuel b pending ctx ctx v (
            ap (λ k. read (take k (b ∷ pending)) ctx) zero_of
            ∙ unfold read in ground (arith, v.within, v.fits))
      | inr some ↦
          let some_given =
            given_some (choices fuel) requested (length (b ∷ pending)) (ground (arith, v.within))
              (omega arith) in
          let (ctx', result, ran, sound) =
            read-Sound chunk ctx v (omega (arith, size, most, v.within)) in
          receive_step choices fuel b pending ctx ctx' result sound ran (
            receive_total choices fuel (drop n (b ∷ pending)) ctx'
              (omega (arith, length-drop n (b ∷ pending), some_given)) sound)
    ]
