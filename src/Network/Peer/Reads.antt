-- ===== src/Network/Peer/Reads.antt =====
-- One read: what the socket gives, and the buffer before and after.
use mathlib.Core.List.{append_assoc}
use f.Prelude.{
  ℕ, zero, suc, ◌+◌, ◌-◌, ◌≤◌, ◌<◌, ◌≡◌, refl, ap, ◌∙◌, List, [], ◌∷◌, ◌++◌, arith, length,
  length-append, take, replicate, ok,
}
use f.Crypto.Hash.{be_bytes}
use f.Network.Peer.{
  reading_length, reading_payload, go_on, ReadContext, overwrite, grow, filled, read, given,
}
use f.Network.Peer.Buffer.{take-overwrite}

pub given_bounds :
    (choice requested available : ℕ)
    → 0 < requested
    → 0 < available
    → (0 < given choice requested available)
      × (given choice requested available ≤ requested)
      × (given choice requested available ≤ available)
unfolding given
given_bounds choice requested available hr ha = (ground arith, ground arith, ground arith)

-- The context after bytes that do not fill the current part.
abbrev pub after : List ℕ → ReadContext → ReadContext
after chunk ctx = record ctx {
  buffer = overwrite ctx.read_length chunk ctx.buffer;
  read_length = ctx.read_length + length chunk;
}

pub read-partial :
    (chunk : List ℕ) (ctx : ReadContext)
    → 0 < length chunk
    → ctx.read_length + length chunk < ctx.msg_length
    → ctx.msg_length ≤ length ctx.buffer
    → read chunk ctx ≡ ok (after chunk ctx, go_on)
unfolding read
read-partial [] ctx some_given h fits = absurd (omega arith)
read-partial (b ∷ chunk) ctx some_given h fits = ground arith

pub read-full :
    (chunk : List ℕ) (ctx : ReadContext)
    → 0 < length chunk
    → ctx.read_length + length chunk ≡ ctx.msg_length
    → ctx.msg_length ≤ length ctx.buffer
    → read chunk ctx ≡ filled ctx.state (after chunk ctx)
unfolding read
read-full [] ctx some_given h fits = absurd (omega arith)
read-full (b ∷ chunk) ctx some_given h fits = ground arith

pub joined :
    (at : ℕ) (chunk rest pending buffer : List ℕ)
    → at + length chunk ≤ length buffer
    → chunk ++ rest ≡ pending
    → take (at + length chunk) (overwrite at chunk buffer) ++ rest ≡ take at buffer ++ pending
joined at chunk rest pending buffer h e =
    ap (λ xs. xs ++ rest) (take-overwrite at chunk buffer h).0
    ∙ append_assoc (take at buffer) chunk rest
    ∙ ap (λ xs. take at buffer ++ xs) e

length-zeros : (k : ℕ) → length (replicate {A = ℕ} k 0) ≡ k
length-zeros zero = refl
length-zeros (suc k) = omega (arith, length-zeros k)

pub grow_fits :
    (n : ℕ) (buffer : List ℕ)
    → (n ≤ length (grow n buffer)) × (length buffer ≤ length (grow n buffer))
unfolding grow
grow_fits n buffer =
    let size = length-append buffer (replicate (n - length buffer) 0) in
    let zeros = length-zeros (n - length buffer) in
    (ground (arith, size, zeros), ground (arith, size, zeros))

pub filled-length :
    (ctx : ReadContext) (n : ℕ)
    → 4 ≤ length ctx.buffer
    → be_bytes 0 (take 4 ctx.buffer) ≡ n
    → filled reading_length ctx
      ≡ ok (
        record ctx {
          buffer = grow n ctx.buffer;
          msg_length = n;
          read_length = 0;
          state = reading_payload;
        },
        go_on,
      )
unfolding filled
filled-length ctx n wide e = ground (arith, e)
