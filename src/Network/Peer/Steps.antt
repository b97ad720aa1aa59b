-- ===== src/Network/Peer/Steps.antt =====
-- What one read does to the part of a message that has been read.

use f.Prelude.{
  length-take, ℕ, ◌+◌, ◌≤◌, ◌<◌, ◌^◌, ◌≡◌, refl, sym, ap, ◌∙◌, List, [], ◌∷◌, ◌++◌, arith, length,
  length-append, take, All, ok,
}
use f.Crypto.Hash.{be_bytes}
use f.Network.Peer.{
  reading_length, reading_payload, go_on, message, ReadContext, overwrite, grow, filled, read,
  to_be_bytes, frame, frames,
}
use f.Network.Peer.Buffer.{append_split, be_bytes-to_be_bytes, take-overwrite}
use f.Network.Peer.Reads.{after, read-partial, read-full, joined, grow_fits, filled-length}

-- A message that a frame can carry.
abbrev pub IsPayload : List ℕ → Type 0
IsPayload m = (0 < length m) × (length m < 2 ^ 32)

-- The context between two messages.
pub record AtRest (ctx : ReadContext) : Type 0 where
  pub awaits_length : ctx.state ≡ reading_length
  pub whole_length : ctx.msg_length ≡ 4
  pub none_read : ctx.read_length ≡ 0
  pub wide : 4 ≤ length ctx.buffer

-- What has been read of the current part, and what is pending, are what is left of the frames.
pub data Awaits (ctx : ReadContext) (pending : List ℕ) : List (List ℕ) → Type 0 where
  at_length :
      (ms : List (List ℕ))
      → ctx.state ≡ reading_length
      → ctx.msg_length ≡ 4
      → ctx.read_length < 4
      → 4 ≤ length ctx.buffer
      → take ctx.read_length ctx.buffer ++ pending ≡ frames ms
      → All IsPayload ms
      → Awaits ctx pending ms
  at_payload :
      (m : List ℕ) (ms : List (List ℕ))
      → ctx.state ≡ reading_payload
      → ctx.msg_length ≡ length m
      → ctx.read_length < length m
      → length m ≤ length ctx.buffer
      → 4 ≤ length ctx.buffer
      → take ctx.read_length ctx.buffer ++ pending ≡ m ++ frames ms
      → All IsPayload ms
      → Awaits ctx pending (m ∷ ms)

pub length-frames : (m : List ℕ) (ms : List (List ℕ)) → 4 ≤ length (frames (m ∷ ms))
unfolding frames frame to_be_bytes
length-frames m ms = omega arith

-- What a read of `chunk` does.
pub data Next (ctx : ReadContext) (chunk rest : List ℕ) (ms : List (List ℕ)) : Type 0 where
  moved :
      (ctx' : ReadContext)
      → read chunk ctx ≡ ok (ctx', go_on)
      → Awaits ctx' rest ms
      → Next ctx chunk rest ms
  got :
      (ctx' : ReadContext) (m : List ℕ) (ms' : List (List ℕ))
      → ms ≡ m ∷ ms'
      → read chunk ctx ≡ ok (ctx', message m)
      → Awaits ctx' rest ms'
      → Next ctx chunk rest ms

-- The length of the next message has been read.
length_read :
    (chunk rest pending : List ℕ) (ctx : ReadContext) (ms : List (List ℕ))
    → ctx.state ≡ reading_length
    → ctx.msg_length ≡ 4
    → 4 ≤ length ctx.buffer
    → 0 < length chunk
    → ctx.read_length + length chunk ≡ 4
    → chunk ++ rest ≡ pending
    → take ctx.read_length ctx.buffer ++ pending ≡ frames ms
    → All IsPayload ms
    → Next ctx chunk rest ms
unfolding frames frame to_be_bytes
length_read chunk rest pending ctx [] st len wide some_given full e f ps = absurd (
    omega (
      arith,
      ap length f,
      ap length e,
      length-append chunk rest,
      length-append (take ctx.read_length ctx.buffer) pending,
      length-take ctx.read_length ctx.buffer (omega arith),
    ))
length_read chunk rest pending ctx (m ∷ ms) st len wide some_given full e f ps =
    let over = overwrite ctx.read_length chunk ctx.buffer in
    let size : length over ≡ length ctx.buffer =
      (take-overwrite ctx.read_length chunk ctx.buffer (omega arith)).1 in
    let whole : take 4 over ++ rest ≡ to_be_bytes (length m) ++ (m ++ frames ms) =
      ap (λ k. take k over ++ rest) (sym full)
      ∙ joined ctx.read_length chunk rest pending ctx.buffer (omega arith) e
      ∙ f in
    let (bytes, left) =
      append_split (take 4 over) rest (to_be_bytes (length m)) (m ++ frames ms)
        (length-take 4 over (omega arith)) whole in
    let decoded : be_bytes 0 (take 4 over) ≡ length m =
      ap (be_bytes 0) bytes ∙ be_bytes-to_be_bytes (length m) ps.0.1 in
    let (fits, grown) = grow_fits (length m) over in
    moved
      (record ctx {
        buffer = grow (length m) over;
        msg_length = length m;
        read_length = 0;
        state = reading_payload;
      })
      (read-full chunk ctx some_given (omega arith) (omega arith)
        ∙ ap (λ st'. filled st' (after chunk ctx)) st
        ∙ filled-length (after chunk ctx) (length m) (omega arith) decoded)
      (at_payload m ms refl refl ps.0.0 fits (omega arith) left ps.1)

payload_read :
    (chunk rest pending : List ℕ) (ctx : ReadContext) (m : List ℕ) (ms : List (List ℕ))
    → ctx.state ≡ reading_payload
    → ctx.msg_length ≡ length m
    → length m ≤ length ctx.buffer
    → 4 ≤ length ctx.buffer
    → 0 < length chunk
    → ctx.read_length + length chunk ≡ length m
    → chunk ++ rest ≡ pending
    → take ctx.read_length ctx.buffer ++ pending ≡ m ++ frames ms
    → All IsPayload ms
    → Next ctx chunk rest (m ∷ ms)
unfolding filled
payload_read chunk rest pending ctx m ms st len fits wide some_given full e f ps =
    let over = overwrite ctx.read_length chunk ctx.buffer in
    let size : length over ≡ length ctx.buffer =
      (take-overwrite ctx.read_length chunk ctx.buffer (omega arith)).1 in
    let whole : take (length m) over ++ rest ≡ m ++ frames ms =
      ap (λ k. take k over ++ rest) (sym full)
      ∙ joined ctx.read_length chunk rest pending ctx.buffer (omega arith) e
      ∙ f in
    let (bytes, left) =
      append_split (take (length m) over) rest m (frames ms)
        (length-take (length m) over (omega arith)) whole in
    got (record ctx { buffer = over; msg_length = 4; read_length = 0; state = reading_length }) m ms
      refl
      (read-full chunk ctx some_given (omega arith) (omega arith)
        ∙ ap (λ st'. filled st' (after chunk ctx)) st
        ∙ rw (len, bytes))
      (at_length ms refl refl (omega arith) (omega arith) left ps)

pub partial_read :
    (chunk rest pending : List ℕ) (ctx : ReadContext) (ms : List (List ℕ))
    → 0 < length chunk
    → ctx.read_length + length chunk < ctx.msg_length
    → chunk ++ rest ≡ pending
    → Awaits ctx pending ms
    → Next ctx chunk rest ms
partial_read chunk rest pending ctx _ some_given below e (at_length ms st len under wide f ps) =
    moved (after chunk ctx) (read-partial chunk ctx some_given below (omega arith)) (
      at_length ms st len (omega arith)
        (omega (arith, (take-overwrite ctx.read_length chunk ctx.buffer (omega arith)).1))
        (joined ctx.read_length chunk rest pending ctx.buffer (omega arith) e ∙ f) ps)
partial_read chunk rest pending ctx _ some_given below e
      (at_payload m ms st len under fits wide f ps) =
    let size = (take-overwrite ctx.read_length chunk ctx.buffer (omega arith)).1 in
    moved (after chunk ctx) (read-partial chunk ctx some_given below (omega arith)) (
      at_payload m ms st len (omega arith) (omega (arith, size)) (omega (arith, size))
        (joined ctx.read_length chunk rest pending ctx.buffer (omega arith) e ∙ f) ps)

pub full_read :
    (chunk rest pending : List ℕ) (ctx : ReadContext) (ms : List (List ℕ))
    → 0 < length chunk
    → ctx.read_length + length chunk ≡ ctx.msg_length
    → chunk ++ rest ≡ pending
    → Awaits ctx pending ms
    → Next ctx chunk rest ms
full_read chunk rest pending ctx _ some_given full e (at_length ms st len under wide f ps) =
    length_read chunk rest pending ctx ms st len wide some_given (omega arith) e f ps
full_read chunk rest pending ctx _ some_given full e (at_payload m ms st len under fits wide f ps) =
    payload_read chunk rest pending ctx m ms st len fits wide some_given (omega arith) e f ps
