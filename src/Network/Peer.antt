-- ===== src/Network/Peer.antt =====
-- src/network/peer.rs: the reading half of a connection. A message travels as four bytes of its length,
-- most significant first, and its bytes. `receive` is the loop of src/network/server.rs that reads until
-- the socket has nothing left.
pub mod Buffer
pub mod Reads
pub mod Steps
pub mod Framing
pub mod Totality
pub mod Writer
pub mod Remaining
pub mod Rounds
pub mod Writing
use f.Prelude.{
  ℕ, zero, suc, ◌+◌, ◌-◌, ◌/◌, ◌%◌, Bool, true, false, Option, none, some, List, [], ◌∷◌, ◌++◌,
  length, is_empty, take, drop, replicate, leb, nat_beq, ◌&&◌, if◌then◌else◌, Result, ok, panic,
  out_of_fuel, ◌>>=◌, ltb,
}
use f.Crypto.Hash.{be_bytes}

pub data DecodeState : Type 0 where
  reading_length reading_payload : DecodeState

pub data ReadResult : Type 0 where
  go_on : ReadResult
  message : List ℕ → ReadResult
  eof : ReadResult

-- `ReadContext`, without the socket
pub record ReadContext : Type 0 where
  pub buffer : List ℕ
  pub msg_length : ℕ
  pub read_length : ℕ
  pub state : DecodeState

-- The reading context that `new` makes.
abbrev pub new_reader : ReadContext
new_reader = record {
  buffer = replicate 4 0;
  msg_length = 4;
  read_length = 0;
  state = reading_length;
}

-- The buffer after `bytes` have been read into it from the index `at` on.
unfoldable pub overwrite : ℕ → List ℕ → List ℕ → List ℕ
overwrite at bytes buffer = take at buffer ++ (bytes ++ drop (at + length bytes) buffer)

-- `if buffer.len() < n { buffer.resize(n, 0) }`
unfoldable pub grow : ℕ → List ℕ → List ℕ
grow n buffer = if ltb (length buffer) n then buffer ++ replicate (n - length buffer) 0 else buffer

-- The buffer is full up to `msg_length`.
unfoldable pub filled : DecodeState → ReadContext → Result (ReadContext × ReadResult)
unfolding grow
filled reading_length ctx =
    let message_length = be_bytes 0 (take 4 ctx.buffer) in
    if leb 4 (length ctx.buffer)
    then ok (
      record ctx {
        buffer = grow message_length ctx.buffer;
        msg_length = message_length;
        read_length = 0;
        state = reading_payload;
      },
      go_on,
    )
    else panic
filled reading_payload ctx = ok (
  record ctx { msg_length = 4; read_length = 0; state = reading_length },
  message (take ctx.msg_length ctx.buffer),
)

-- `ReadContext::read`, where the socket gives `bytes`, at most as many as asked for. An error of the
-- socket is passed on and leaves the context as it is.
unfoldable pub read : List ℕ → ReadContext → Result (ReadContext × ReadResult)
unfolding overwrite filled
read bytes ctx =
    let read_length = ctx.read_length + length bytes in
    let ctx' = record ctx {
      buffer = overwrite ctx.read_length bytes ctx.buffer;
      read_length = read_length;
    } in
    if leb ctx.read_length ctx.msg_length && leb ctx.msg_length (length ctx.buffer)
    then (if is_empty bytes
        then ok (ctx, eof)
        else if nat_beq read_length ctx.msg_length
        then filled ctx.state ctx'
        else ok (ctx', go_on))
    else panic

-- How many bytes the socket gives of `available` ones, if `requested` are asked for: one at least, if
-- there can be one, and further ones as `choice` says.
unfoldable pub given : ℕ → ℕ → ℕ → ℕ
given choice requested available =
    if ltb choice requested
    then (if ltb choice available then suc choice else available)
    else if ltb requested available
    then requested
    else available

-- The loop over `read` in `process_readable` until the socket would block, with fuel for the rounds:
-- the messages, and whether the connection is still open. The socket has no other error.
unfoldable pub receive :
    (ℕ → ℕ) → ℕ → List ℕ → ReadContext → Result (Bool × (List (List ℕ) × ReadContext))
unfolding read given
receive choices fuel [] ctx = ok (true, ([], ctx))
receive choices zero (b ∷ pending) ctx = out_of_fuel
receive choices (suc fuel) (b ∷ pending) ctx = do
  let n = given (choices fuel) (ctx.msg_length - ctx.read_length) (length (b ∷ pending))
  (ctx', result) ← read (take n (b ∷ pending)) ctx
  let rest = receive choices fuel (drop n (b ∷ pending)) ctx'
  elim result [
    | go_on ↦ rest
    | message m ↦ do (still_open, (ms, end)) ← rest; ok (still_open, (m ∷ ms, end))
    | eof ↦ ok (false, ([], ctx'))
  ]

-- `u32::to_be_bytes`
unfoldable pub to_be_bytes : ℕ → List ℕ
to_be_bytes n = (n / 16777216 % 256) ∷ (n / 65536 % 256) ∷ (n / 256 % 256) ∷ (n % 256) ∷ []

-- What `WriteContext::write` sends for a message: its length, as a `u32`, and its bytes.
unfoldable pub frame : List ℕ → List ℕ
unfolding to_be_bytes
frame m = to_be_bytes (length m) ++ m

unfoldable pub frames : List (List ℕ) → List ℕ
unfolding frame
frames [] = []
frames (m ∷ ms) = frame m ++ frames ms
