-- ===== src/Network/Peer/Writer.antt =====
-- src/network/peer.rs: the writing half of a connection. What the buffered socket does with each call of
-- `write` and of `flush` is a list of outcomes, and after the last of them it would block.
use f.Prelude.{
  ℕ, zero, suc, ◌+◌, ◌*◌, List, [], ◌∷◌, ◌++◌, Bool, true, ◌&&◌, length, take, drop, replicate, leb,
  nat_beq, if◌then◌else◌, Result, ok, panic, out_of_fuel, ◌>>=◌,
}
use f.Network.Peer.{to_be_bytes}

pub data WriteResult : Type 0 where
  complete : WriteResult
  eof : WriteResult
  chan_closed : WriteResult
  -- `Err(e)`
  failed : WriteResult

pub data WriteState : Type 0 where
  writing_length writing_payload : WriteState

-- `WriteContext`, without the socket. `connected` says whether the queue has a sender.
pub record WriteContext : Type 0 where
  pub queue : List (List ℕ)
  pub connected : Bool
  pub len_buffer : List ℕ
  pub msg_buffer : List ℕ
  pub msg_length : ℕ
  pub written_length : ℕ
  pub state : WriteState

-- The writing context that `new` makes.
abbrev pub new_writer : WriteContext
new_writer = record {
  queue = [];
  connected = true;
  len_buffer = replicate 4 0;
  msg_buffer = [];
  msg_length = 0;
  written_length = 0;
  state = writing_payload;
}

-- `Handle::write`, of a message that has been serialised
unfoldable pub enqueue : List ℕ → WriteContext → WriteContext
enqueue buffer ctx = record ctx { queue = ctx.queue ++ buffer ∷ [] }

-- `takes k` accepts k + 1 bytes, or all where there are fewer; `rejects` accepts none. For `flush` the one
-- is success and the other is an error.
pub data Outcome : Type 0 where
  takes : ℕ → Outcome
  rejects : Outcome

-- What a round of the loop does: it goes on, having sent some bytes, or returns.
pub data Round : Type 0 where
  again : List ℕ → List Outcome → WriteContext → Round
  return : WriteResult → WriteContext → Round

-- `self.writer.write(slice)?`, and the cursor. An empty slice is written as 0 bytes.
unfoldable pub write_slice : List ℕ → List Outcome → WriteContext → Round
write_slice slice [] ctx = return failed ctx
write_slice slice (rejects ∷ outcomes) ctx = return eof ctx
write_slice slice (takes k ∷ outcomes) ctx =
    let bytes = take (suc k) slice in
    if nat_beq (length bytes) 0
    then return eof ctx
    else again bytes outcomes (record ctx { written_length = ctx.written_length + length bytes })

-- `self.queue.try_recv()` after a flush that succeeded
unfoldable pub next_message : List Outcome → WriteContext → List (List ℕ) → Round
next_message outcomes ctx [] = return (if ctx.connected then complete else chan_closed) ctx
next_message outcomes ctx (msg ∷ queue) = again [] outcomes (record ctx {
  queue = queue;
  msg_buffer = msg;
  msg_length = length msg;
  len_buffer = to_be_bytes (length msg);
  written_length = 0;
  state = writing_length;
})

-- `self.writer.flush()?`
unfoldable pub flush : List Outcome → WriteContext → Round
unfolding next_message
flush [] ctx = return failed ctx
flush (rejects ∷ outcomes) ctx = return failed ctx
flush (takes k ∷ outcomes) ctx = next_message outcomes ctx ctx.queue

-- A round of the loop, on the state of `ctx`.
unfoldable pub round_in : WriteState → List Outcome → WriteContext → Result Round
unfolding write_slice flush
round_in writing_length outcomes ctx =
    if nat_beq ctx.written_length 4
    then ok (again [] outcomes (record ctx { written_length = 0; state = writing_payload }))
    else if leb ctx.written_length 4
    then ok (write_slice (drop ctx.written_length ctx.len_buffer) outcomes ctx)
    else panic
round_in writing_payload outcomes ctx =
    if nat_beq ctx.written_length ctx.msg_length
    then ok (flush outcomes ctx)
    else if leb ctx.written_length ctx.msg_length && leb ctx.msg_length (length ctx.msg_buffer)
    then ok
        (write_slice (drop ctx.written_length (take ctx.msg_length ctx.msg_buffer)) outcomes ctx)
    else panic

-- `WriteContext::write`: the bytes that the socket accepted, the result, and the context. Each round but
-- those that only change the state takes an outcome, so twice as many rounds and two are fuel enough.
unfoldable pub write_loop :
    ℕ → List Outcome → WriteContext → Result (List ℕ × (WriteResult × WriteContext))
unfolding round_in
write_loop zero outcomes ctx = out_of_fuel
write_loop (suc fuel) outcomes ctx = do
  round ← round_in ctx.state outcomes ctx
  elim round [
    | return result ctx' ↦ ok ([], (result, ctx'))
    | again bytes outcomes' ctx' ↦ do
      (sent, end) ← write_loop fuel outcomes' ctx'
      ok (bytes ++ sent, end)
  ]

unfoldable pub write : List Outcome → WriteContext → Result (List ℕ × (WriteResult × WriteContext))
unfolding write_loop
write outcomes ctx = write_loop (2 * length outcomes + 2) outcomes ctx
