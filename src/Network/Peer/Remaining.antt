-- ===== src/Network/Peer/Remaining.antt =====
-- src/network/peer.rs: what `WriteContext::write` has still to send, and what a round of it keeps.

use f.Prelude.{ℕ, ◌+◌, ◌*◌, ◌≤◌, ◌<◌, ◌≡◌, List, [], ◌++◌, length, drop, if◌then◌else◌, All}
use f.Network.Peer.{frames}
use f.Network.Peer.Writer.{
  WriteResult, complete, eof, chan_closed, failed, WriteState, writing_length, writing_payload,
  WriteContext, Outcome, takes, rejects, Round, again, return,
}

-- How far the cursor goes in a state.
abbrev pub limit : WriteState → WriteContext → ℕ
limit writing_length ctx = 4
limit writing_payload ctx = length ctx.msg_buffer

pub record IsWriting (s : WriteState) (ctx : WriteContext) : Type 0 where
  pub four : length ctx.len_buffer ≡ 4
  pub whole : ctx.msg_length ≡ length ctx.msg_buffer
  pub within : ctx.written_length ≤ limit s ctx

-- The bytes that are still to be sent: the rest of the current message, and the queue.
abbrev pub remaining : WriteState → WriteContext → List ℕ
remaining writing_length ctx =
    drop ctx.written_length ctx.len_buffer ++ (ctx.msg_buffer ++ frames ctx.queue)
remaining writing_payload ctx = drop ctx.written_length ctx.msg_buffer ++ frames ctx.queue

-- How many outcomes it takes at most to send them, one flush for each message and one at the end.
abbrev pub work : WriteState → WriteContext → ℕ
work s ctx = length (remaining s ctx) + length ctx.queue + 1

abbrev pub rounds_left : WriteState → List Outcome → ℕ
rounds_left writing_length outcomes = 2 * length outcomes + 2
rounds_left writing_payload outcomes = 2 * length outcomes + 1

abbrev pub Takes : Outcome → Type 0
Takes (takes k) = Unit {0}
Takes rejects = ⊥

abbrev pub finished : WriteContext → WriteResult
finished ctx = if ctx.connected then complete else chan_closed

-- What is left after a result.
abbrev pub Leaves : WriteResult → List ℕ → Type 0
Leaves complete rest = rest ≡ []
Leaves chan_closed rest = rest ≡ []
Leaves eof rest = Unit {0}
Leaves failed rest = Unit {0}

-- What a round of the loop keeps.
abbrev pub Kept : WriteState → List Outcome → WriteContext → Round → Type 0
Kept s outcomes ctx (again bytes outcomes' ctx') =
    IsWriting ctx'.state ctx'
    × (bytes ++ remaining ctx'.state ctx' ≡ remaining s ctx)
    × (rounds_left ctx'.state outcomes' < rounds_left s outcomes)
    × (work ctx'.state ctx' + length outcomes ≤ work s ctx + length outcomes')
    × (ctx'.connected ≡ ctx.connected)
    × (All Takes outcomes → All Takes outcomes')
Kept s outcomes ctx (return result ctx') =
    IsWriting ctx'.state ctx'
    × (remaining ctx'.state ctx' ≡ remaining s ctx)
    × Leaves result (remaining s ctx)
    × (All Takes outcomes → 0 < length outcomes → result ≡ finished ctx)
