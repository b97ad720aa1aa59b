-- ===== src/Tests/Peer.antt =====
-- A connection, with two messages on it and with bytes that are no frames.
use f.Prelude.{ℕ, ◌+◌, ◌<◌, ◌≡◌, refl, Bool, List, [], ◌∷◌, ◌++◌, replicate, length, All, ok, arith}
use f.Network.Peer.{ReadContext, new_reader, receive, frames}
use f.Network.Peer.Steps.{IsPayload}
use f.Network.Peer.Totality.{IsReading, receive_total}
use f.Network.Peer.Writer.{WriteResult, WriteContext, new_writer, Outcome, takes, rejects, write}
use f.Network.Peer.Remaining.{IsWriting, Takes, Leaves}
use f.Network.Peer.Writing.{to_send, write_lem}

abbrev two_messages : List (List ℕ)
two_messages = (5 ∷ 6 ∷ 7 ∷ []) ∷ (8 ∷ []) ∷ []

two_messages-IsPayload : All IsPayload two_messages
two_messages-IsPayload = ((omega arith, omega arith), ((omega arith, omega arith), tt))

-- Reads of three bytes at most.
abbrev in_threes : ℕ → ℕ
in_threes round = 2

-- A length of more than the bytes that follow, in reads of three bytes.
abbrev stray_bytes : List ℕ
stray_bytes = 0 ∷ 0 ∷ 1 ∷ 0 ∷ 7 ∷ []

new_reader-IsReading : IsReading new_reader
new_reader-IsReading = record { within = omega arith; fits = omega arith; wide = omega arith }

receive_total_example :
    (still_open : Bool) × (messages : List (List ℕ)) × (end : ReadContext) × (receive in_threes 5
        stray_bytes new_reader
      ≡ ok (still_open, (messages, end)))
    × IsReading end
receive_total_example =
    receive_total in_threes 5 stray_bytes new_reader (omega arith) new_reader-IsReading

-- A writer with a message of two bytes in its queue.
abbrev one_queued : WriteContext
one_queued = record new_writer { queue = (4 ∷ 5 ∷ []) ∷ [] }

one_queued-IsWriting : IsWriting one_queued.state one_queued
one_queued-IsWriting = record { four = refl; whole = refl; within = omega arith }

write_lem_example :
    (sent : List ℕ) × (result : WriteResult) × (ctx' : WriteContext) × (write
        (takes 0 ∷ takes 2 ∷ rejects ∷ [])
        one_queued
      ≡ ok (sent, (result, ctx')))
    × (sent ++ to_send ctx' ≡ to_send one_queued)
    × Leaves result (to_send ctx')
    × IsWriting ctx'.state ctx'
write_lem_example = write_lem (takes 0 ∷ takes 2 ∷ rejects ∷ []) one_queued one_queued-IsWriting

abbrev in_twos : ℕ → List Outcome
in_twos n = replicate n (takes 1)

eight_Takes : All Takes (in_twos 8)
eight_Takes = (tt, (tt, (tt, (tt, (tt, (tt, (tt, (tt, tt))))))))

enough : length (to_send one_queued) + length one_queued.queue < length (in_twos 8)
unfolding frames
enough = omega arith

fifteen_Takes : All Takes (in_twos 15)
fifteen_Takes =
    (tt, (tt, (tt, (tt, (tt, (tt, (tt, (tt, (tt, (tt, (tt, (tt, (tt, (tt, (tt, tt)))))))))))))))

enough_for_two : length (frames two_messages) + length two_messages < length (in_twos 15)
unfolding frames
enough_for_two = omega arith
