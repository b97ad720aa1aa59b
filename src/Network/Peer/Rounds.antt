-- ===== src/Network/Peer/Rounds.antt =====
-- src/network/peer.rs: one round of `WriteContext::write`.
use mathlib.Core.List.{append_assoc}
use f.Prelude.{
  length-drop, ℕ, zero, suc, ◌+◌, ◌≤◌, ◌<◌, ◌≡◌, refl, sym, ap, ◌∙◌, subst, List, [], ◌∷◌, ◌++◌,
  Bool, true, false, ◌&&◌, arith, length, length-append, take_whole, drop-nil, take, drop, leb,
  nat_beq, if◌then◌else◌, Bool-cases, inl, inr, ok,
}
use f.Network.Peer.{to_be_bytes, frame, frames}
use f.Network.Peer.Remaining.{limit, IsWriting, remaining, rounds_left, Leaves, Kept}
use f.Network.Peer.Writer.{
  complete, chan_closed, WriteState, writing_length, writing_payload, WriteContext, Outcome, takes,
  rejects, Round, again, write_slice, next_message, flush, round_in,
}

drop-add : (m n : ℕ) (xs : List ℕ) → drop (m + n) xs ≡ drop n (drop m xs)
drop-add zero n xs = ap (λ (k : ℕ). drop k xs) (omega arith)
drop-add (suc m) n [] = drop-nil (suc m + n) ∙ sym (drop-nil n)
drop-add (suc m) n (x ∷ xs) =
    let shifted : suc m + n ≡ suc (m + n) = omega arith in rw shifted (drop-add m n xs)

-- What is taken of a list, and what it leaves.
take_part :
    (k : ℕ) (xs : List ℕ)
    → (length (take k xs) ≤ length xs) × (take k xs ++ drop (length (take k xs)) xs ≡ xs)
take_part zero xs = (omega arith, refl)
take_part (suc k) [] = (omega arith, refl)
take_part (suc k) (x ∷ xs) = let (le, e) = take_part k xs in (omega arith, ap (λ ys. x ∷ ys) e)

take_some : (k : ℕ) (xs : List ℕ) → 0 < length xs → 0 < length (take (suc k) xs)
take_some k [] h = h
take_some k (x ∷ xs) h = omega arith

-- A slice of which some bytes are sent: these, and what is left of it.
slice_sent :
    (k written : ℕ) (buffer : List ℕ)
    → written < length buffer
    → (0 < length (take (suc k) (drop written buffer)))
      × (written + length (take (suc k) (drop written buffer)) ≤ length buffer)
      × (take (suc k) (drop written buffer)
            ++ drop (written + length (take (suc k) (drop written buffer))) buffer
          ≡ drop written buffer)
slice_sent k written buffer h =
    let rest = drop written buffer in
    let (le, e) = take_part (suc k) rest in
    let size = length-drop written buffer in
    (
      take_some k rest (omega arith),
      omega arith,
      ap (λ ys. take (suc k) rest ++ ys) (drop-add written (length (take (suc k) rest)) buffer) ∙ e,
    )

rounds_fewer :
    (s : WriteState) (o : Outcome) (os : List Outcome) → rounds_left s os < rounds_left s (o ∷ os)
rounds_fewer writing_length o os = omega arith
rounds_fewer writing_payload o os = omega arith

-- The cursor of `ctx` at `n`.
abbrev moved_to : ℕ → WriteContext → WriteContext
moved_to n ctx = record ctx { written_length = n }

-- A write out of a slice of `buffer`, with `behind` still to come after it.
write_slice-Kept :
    (s : WriteState) (outcomes : List Outcome) (ctx : WriteContext) (buffer behind : List ℕ)
    → IsWriting s ctx
    → ctx.state ≡ s
    → ctx.written_length < length buffer
    → ((n : ℕ) → remaining s (moved_to n ctx) ≡ drop n buffer ++ behind)
    → ((n : ℕ) → n ≤ length buffer → n ≤ limit s (moved_to n ctx))
    → Kept s outcomes ctx (write_slice (drop ctx.written_length buffer) outcomes ctx)
unfolding write_slice
write_slice-Kept s [] ctx buffer behind v at below rest room = (
  subst (λ t. IsWriting t ctx) (sym at) v,
  ap (λ t. remaining t ctx) at,
  tt,
  λ all some. absurd (omega arith),
)
write_slice-Kept s (rejects ∷ outcomes) ctx buffer behind v at below rest room = (
  subst (λ t. IsWriting t ctx) (sym at) v,
  ap (λ t. remaining t ctx) at,
  tt,
  λ all some. absurd (all.0),
)
write_slice-Kept s (takes k ∷ outcomes) ctx buffer behind v at below rest room =
    let (some, fits, whole) = slice_sent k ctx.written_length buffer below in
    let bytes = take (suc k) (drop ctx.written_length buffer) in
    let ctx' = moved_to (ctx.written_length + length bytes) ctx in
    let sent : bytes ++ remaining s ctx' ≡ remaining s ctx =
      ap (λ ys. bytes ++ ys) (rest (ctx.written_length + length bytes))
      ∙ sym (append_assoc bytes (drop (ctx.written_length + length bytes) buffer) behind)
      ∙ ap (λ ys. ys ++ behind) whole
      ∙ sym (rest ctx.written_length) in
    let not_zero : nat_beq (length bytes) 0 ≡ false = ground arith in
    rw not_zero (
      subst (λ t. IsWriting t ctx') (sym at)
          (record {
            four = v.four;
            whole = v.whole;
            within = room (ctx.written_length + length bytes) fits;
          }),
      ap (λ t. bytes ++ remaining t ctx') at ∙ sent,
      subst (λ t. rounds_left t outcomes < rounds_left s (takes k ∷ outcomes)) (sym at)
          (rounds_fewer s (takes k) outcomes),
      omega (
        arith,
        ap (λ t. length (remaining t ctx')) at,
        ap length sent,
        length-append bytes (remaining s ctx'),
      ),
      refl,
      λ all. all.1,
    )

drop_all : (n : ℕ) (xs : List ℕ) → n ≡ length xs → drop n xs ≡ []
drop_all zero [] h = refl
drop_all zero (x ∷ xs) h = absurd (omega arith)
drop_all (suc n) [] h = refl
drop_all (suc n) (x ∷ xs) h = drop_all n xs (omega arith)

finished-Leaves :
    (connected : Bool) (rest : List ℕ)
    → rest ≡ []
    → Leaves (if connected then complete else chan_closed) rest
finished-Leaves true rest e = e
finished-Leaves false rest e = e

flush-Kept :
    (outcomes : List Outcome) (ctx : WriteContext)
    → IsWriting writing_payload ctx
    → ctx.state ≡ writing_payload
    → ctx.written_length ≡ length ctx.msg_buffer
    → Kept writing_payload outcomes ctx (flush outcomes ctx)
unfolding flush frames frame
flush-Kept [] ctx v at full = (
  subst (λ t. IsWriting t ctx) (sym at) v,
  ap (λ t. remaining t ctx) at,
  tt,
  λ all some. absurd (omega arith),
)
flush-Kept (rejects ∷ outcomes) ctx v at full = (
  subst (λ t. IsWriting t ctx) (sym at) v,
  ap (λ t. remaining t ctx) at,
  tt,
  λ all some. absurd (all.0),
)
flush-Kept (takes k ∷ outcomes) ctx v at full = go ctx.queue refl
  where
    left : remaining writing_payload ctx ≡ frames ctx.queue
    left = ap (λ ys. ys ++ frames ctx.queue) (drop_all ctx.written_length ctx.msg_buffer full)

    go :
        (queue : List (List ℕ))
        → ctx.queue ≡ queue
        → Kept writing_payload (takes k ∷ outcomes) ctx (next_message outcomes ctx queue)
    go [] e = (
      subst (λ t. IsWriting t ctx) (sym at) v,
      ap (λ t. remaining t ctx) at,
      finished-Leaves ctx.connected (remaining writing_payload ctx) (left ∙ ap frames e),
      λ all some. refl,
    )
    go (msg ∷ queue) e =
        let same : to_be_bytes (length msg) ++ (msg ++ frames queue)
            ≡ remaining writing_payload ctx =
          sym (append_assoc (to_be_bytes (length msg)) msg (frames queue))
          ∙ ap frames (sym e)
          ∙ sym left in
        (
          record { four = unfold to_be_bytes in refl; whole = refl; within = omega arith },
          same,
          omega arith,
          omega (arith, ap length same, ap length e),
          refl,
          λ all. all.1,
        )

-- A round from a sound context does not panic, and what it sends and what is then left is what was left.
pub round_in-Kept :
    (s : WriteState) (outcomes : List Outcome) (ctx : WriteContext)
    → IsWriting s ctx
    → ctx.state ≡ s
    → (round : Round) × (round_in s outcomes ctx ≡ ok round) × Kept s outcomes ctx round
unfolding round_in
round_in-Kept writing_length outcomes ctx v at = elim (Bool-cases (nat_beq ctx.written_length 4)) [
  | inl full ↦
      let four : ctx.written_length ≡ length ctx.len_buffer = ground (arith, v.four) in
      let same : ctx.msg_buffer ++ frames ctx.queue ≡ remaining writing_length ctx =
        ap (λ ys. ys ++ (ctx.msg_buffer ++ frames ctx.queue))
          (sym (drop_all ctx.written_length ctx.len_buffer four)) in
      (
        again [] outcomes (record ctx { written_length = 0; state = writing_payload }),
        rw full,
        (
          record { four = v.four; whole = v.whole; within = omega arith },
          same,
          omega arith,
          omega (arith, ap length same),
          refl,
          λ all. all,
        ),
      )
  | inr more ↦
      let fits : leb ctx.written_length 4 ≡ true = ground (arith, v.within) in
      (
        write_slice (drop ctx.written_length ctx.len_buffer) outcomes ctx,
        rw (more, fits),
        write_slice-Kept writing_length outcomes ctx ctx.len_buffer
            (ctx.msg_buffer ++ frames ctx.queue) v at (ground (arith, v.four, v.within)) (λ n. refl)
            (λ n h. omega (arith, v.four)),
      )
]
round_in-Kept writing_payload outcomes ctx v at =
    elim (Bool-cases (nat_beq ctx.written_length ctx.msg_length)) [
      | inl full ↦
          (flush outcomes ctx, rw full, flush-Kept outcomes ctx v at (ground (arith, v.whole)))
      | inr more ↦
          let fits : (leb ctx.written_length ctx.msg_length
                && leb ctx.msg_length (length ctx.msg_buffer))
              ≡ true =
            ground (arith, v.within, v.whole) in
          let all_of : take ctx.msg_length ctx.msg_buffer ≡ ctx.msg_buffer =
            ap (λ (n : ℕ). take n ctx.msg_buffer) v.whole
            ∙ take_whole (length ctx.msg_buffer) ctx.msg_buffer (omega arith) in
          (
            write_slice (drop ctx.written_length ctx.msg_buffer) outcomes ctx,
            rw (more, fits, all_of),
            write_slice-Kept writing_payload outcomes ctx ctx.msg_buffer (frames ctx.queue) v at
                (ground (arith, v.whole, v.within)) (λ n. refl) (λ n h. h),
          )
    ]
