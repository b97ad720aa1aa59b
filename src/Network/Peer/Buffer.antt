-- ===== src/Network/Peer/Buffer.antt =====
-- Parts of lists, and the bytes of a length.
use mathlib.Core.List.{append_assoc}
use f.Prelude.{
  length-take, length-drop, take-append, ℕ, ◌+◌, ◌^◌, ◌≤◌, ◌<◌, ◌≡◌, refl, sym, ap, ◌∙◌, List, [],
  ◌∷◌, ◌++◌, arith, length, length-append, take, drop,
}
use f.Crypto.Hash.{be_bytes}
use f.Network.Peer.{overwrite, to_be_bytes}

-- Two splits of one list at the same length.
pub append_split {ℓ} :
    {A : Type ℓ} (a b c d : List A) → length a ≡ length c → a ++ b ≡ c ++ d → (a ≡ c) × (b ≡ d)
append_split [] b [] d h e = (refl, e)
append_split [] b (x ∷ c) d h e = absurd (omega arith)
append_split (x ∷ a) b [] d h e = absurd (omega arith)
append_split (x ∷ a) b (y ∷ c) d h e = let (p, q) = append_split a b c d (omega arith) cc in (cc, q)

pub be_bytes-to_be_bytes : (n : ℕ) → n < 2 ^ 32 → be_bytes 0 (to_be_bytes n) ≡ n
unfolding be_bytes to_be_bytes
be_bytes-to_be_bytes n h = omega arith

pub take-overwrite :
    (at : ℕ) (bytes buffer : List ℕ)
    → at + length bytes ≤ length buffer
    → (take (at + length bytes) (overwrite at bytes buffer) ≡ take at buffer ++ bytes)
      × (length (overwrite at bytes buffer) ≡ length buffer)
unfolding overwrite
take-overwrite at bytes buffer h =
    let size = length-take at buffer (omega arith) in
    let rest = drop (at + length bytes) buffer in
    (
      ap (take (at + length bytes)) (sym (append_assoc (take at buffer) bytes rest))
          ∙ take-append (at + length bytes) (take at buffer ++ bytes) rest
              (omega (arith, length-append (take at buffer) bytes)),
      omega (
        arith,
        length-append (take at buffer) (bytes ++ rest),
        length-append bytes rest,
        length-drop (at + length bytes) buffer,
      ),
    )
