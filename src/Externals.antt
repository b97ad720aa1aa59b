-- ===== src/Externals.antt =====
-- What the program takes from other crates: the SHA-256 digest and the Ed25519 signatures of
-- `ring`, the serialisation of `bincode`, and whether the build checks arithmetic for overflow.
use f.Prelude.{ℕ, ◌≡◌, Bool, true, List}
use f.Transaction.{Transaction, SignedTransaction}
use f.Block.{Header, Block}

-- `ring::signature::Ed25519KeyPair`, by the two methods that the program calls.
pub record KeyPair : Type 0 where
  pub public_key : List ℕ
  pub sign : List ℕ → List ℕ

pub record Externals : Type 0 where
  pub sha256 : List ℕ → List ℕ
  pub verify_ed25519 : (public_key message signature : List ℕ) → Bool
  pub from_seed : List ℕ → KeyPair
  pub serialize_header : Header → List ℕ
  pub serialize_block : Block → List ℕ
  pub serialize_transaction : Transaction → List ℕ
  pub serialize_signed : SignedTransaction → List ℕ
  pub overflow_checks : Bool

-- A key pair's public key verifies what it signs.
pub record IsKeyPair (ext : Externals) (key : KeyPair) : Type 0 where
  pub verifies :
      (message : List ℕ) → ext.verify_ed25519 key.public_key message (key.sign message) ≡ true
