-- ===== src/Transaction/Random.antt =====
-- src/transaction.rs: the unit test `sign_verify` and the transaction that it makes.
use f.Prelude.{◌≡◌, true, [], ◌∷◌, replicate}
use f.Address.{from_pubkey}
use f.Transaction.{Transaction}
use f.Transaction.Signing.{sign, verify_raw, verify_signature-from_raw}
use f.Externals.{Externals, KeyPair, IsKeyPair}

module _ (ext : Externals) where
  unfoldable pub generate_random_transaction : Transaction
  generate_random_transaction =
      let controlled_keypair = ext.from_seed (replicate 32 100) in
      record {
        inputs = record { txid = 1; prev_tx = record { bytes = replicate 32 50 } } ∷ [];
        outputs =
            record {
              recipient = from_pubkey ext.sha256 controlled_keypair.public_key;
              value = record { bytes = replicate 32 10 };
            }
            ∷ [];
      }

  -- The unit test, for any key pair whose public key verifies its signatures.
  pub sign_verify :
      (key : KeyPair)
      → IsKeyPair ext key
      → verify_raw ext generate_random_transaction key.public_key
          (sign ext generate_random_transaction key)
        ≡ true
  sign_verify key v =
      let (raw, named, signed, verified) =
        verify_signature-from_raw ext generate_random_transaction key v in
      verified
