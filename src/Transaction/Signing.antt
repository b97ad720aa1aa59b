-- ===== src/Transaction/Signing.antt =====
-- src/transaction.rs: hashing, signing and verifying.
use f.Prelude.{ℕ, ◌≡◌, refl, Bool, true, List}
use f.Crypto.Hash.{H256, Hashable, from_digest}
use f.Transaction.{Transaction, SignedTransaction}
use f.Externals.{Externals, KeyPair, IsKeyPair}

module _ (ext : Externals) where
  -- `Transaction::hash`
  unfoldable pub hash_transaction : Transaction → H256
  hash_transaction t = from_digest (ext.sha256 (ext.serialize_transaction t))

  -- `SignedTransaction::hash`
  unfoldable pub hash_signed : SignedTransaction → H256
  hash_signed t = from_digest (ext.sha256 (ext.serialize_signed t))

  abbrev pub signed_hashable : Hashable SignedTransaction
  signed_hashable = record { hash = hash_signed }

  unfoldable pub sign : Transaction → KeyPair → List ℕ
  sign t key = key.sign (ext.serialize_transaction t)

  -- `verify`
  unfoldable pub verify_raw : Transaction → List ℕ → List ℕ → Bool
  verify_raw t public_key signature =
      ext.verify_ed25519 public_key (ext.serialize_transaction t) signature

  -- `SignedTransaction::from_raw`
  unfoldable pub from_raw : Transaction → KeyPair → SignedTransaction
  unfolding sign
  from_raw raw key = record { raw = raw; pub_key = key.public_key; signature = sign raw key }

  unfoldable pub verify_signature : SignedTransaction → Bool
  verify_signature t = ext.verify_ed25519 t.pub_key (ext.serialize_transaction t.raw) t.signature

  -- For a key pair whose public key verifies its signatures, `from_raw` keeps the transaction and
  -- names that public key, and both ways of verifying accept what was signed.
  pub verify_signature-from_raw :
      (raw : Transaction) (key : KeyPair)
      → IsKeyPair ext key
      → ((from_raw raw key).raw ≡ raw)
        × ((from_raw raw key).pub_key ≡ key.public_key)
        × (verify_signature (from_raw raw key) ≡ true)
        × (verify_raw raw key.public_key (sign raw key) ≡ true)
  unfolding from_raw verify_signature verify_raw sign
  verify_signature-from_raw raw key v =
      let message = ext.serialize_transaction raw in
      (refl, refl, v.verifies message, v.verifies message)
