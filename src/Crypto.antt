-- ===== src/Crypto.antt =====
-- src/crypto.rs: key pairs, full and truncated signatures, and the PAH hash.
-- SHA-256 (crate `sha2`) is an argument, a function on byte strings; the operations of `ed25519_dalek`
-- that the source calls are the record `Ed25519`, with what their documentation says. A fixed array is
-- a list of bytes.
pub mod Dalek
pub mod Layers
mod Examples
mod UnitTests
use bind.Common.{ℕ, Bool, false, Option, none, some, List, take}
use bind.Common.Bytes.{bytes_eq}
use bind.Crypto.Dalek.{Ed25519}

abbrev pub truncated_sig_size : ℕ
truncated_sig_size = 8

abbrev pub full_sig_size : ℕ
full_sig_size = 64

pub record KeyPair (SK VK : Type 0) : Type 0 where
  pub signing_key : SK
  pub verifying_key : VK

module _ {SK VK : Type 0} (ed : Ed25519 SK VK) where
  -- `KeyPair::generate`, from the key that `SigningKey::generate` has made of the random bytes of the
  -- operating system.
  unfoldable pub generate : SK → KeyPair SK VK
  generate signing_key = record {
    signing_key = signing_key;
    verifying_key = ed.verifying_key signing_key;
  }

  -- `KeyPair::from_seed`
  unfoldable pub from_seed : List ℕ → KeyPair SK VK
  from_seed seed =
      let signing_key = ed.signing_key_from_bytes seed in
      record { signing_key = signing_key; verifying_key = ed.verifying_key signing_key }

  -- `KeyPair::public_key`
  unfoldable pub public_key : KeyPair SK VK → List ℕ
  public_key k = ed.verifying_key_to_bytes k.verifying_key

  -- `KeyPair::seed`
  unfoldable pub seed : KeyPair SK VK → List ℕ
  seed k = ed.signing_key_to_bytes k.signing_key

  -- `sign`
  unfoldable pub sign : KeyPair SK VK → List ℕ → List ℕ
  sign k message = ed.sign k.signing_key message

  -- `verify`
  unfoldable pub verify : List ℕ → List ℕ → List ℕ → Bool
  verify key message signature = elim (ed.verifying_key_from_bytes key) [
    | none ↦ false
    | some verifying_key ↦ ed.verify verifying_key message signature
  ]

-- `verify_truncated`
unfoldable pub verify_truncated : List ℕ → List ℕ → List ℕ → Bool
verify_truncated key message truncated_sig = false

module _ (sha256 : List ℕ → List ℕ) where
  -- `truncate_signature`
  unfoldable pub truncate_signature : List ℕ → List ℕ
  truncate_signature full_signature = take truncated_sig_size (sha256 full_signature)

  -- `verify_truncated_match`
  unfoldable pub verify_truncated_match : List ℕ → List ℕ → Bool
  verify_truncated_match full_signature expected_truncated =
      bytes_eq (truncate_signature full_signature) expected_truncated

  -- `compute_pah_hash`
  unfoldable pub compute_pah_hash : List ℕ → List ℕ
  compute_pah_hash physical_context = take 14 (sha256 physical_context)

  -- `sign_truncated`
  unfoldable pub sign_truncated : {SK VK : Type 0} → Ed25519 SK VK → KeyPair SK VK → List ℕ → List ℕ
  sign_truncated ed k message = truncate_signature (sign ed k message)
