-- ===== src/Crypto/Dalek.antt =====
-- What src/crypto.rs calls of the crate `ed25519_dalek`, which is not part of the repository: keys and
-- signatures as byte strings, and the documented behaviour that the source relies on.
use bind.Common.{ℕ, ◌≡◌, Bool, true, Option, some, List, length}

pub record Ed25519 (SK VK : Type 0) : Type 0 where
  pub signing_key_from_bytes : List ℕ → SK
  pub signing_key_to_bytes : SK → List ℕ
  pub verifying_key : SK → VK
  pub verifying_key_to_bytes : VK → List ℕ
  pub verifying_key_from_bytes : List ℕ → Option VK
  pub sign : SK → List ℕ → List ℕ
  pub verify : VK → List ℕ → List ℕ → Bool
  pub seed_kept :
      (seed : List ℕ) → length seed ≡ 32 → signing_key_to_bytes (signing_key_from_bytes seed) ≡ seed
  pub key_kept :
      (k : SK)
      → verifying_key_from_bytes (verifying_key_to_bytes (verifying_key k)) ≡ some (verifying_key k)
  pub signature_verifies :
      (k : SK) (message : List ℕ) → verify (verifying_key k) message (sign k message) ≡ true
