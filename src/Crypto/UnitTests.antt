-- ===== src/Crypto/UnitTests.antt =====
-- The unit tests of src/crypto.rs, with stand-ins for the signatures, the hash and the keys that are
-- generated.
use bind.Common.{ℕ, ◌+◌, ◌%◌, ◌≡◌, refl, true, false, some, List, [], ◌∷◌, ◌++◌, length, replicate}
use bind.Common.Bytes.{bytes_eq, bytes_eq_self}
use bind.Config.{codes}
use bind.Crypto.{
  truncated_sig_size, full_sig_size, KeyPair, generate, from_seed, public_key, seed, sign, verify,
  truncate_signature, verify_truncated_match, compute_pah_hash, sign_truncated,
}
use bind.Crypto.Dalek.{Ed25519}

abbrev sum : List ℕ → ℕ
sum [] = 0
sum (a ∷ x) = a + sum x

-- A signature of 64 bytes, the first one of the sum of the key and the message; both keys are the seed.
abbrev sum_sign : List ℕ → List ℕ → List ℕ
sum_sign k m = (sum (k ++ m) % 256) ∷ replicate 63 3

abbrev stand_in : Ed25519 (List ℕ) (List ℕ)
stand_in = record {
  signing_key_from_bytes = λ s. s;
  signing_key_to_bytes = λ k. k;
  verifying_key = λ k. k;
  verifying_key_to_bytes = λ k. k;
  verifying_key_from_bytes = some;
  sign = sum_sign;
  verify = λ k m s. bytes_eq s (sum_sign k m);
  seed_kept = λ s h. refl;
  key_kept = λ k. refl;
  signature_verifies = λ k m. bytes_eq_self (sum_sign k m);
}

-- A hash of 32 bytes.
abbrev sum_hash : List ℕ → List ℕ
sum_hash x = (sum x % 256) ∷ replicate 31 1

-- Two pairs of keys that are generated.
abbrev kp1 : KeyPair (List ℕ) (List ℕ)
kp1 = generate stand_in (replicate 32 1)

abbrev kp2 : KeyPair (List ℕ) (List ℕ)
kp2 = generate stand_in (replicate 32 2)

abbrev TestKeypairGeneration : Type 0
TestKeypairGeneration =
    (bytes_eq (public_key stand_in kp1) (public_key stand_in kp2) ≡ false)
    × (length (public_key stand_in kp1) ≡ 32)
    × (length (seed stand_in kp1) ≡ 32)

abbrev TestKeypairFromSeed : Type 0
TestKeypairFromSeed =
    let bytes = replicate 32 42 in
    (public_key stand_in (from_seed stand_in bytes)
      ≡ public_key stand_in (from_seed stand_in bytes))
    × (seed stand_in (from_seed stand_in bytes) ≡ bytes)

abbrev TestSignAndVerifyFull : Type 0
TestSignAndVerifyFull =
    let message = codes "Hello, CI-144 v2.0!" in
    let signature = sign stand_in kp1 message in
    (length signature ≡ full_sig_size)
    × (verify stand_in (public_key stand_in kp1) message signature ≡ true)
    × (verify stand_in (public_key stand_in kp1) (codes "Hello, CI-144 v2.0?!") signature ≡ false)

abbrev TestSignAndVerifyWrongKey : Type 0
TestSignAndVerifyWrongKey =
    let message = codes "test message" in
    let signature = sign stand_in kp1 message in
    (verify stand_in (public_key stand_in kp1) message signature ≡ true)
    × (verify stand_in (public_key stand_in kp2) message signature ≡ false)

abbrev TestTruncateSignatureDeterministic : Type 0
TestTruncateSignatureDeterministic =
    let sig = replicate full_sig_size 0xAB in
    (truncate_signature sum_hash sig ≡ truncate_signature sum_hash sig)
    × (length (truncate_signature sum_hash sig) ≡ truncated_sig_size)

abbrev TestTruncateSignatureDifferentInputs : Type 0
TestTruncateSignatureDifferentInputs =
    bytes_eq (truncate_signature sum_hash (replicate full_sig_size 0xAA))
      (truncate_signature sum_hash (replicate full_sig_size 0xBB))
    ≡ false

abbrev TestSignTruncated : Type 0
TestSignTruncated =
    let message = codes "truncated test" in
    let truncated = sign_truncated sum_hash stand_in kp1 message in
    (length truncated ≡ truncated_sig_size)
    × (truncated ≡ truncate_signature sum_hash (sign stand_in kp1 message))

abbrev TestVerifyTruncatedMatch : Type 0
TestVerifyTruncatedMatch =
    let full_sig = sign stand_in kp1 (codes "match test") in
    (verify_truncated_match sum_hash full_sig (truncate_signature sum_hash full_sig) ≡ true)
    × (verify_truncated_match sum_hash full_sig (replicate truncated_sig_size 0xFF) ≡ false)

abbrev TestComputePahHash : Type 0
TestComputePahHash =
    let context1 = codes "sensor data: temperature=25.5, humidity=60%" in
    let context2 = codes "sensor data: temperature=25.6, humidity=60%" in
    (length (compute_pah_hash sum_hash context1) ≡ 14)
    × (bytes_eq (compute_pah_hash sum_hash context1) (compute_pah_hash sum_hash context2) ≡ false)
    × (compute_pah_hash sum_hash context1 ≡ compute_pah_hash sum_hash context1)

abbrev TestFullPipeline : Type 0
TestFullPipeline =
    let pah_hash =
      compute_pah_hash sum_hash
        (codes "modality=executive, risk=critical, stance=moving, edge=danger") in
    let full_sig = sign stand_in kp1 pah_hash in
    let truncated_sig = truncate_signature sum_hash full_sig in
    (length pah_hash ≡ 14)
    × (length full_sig ≡ full_sig_size)
    × (length truncated_sig ≡ truncated_sig_size)
    × (verify stand_in (public_key stand_in kp1) pah_hash full_sig ≡ true)
    × (verify_truncated_match sum_hash full_sig truncated_sig ≡ true)
    × (verify stand_in (public_key stand_in kp1) (replicate 14 0xFF) full_sig ≡ false)

abbrev TestConstants : Type 0
TestConstants = (truncated_sig_size ≡ 8) × (full_sig_size ≡ 64)

tests_hold :
    TestKeypairGeneration × TestKeypairFromSeed × TestSignAndVerifyFull × TestSignAndVerifyWrongKey
    × TestTruncateSignatureDeterministic × TestTruncateSignatureDifferentInputs × TestSignTruncated
    × TestVerifyTruncatedMatch × TestComputePahHash × TestFullPipeline × TestConstants
unfolding generate from_seed public_key seed sign verify truncate_signature verify_truncated_match
    compute_pah_hash sign_truncated
tests_hold = (
  (refl, refl, refl),
  (refl, refl),
  (refl, refl, refl),
  (refl, refl),
  (refl, refl),
  refl,
  (refl, refl),
  (refl, refl),
  (refl, refl, refl),
  (refl, refl, refl, refl, refl, refl),
  (refl, refl),
)
