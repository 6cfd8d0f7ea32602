-- ===== src/Crypto/Examples.antt =====
-- Runs of src/crypto.rs, with stand-ins for the signatures and the hash.
use bind.Common.{
  ℕ, ◌≡◌, ◌↔◌, refl, arith, true, false, some, List, [], ◌∷◌, ◌++◌, length, replicate,
}
use bind.Common.Bytes.{bytes_eq, bytes_eq_self}
use bind.Sap
use bind.Crypto.{
  from_seed, public_key, seed, sign, sign_truncated, verify, verify_truncated, truncate_signature,
  verify_truncated_match,
}
use bind.Crypto.Dalek.{Ed25519}
use bind.Crypto.Layers.{IsStart, sender_sap, two_layers}

-- A signature that is the key and the message.
abbrev plain : Ed25519 (List ℕ) (List ℕ)
plain = record {
  signing_key_from_bytes = λ s. s;
  signing_key_to_bytes = λ k. k;
  verifying_key = λ k. k;
  verifying_key_to_bytes = λ k. k;
  verifying_key_from_bytes = some;
  sign = λ k m. k ++ m;
  verify = λ k m s. bytes_eq s (k ++ m);
  seed_kept = λ s h. refl;
  key_kept = λ k. refl;
  signature_verifies = λ k m. bytes_eq_self (k ++ m);
}

-- A hash of 32 bytes that counts the length of its argument.
abbrev length_hash : List ℕ → List ℕ
length_hash x = length x ∷ replicate 31 7

seed_returned : seed plain (from_seed plain (1 ∷ 2 ∷ [])) ≡ 1 ∷ 2 ∷ []
unfolding seed from_seed
seed_returned = refl

other_length_refused :
    verify_truncated_match length_hash (1 ∷ []) (truncate_signature length_hash (1 ∷ 2 ∷ []))
    ≡ false
unfolding verify_truncated_match truncate_signature
other_length_refused = refl

two_layers_example :
    let k = from_seed plain (1 ∷ []) in
    let received = Sap.decode (Sap.encode (sender_sap plain length_hash k 7 (5 ∷ []) (9 ∷ []))) in
    let signature = sign plain k (9 ∷ []) in
    (received.seq_counter ≡ 7)
    × IsStart 14 received.pah_hash (length_hash (5 ∷ []))
    × IsStart 8 received.pah_signature (length_hash signature)
    × ((verify_truncated_match length_hash (3 ∷ []) received.pah_signature ≡ true)
        ↔ IsStart 8 received.pah_signature (length_hash (3 ∷ [])))
    × (verify_truncated_match length_hash signature received.pah_signature ≡ true)
    × (verify plain (public_key plain k) (9 ∷ []) signature ≡ true)
two_layers_example =
    two_layers plain length_hash (1 ∷ []) 7 (5 ∷ []) (9 ∷ []) (3 ∷ []) (λ x. refl) (omega arith)

-- The check of a truncated signature without the full one refuses a genuine one.
genuine_refused :
    let k = from_seed plain (1 ∷ []) in
    verify_truncated (public_key plain k) (9 ∷ []) (sign_truncated length_hash plain k (9 ∷ []))
    ≡ false
unfolding verify_truncated
genuine_refused = refl
