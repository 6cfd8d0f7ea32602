-- ===== src/Crypto/Layers.antt =====
-- The two layers of signatures of src/crypto.rs, from the sender to the receiver.
use bind.Common.{
  ℕ, zero, suc, ◌≤◌, ◌≡◌, ◌↔◌, refl, ap, arith, true, List, [], ◌∷◌, ◌++◌, length, length-take,
  take, take-append,
}
use bind.Common.Bytes.{IsU16, bytes_eq_self, bytes_eq→eq}
use bind.Sap
use bind.Sap.{SapHeader, IsValid}
use bind.Sap.Codec.{sap_decode-encode}
use bind.Crypto.{
  KeyPair, from_seed, public_key, sign, sign_truncated, verify, truncate_signature,
  verify_truncated_match, compute_pah_hash,
}
use bind.Crypto.Dalek.{Ed25519}

-- The text begins with `n` bytes, which are these.
abbrev pub IsStart : ℕ → List ℕ → List ℕ → Type 0
IsStart n part whole = (length part ≡ n) × ((rest : List ℕ) × (whole ≡ part ++ rest))

take-IsStart : (n : ℕ) (s : List ℕ) → n ≤ length s → IsStart n (take n s) s
take-IsStart zero s h = (refl, (s, refl))
take-IsStart (suc n) [] h = absurd (omega arith)
take-IsStart (suc n) (b ∷ s) h =
    let (len, (rest, whole)) = take-IsStart n s (omega arith) in
    (omega (arith, len), (rest, ap (λ t. b ∷ t) whole))

IsStart-take : (n : ℕ) (part whole : List ℕ) → IsStart n part whole → take n whole ≡ part
IsStart-take n part whole (len, (rest, is_whole)) =
    rw is_whole (take-append part rest n (omega (arith, len)))

module _ {SK VK : Type 0} (ed : Ed25519 SK VK) (sha256 : List ℕ → List ℕ) where
  -- The header that a sender makes from a sequence counter, a context and a message.
  abbrev pub sender_sap : KeyPair SK VK → ℕ → List ℕ → List ℕ → SapHeader
  sender_sap k seq context message =
      Sap.new seq (compute_pah_hash sha256 context) (sign_truncated sha256 ed k message)

  sender_sap-IsValid :
      (k : KeyPair SK VK) (seq : ℕ) (context message : List ℕ)
      → ((x : List ℕ) → length (sha256 x) ≡ 32)
      → IsU16 seq
      → IsValid (sender_sap k seq context message)
  unfolding compute_pah_hash sign_truncated truncate_signature
  sender_sap-IsValid k seq context message size word = record {
    version_byte = omega arith;
    seq_word = word;
    hash_length = omega (arith, length-take 14 (sha256 context), size context);
    signature_length =
        omega (arith, length-take 8 (sha256 (sign ed k message)), size (sign ed k message));
  }

  verify_lem :
      (seed_bytes message : List ℕ)
      → let k = from_seed ed seed_bytes in
        verify ed (public_key ed k) message (sign ed k message) ≡ true
  unfolding from_seed public_key sign verify
  verify_lem seed_bytes message =
      rw (ed.key_kept (ed.signing_key_from_bytes seed_bytes), verify)
        (ed.signature_verifies (ed.signing_key_from_bytes seed_bytes) message)

  match_lem :
      (full sent : List ℕ)
      → length sent ≡ 8
      → ((x : List ℕ) → length (sha256 x) ≡ 32)
      → (verify_truncated_match sha256 full sent ≡ true) ↔ IsStart 8 sent (sha256 full)
  unfolding verify_truncated_match truncate_signature
  match_lem full sent eight size = (
    λ h.
        rw (← bytes_eq→eq (truncate_signature sha256 full) sent h)
          (take-IsStart 8 (sha256 full) (omega (arith, size full))),
    λ h. rw (IsStart-take 8 sent (sha256 full) h) (bytes_eq_self sent),
  )

  -- If every hash has 32 bytes, then of the header that a sender makes with a counter of 16 bits for a
  -- context and a message the receiver reads that counter, the first 14 bytes of the hash of the
  -- context and the first 8 bytes of the hash of the signature of the message. The receiver's first
  -- layer lets a full signature through just if its hash begins with these 8 bytes, so it lets the
  -- signature of the message through, and so does the second layer, for every seed and message.
  pub two_layers :
      (seed_bytes : List ℕ) (seq : ℕ) (context message full : List ℕ)
      → ((x : List ℕ) → length (sha256 x) ≡ 32)
      → IsU16 seq
      → let k = from_seed ed seed_bytes in
        let received = Sap.decode (Sap.encode (sender_sap k seq context message)) in
        let signature = sign ed k message in
        (received.seq_counter ≡ seq)
        × IsStart 14 received.pah_hash (sha256 context)
        × IsStart 8 received.pah_signature (sha256 signature)
        × ((verify_truncated_match sha256 full received.pah_signature ≡ true)
            ↔ IsStart 8 received.pah_signature (sha256 full))
        × (verify_truncated_match sha256 signature received.pah_signature ≡ true)
        × (verify ed (public_key ed k) message signature ≡ true)
  unfolding sign_truncated compute_pah_hash truncate_signature
  two_layers seed_bytes seq context message full size word =
      let k = from_seed ed seed_bytes in
      let signature = sign ed k message in
      let truncated = take 8 (sha256 signature) in
      let starts = take-IsStart 8 (sha256 signature) (omega (arith, size signature)) in
      let eight : length truncated ≡ 8 =
        omega (arith, length-take 8 (sha256 signature), size signature) in
      rw
        (sap_decode-encode (sender_sap k seq context message)
          (sender_sap-IsValid k seq context message size word))
        (
          refl,
          take-IsStart 14 (sha256 context) (omega (arith, size context)),
          starts,
          match_lem full truncated eight size,
          (match_lem signature truncated eight size).1 starts,
          verify_lem seed_bytes message,
        )
