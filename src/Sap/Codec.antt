-- ===== src/Sap/Codec.antt =====
-- The SAP codec of src/sap.rs, and its sequence counter.
use bind.Common.{
  All, All-append, ℕ, ◌/◌, ◌%◌, ◌<◌, ◌≡◌, refl, sym, ap, ◌∙◌, arith, bit_and, true, [], ◌++◌,
  length, length-append, take-append, drop-append, take, drop,
}
use bind.Common.Bits.{low_nibble, low_byte}
use bind.Common.Bytes.{IsU8, u8, u16_from_be_bytes}
use bind.Sap.{
  SapHeader, IsValid, sap_size, sig_size, encode, decode, verify_magic, verify_protocol_id,
}
use mathlib.Core.List.{append-nil}

pub length-encode : (h : SapHeader) → IsValid h → length (encode h) ≡ sap_size
unfolding encode
length-encode h v = omega (arith, length-append h.pah_hash h.pah_signature, v)

seq_bytes : (n : ℕ) → n < 65536 → u16_from_be_bytes (u8 (n / 256)) (u8 (bit_and n 0xFF)) ≡ n
seq_bytes n h = omega (arith, low_byte n)

-- Decoding the encoding of a header whose fields are in the range of their types gives the header
-- back, with its version cut to four bits.
pub sap_decode-encode :
    (h : SapHeader) → IsValid h → decode (encode h) ≡ record h { sap_version = h.sap_version % 16 }
unfolding encode decode
sap_decode-encode h v = λ i. record {
  sap_version = version i;
  seq_counter = seq_bytes h.seq_counter v.seq_word i;
  pah_hash = take-append h.pah_hash h.pah_signature 14 (omega (arith, v.hash_length)) i;
  pah_signature = signature i;
}
  where
    version : bit_and (bit_and h.sap_version 15) 15 ≡ h.sap_version % 16
    version = rw (low_nibble h.sap_version) (low_nibble (h.sap_version % 16) ∙ omega arith)

    signature : take sig_size (drop 14 (h.pah_hash ++ h.pah_signature)) ≡ h.pah_signature
    signature = rw (drop-append h.pah_hash h.pah_signature 14 (omega (arith, v.hash_length))) (
        ap (take sig_size) (sym (append-nil h.pah_signature))
        ∙ take-append h.pah_signature [] 8 (omega (arith, v.signature_length)))

-- Every encoding carries the family magic and the protocol id that `decode`'s callers check.
pub verify-encode :
    (h : SapHeader) → (verify_magic (encode h) ≡ true) × (verify_protocol_id (encode h) ≡ true)
unfolding encode verify_magic verify_protocol_id
verify-encode h = (refl, refl)

-- Every element that `encode` writes is a byte, if those of the hash and the signature are.
pub sap_encode-IsU8 :
    (h : SapHeader) → All IsU8 h.pah_hash → All IsU8 h.pah_signature → All IsU8 (encode h)
unfolding encode
sap_encode-IsU8 h p q =
    let small : bit_and h.sap_version 15 < 256 = omega (arith, low_nibble h.sap_version) in
    (
      omega arith,
      (
        omega arith,
        (
          omega arith,
          (small, (omega arith, (omega arith, All-append IsU8 h.pah_hash h.pah_signature p q))),
        ),
      ),
    )
