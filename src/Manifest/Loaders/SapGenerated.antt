-- ===== src/Manifest/Loaders/SapGenerated.antt =====
-- What tests/vector_sap_codec.rs reads of what `generate_sap_vectors` of
-- examples/generate_test_vectors.rs writes.
use bind.Common.{
  ℕ, ◌*◌, ◌/◌, ◌%◌, ◌<◌, ◌≡◌, refl, ap, ◌∙◌, arith, false, some, List, [], ◌∷◌, ◌++◌, map, length,
  ◌==◌, All, ok,
}
use bind.Common.Bytes.{IsU8, IsU16, bytes_eq_self}
use bind.Config.{codes}
use bind.Sap
use bind.Vectors.Hex.{hex, hex_digit, digit_value-hex_digit, unhex-hex}
use bind.Vectors.Encoded.{sap_vector}
use bind.Manifest.Passes.{same}
use bind.Manifest.Loaders.Sap.{
  Vector, from_str_radix, pairs, unhex, encode, check_encoding, check_round_trip,
  encode_as_declared, round_trip,
}
use bind.Manifest.Loaders.Loads.{loaded_pass}
use bind.Manifest.Loaders.SapVectors.{checked-All, come_back}

-- A case of `generate_sap_vectors`.
pub record SapCase : Type 0 where
  pub name : List ℕ
  pub seq : ℕ
  pub pah_hash : List ℕ
  pub pah_sig : List ℕ

-- What the types of its fields give.
pub record IsInRange (c : SapCase) : Type 0 where
  pub word : IsU16 c.seq
  pub hash_bytes : All IsU8 c.pah_hash
  pub sig_bytes : All IsU8 c.pah_sig
  pub hash_length : length c.pah_hash ≡ 14
  pub sig_length : length c.pah_sig ≡ 8

-- The object that `generate_sap_vectors` makes of a case, as the loader reads it.
abbrev pub generated : SapCase → Vector
generated c =
    let v = sap_vector c.seq c.pah_hash c.pah_sig in
    record {
      id = codes "sap-" ++ c.name;
      input = record {
        seq_counter = v.seq_counter;
        pah_hash_hex = v.pah_hash_hex;
        pah_signature_hex = v.pah_signature_hex;
      };
      expected = record {
        encoded_hex = v.encoded_hex;
        encoded_bytes = v.encoded_bytes;
        size = v.size;
      };
    }

no_plus : (n : ℕ) → n < 16 → (hex_digit n == b'+') ≡ false
no_plus n h = ground arith

byte_back : (b : ℕ) → b < 256 → from_str_radix (hex_digit (b / 16)) (hex_digit (b % 16)) ≡ some b
byte_back b h =
    rw
      (
        no_plus (b / 16) (omega arith),
        digit_value-hex_digit (b / 16) (omega arith),
        digit_value-hex_digit (b % 16) (omega arith),
      )
      (ap some (omega arith))

pairs-hex : (bytes : List ℕ) → All IsU8 bytes → pairs (hex bytes) ≡ ok bytes
pairs-hex [] h = refl
pairs-hex (b ∷ bytes) (small, h) = rw (byte_back b small, pairs-hex bytes h) refl

unhex-hex_field :
    (n : ℕ) (bytes : List ℕ) → All IsU8 bytes → length bytes ≡ n → unhex n (hex bytes) ≡ ok bytes
unfolding unhex
unhex-hex_field n bytes h len =
    let twice : length (hex bytes) ≡ n * 2 = omega (arith, (unhex-hex bytes h).1, len) in
    rw (twice, same (n * 2)) (pairs-hex bytes h)

encode_case :
    (c : SapCase)
    → IsInRange c
    → encode (generated c) ≡ ok (Sap.encode (Sap.new c.seq c.pah_hash c.pah_sig))
unfolding encode
encode_case c r =
    rw
      (
        unhex-hex_field 14 c.pah_hash r.hash_bytes r.hash_length,
        unhex-hex_field 8 c.pah_sig r.sig_bytes r.sig_length,
      )
      refl

case_passes : (c : SapCase) → IsInRange c → check_encoding (generated c) ≡ ok tt
unfolding check_encoding
case_passes c r =
    let bytes = Sap.encode (Sap.new c.seq c.pah_hash c.pah_sig) in
    rw (encode_case c r, same (length bytes), bytes_eq_self bytes, bytes_eq_self (hex bytes)) refl

cases_pass :
    (cs : List SapCase) → All IsInRange cs → All (λ v. check_encoding v ≡ ok tt) (map generated cs)
cases_pass [] h = tt
cases_pass (c ∷ cs) (r, h) = (case_passes c r, cases_pass cs h)

words :
    (cs : List SapCase) → All IsInRange cs → All (λ v. IsU16 v.input.seq_counter) (map generated cs)
words [] h = tt
words (c ∷ cs) (r, h) = (r.word, words cs h)

length-generated : (cs : List SapCase) → length (map generated cs) ≡ length cs
length-generated [] = refl
length-generated (c ∷ cs) = omega (arith, length-generated cs)

-- Both tests pass for the five vectors that the generator makes, of any five cases whose fields are in
-- the range of their types.
pub sap_generated_pass :
    (cs : List SapCase)
    → length cs ≡ 5
    → All IsInRange cs
    → let json = some (map some (map generated cs)) in
      (encode_as_declared json ≡ ok tt) × (round_trip json ≡ ok tt)
sap_generated_pass cs five h =
    let vs = map generated cs in
    let count = length-generated cs ∙ five in
    let passes = cases_pass cs h in
    (
      loaded_pass check_encoding vs count passes,
      loaded_pass check_round_trip vs count (come_back vs (checked-All vs (words cs h) passes)),
    )
