-- ===== src/Sap/UnitTests.antt =====
-- The unit tests of src/sap.rs.
use bind.Common.{
  ℕ, zero, suc, ◌+◌, ◌-◌, ◌≡◌, refl, true, false, List, [], ◌∷◌, ◌++◌, length, get_or, take,
  replicate, bit_and,
}
use bind.Sap.{
  SapHeader, sap_size, sap_protocol_id, current_version, pah_size, sig_size, seq_rotation_threshold,
  new, default, encode, decode, verify_magic, verify_protocol_id, is_version_current,
  needs_key_rotation, increment_seq,
}

abbrev TestSapSizeConstants : Type 0
TestSapSizeConstants =
    (sap_size ≡ 28)
    × (sap_protocol_id ≡ 0x01)
    × (current_version ≡ 1)
    × (pah_size ≡ 14)
    × (sig_size ≡ 8)
    × (2 + 1 + 1 + 2 + pah_size + sig_size ≡ sap_size)
    × (seq_rotation_threshold ≡ 65534)

abbrev TestFamilyMagicAndProtocolIdEncoding : Type 0
TestFamilyMagicAndProtocolIdEncoding =
    let encoded = encode default in
    (get_or encoded 0 0 ≡ 0xCF)
    × (get_or encoded 1 0 ≡ 0x14)
    × (get_or encoded 2 0 ≡ 0x01)
    × (verify_magic encoded ≡ true)
    × (verify_protocol_id encoded ≡ true)

abbrev TestEncodeDecodeRoundtripDefault : Type 0
TestEncodeDecodeRoundtripDefault =
    let encoded = encode default in (length encoded ≡ sap_size) × (default ≡ decode encoded)

-- An array of `n` bytes that are 0 between the first and the last one.
abbrev with_ends : ℕ → ℕ → ℕ → List ℕ
with_ends n first last = first ∷ (replicate (n - 2) 0 ++ (last ∷ []))

abbrev TestEncodeDecodeRoundtripFull : Type 0
TestEncodeDecodeRoundtripFull =
    let pah = with_ends pah_size 0xAA 0xFF in
    let sig = with_ends sig_size 0xDE 0xAD in
    let decoded = decode (encode (new 12345 pah sig)) in
    (decoded.sap_version ≡ current_version)
    × (is_version_current decoded ≡ true)
    × (decoded.seq_counter ≡ 12345)
    × (decoded.pah_hash ≡ pah)
    × (decoded.pah_signature ≡ sig)

abbrev TestFixedOffsets : Type 0
TestFixedOffsets =
    let pah = with_ends pah_size 0x11 0x22 in
    let sig = with_ends sig_size 0x33 0x44 in
    let encoded = encode (new 0x1234 pah sig) in
    (take 2 encoded ≡ 0xCF ∷ 0x14 ∷ [])
    × (get_or encoded 2 0 ≡ 0x01)
    × (get_or encoded 3 0 ≡ current_version)
    × (get_or encoded 4 0 ≡ 0x12)
    × (get_or encoded 5 0 ≡ 0x34)
    × (get_or encoded 6 0 ≡ 0x11)
    × (get_or encoded (6 + pah_size - 1) 0 ≡ 0x22)
    × (get_or encoded (6 + pah_size) 0 ≡ 0x33)
    × (get_or encoded (sap_size - 1) 0 ≡ 0x44)

abbrev TestSeqCounterIncrement : Type 0
TestSeqCounterIncrement =
    let (once, first) = increment_seq default in
    let (twice, second) = increment_seq once in
    (default.seq_counter ≡ 0) × (first ≡ 1) × (second ≡ 2) × (twice.seq_counter ≡ 2)

abbrev of_counter : ℕ → SapHeader
of_counter seq = new seq (replicate pah_size 0) (replicate sig_size 0)

abbrev TestSeqCounterWrapping : Type 0
TestSeqCounterWrapping = (increment_seq (of_counter 65535)).1 ≡ 0

abbrev TestKeyRotationThreshold : Type 0
TestKeyRotationThreshold =
    (needs_key_rotation (of_counter 100) ≡ false)
    × (needs_key_rotation (of_counter 65534) ≡ true)
    × (needs_key_rotation (of_counter 65535) ≡ true)

abbrev TestVersionField : Type 0
TestVersionField =
    (default.sap_version ≡ current_version)
    × (is_version_current default ≡ true)
    × (is_version_current (record default { sap_version = 0 }) ≡ false)

-- A buffer with another byte at a place.
abbrev put_byte : ℕ → ℕ → List ℕ → List ℕ
put_byte i b [] = []
put_byte zero b (a ∷ rest) = b ∷ rest
put_byte (suc i) b (a ∷ rest) = a ∷ put_byte i b rest

abbrev TestMagicAndProtocolIdVerification : Type 0
TestMagicAndProtocolIdVerification =
    let encoded = encode default in
    (verify_magic encoded ≡ true)
    × (verify_protocol_id encoded ≡ true)
    × (verify_magic (put_byte 0 0x00 encoded) ≡ false)
    × (verify_protocol_id (put_byte 2 0x00 encoded) ≡ false)

abbrev TestReservedBitsForcedZero : Type 0
TestReservedBitsForcedZero = bit_and (get_or (encode default) 3 0) 0xF0 ≡ 0

tests_hold :
    TestSapSizeConstants × TestFamilyMagicAndProtocolIdEncoding × TestEncodeDecodeRoundtripDefault
    × TestEncodeDecodeRoundtripFull × TestFixedOffsets × TestSeqCounterIncrement
    × TestSeqCounterWrapping × TestKeyRotationThreshold × TestVersionField
    × TestMagicAndProtocolIdVerification × TestReservedBitsForcedZero
unfolding encode decode verify_magic verify_protocol_id is_version_current needs_key_rotation
    increment_seq
tests_hold = (
  (refl, refl, refl, refl, refl, refl, refl),
  (refl, refl, refl, refl, refl),
  (refl, refl),
  (refl, refl, refl, refl, refl),
  (refl, refl, refl, refl, refl, refl, refl, refl, refl),
  (refl, refl, refl, refl),
  refl,
  (refl, refl, refl),
  (refl, refl, refl),
  (refl, refl, refl, refl),
  refl,
)
