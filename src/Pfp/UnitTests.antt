-- ===== src/Pfp/UnitTests.antt =====
-- The unit tests of src/pfp.rs.
use bind.Common.{ℕ, ◌≡◌, refl, true, false, List, [], ◌∷◌, length, get_or, bit_and, bit_or, ap}
use bind.Pfp.Enums.{
  Modality, RiskLevel, BodyStance, ProximityEdge, cognitive, render, executive, low, medium,
  critical, catastrophic, standing, moving, unknown, safe, warning, critical_edge, internal,
  external, normal, hard_override, modality_from_bits, risk_level_from_bits, body_stance_from_bits,
  proximity_edge_from_bits, output_dest_from_bit, override_flag_from_bit, is_catastrophic,
  is_hard_override,
}
use bind.Pfp.{
  PfpHeader, pfp_size, family_magic, pfp_protocol_id, new, default, encode, encode_byte2,
  encode_byte3, decode, verify_magic, is_catastrophic_override, effective_risk_level,
  has_unknown_reserved,
}
use bind.Pfp.Codec.{pfp_decode-encode}

abbrev TestPfpSizeConstants : Type 0
TestPfpSizeConstants = (pfp_size ≡ 4) × (family_magic ≡ 0xCF14) × (pfp_protocol_id ≡ 0)

abbrev TestFamilyMagicEncoding : Type 0
TestFamilyMagicEncoding =
    let encoded = encode default in
    (get_or encoded 0 0 ≡ 0xCF) × (get_or encoded 1 0 ≡ 0x14) × (verify_magic encoded ≡ true)

abbrev TestEncodeDecodeRoundtripDefault : Type 0
TestEncodeDecodeRoundtripDefault =
    let encoded = encode default in (length encoded ≡ pfp_size) × (default ≡ decode encoded)

-- The header of several tests.
abbrev override_header : PfpHeader
override_header = new executive catastrophic moving critical_edge external hard_override true

abbrev TestEncodeDecodeRoundtripCatastrophic : Type 0
TestEncodeDecodeRoundtripCatastrophic =
    let decoded = decode (encode override_header) in
    (decoded.modality ≡ executive)
    × (decoded.risk_level ≡ catastrophic)
    × (decoded.body_stance ≡ moving)
    × (decoded.proximity_edge ≡ critical_edge)
    × (decoded.output_dest ≡ external)
    × (decoded.override_flag ≡ hard_override)
    × (decoded.replay_enable ≡ true)
    × (decoded.reserved ≡ 0)

abbrev TestFixedOffsetByte2 : Type 0
TestFixedOffsetByte2 =
    get_or (encode (new render critical standing warning internal normal true)) 2 0 ≡ 0x59

abbrev TestFixedOffsetByte3 : Type 0
TestFixedOffsetByte3 =
    get_or (encode (new cognitive low unknown safe external hard_override false)) 3 0 ≡ 0x03

abbrev TestCatastrophicOverrideDetection : Type 0
TestCatastrophicOverrideDetection =
    (is_catastrophic_override default ≡ false) × (is_catastrophic_override override_header ≡ true)

abbrev TestCatastrophicNoOverride : Type 0
TestCatastrophicNoOverride =
    is_catastrophic_override (new executive catastrophic moving critical_edge external normal true)
    ≡ false

abbrev TestReplayDisabledForcesMediumRisk : Type 0
TestReplayDisabledForcesMediumRisk =
    let pfp_replay_off = record override_header { replay_enable = false } in
    (effective_risk_level override_header ≡ catastrophic)
    × (effective_risk_level pfp_replay_off ≡ medium)
    × (pfp_replay_off.risk_level ≡ catastrophic)

abbrev set_reserved : List ℕ → List ℕ
set_reserved (a ∷ (b ∷ (c ∷ (d ∷ rest)))) = a ∷ b ∷ c ∷ bit_or d 0xF8 ∷ rest
set_reserved buf = buf

abbrev TestReservedBitsForcedZeroOnEncode : Type 0
TestReservedBitsForcedZeroOnEncode =
    let pfp = record default { reserved = 31 } in
    let decoded = decode (set_reserved (encode pfp)) in
    (bit_and (get_or (encode pfp) 3 0) 0xF8 ≡ 0)
    × (has_unknown_reserved decoded ≡ true)
    × (decoded.reserved ≡ 31)

abbrev TestAllEnumValuesRoundtrip : Type 0
TestAllEnumValuesRoundtrip =
    (m : Modality) (r : RiskLevel) (b : BodyStance) (p : ProximityEdge)
    → let decoded = decode (encode (new m r b p external hard_override true)) in
      (decoded.modality ≡ m)
      × (decoded.risk_level ≡ r)
      × (decoded.body_stance ≡ b)
      × (decoded.proximity_edge ≡ p)

TestAllEnumValuesRoundtrip_holds : TestAllEnumValuesRoundtrip
TestAllEnumValuesRoundtrip_holds m r b p =
    let back = pfp_decode-encode (new m r b p external hard_override true) in
    (
      ap (λ (h : PfpHeader). h.modality) back,
      ap (λ (h : PfpHeader). h.risk_level) back,
      ap (λ (h : PfpHeader). h.body_stance) back,
      ap (λ (h : PfpHeader). h.proximity_edge) back,
    )

abbrev clear_first : List ℕ → List ℕ
clear_first [] = []
clear_first (a ∷ rest) = 0 ∷ rest

abbrev TestMagicVerification : Type 0
TestMagicVerification =
    let encoded = encode default in
    (verify_magic encoded ≡ true) × (verify_magic (clear_first encoded) ≡ false)

tests_hold :
    TestPfpSizeConstants × TestFamilyMagicEncoding × TestEncodeDecodeRoundtripDefault
    × TestEncodeDecodeRoundtripCatastrophic × TestFixedOffsetByte2 × TestFixedOffsetByte3
    × TestCatastrophicOverrideDetection × TestCatastrophicNoOverride
    × TestReplayDisabledForcesMediumRisk × TestReservedBitsForcedZeroOnEncode
    × TestMagicVerification
unfolding encode encode_byte2 encode_byte3 decode verify_magic is_catastrophic_override
    effective_risk_level has_unknown_reserved is_catastrophic is_hard_override modality_from_bits
    risk_level_from_bits body_stance_from_bits proximity_edge_from_bits output_dest_from_bit
    override_flag_from_bit
tests_hold = (
  (refl, refl, refl),
  (refl, refl, refl),
  (refl, refl),
  (refl, refl, refl, refl, refl, refl, refl, refl),
  refl,
  refl,
  (refl, refl),
  refl,
  (refl, refl, refl),
  (refl, refl, refl),
  (refl, refl),
)
