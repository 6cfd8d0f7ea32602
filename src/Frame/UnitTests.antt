-- ===== src/Frame/UnitTests.antt =====
-- The unit tests of src/frame.rs. The two tests with a payload of 64 MB or more are cases of the theorems
-- of Frame/WellFormed.
use bind.Common.{
  Bool, ◌+◌, ◌≡◌, refl, true, false, Option, none, some, [], ◌++◌, length, replicate, bit_or, err,
  Unwraps, slice,
}
use bind.Config.{BindConfig, default, codes, rule6_enabled, catastrophic_rules_enabled}
use bind.Pfp
use bind.Pfp.{PfpHeader}
use bind.Pfp.Enums.{
  RiskLevel, executive, cognitive, low, medium, critical, catastrophic, moving, unknown, danger,
  safe, critical_edge, external, internal, normal, hard_override, modality_from_bits,
  risk_level_from_bits, body_stance_from_bits, proximity_edge_from_bits, output_dest_from_bit,
  override_flag_from_bit, is_catastrophic, is_hard_override,
}
use bind.Sap
use bind.Sap.{SapHeader}
use bind.Frame.Header as Header
use bind.Frame.Header.{
  header_size, flag_fin, flag_con, flag_sec, flag_pfp_present, flag_sap_present, FrameType,
  frame_data, heartbeat, control, vector, handshake, error, from_byte, to_byte, BindHeader,
  new_header, encode_header, decode_header, has_pfp, has_sap, is_fin, is_con, is_sec,
  extension_length, total_frame_length,
}
use bind.Frame.{
  incomplete_header, incomplete_frame, sap_without_pfp, invalid_pfp_magic, new, new_v1, encode,
  decode_pfp, decode_sap, decode_body, decode, is_v1_compatible, effective_risk_level_with_config,
  is_catastrophic_override, is_replay_disabled,
}

abbrev TestHeaderEncodeDecodeRoundtrip : Type 0
TestHeaderEncodeDecodeRoundtrip =
    let header = new_header frame_data 0x42 (bit_or flag_fin flag_pfp_present) 0x07 1024 in
    let encoded = encode_header header in
    (length encoded ≡ header_size) × (header ≡ decode_header encoded)

abbrev TestHeaderFlags : Type 0
TestHeaderFlags =
    let flags =
      bit_or (bit_or (bit_or (bit_or flag_fin flag_con) flag_sec) flag_pfp_present)
        flag_sap_present in
    let header = new_header frame_data 0 flags 0 0 in
    (is_fin header ≡ true)
    × (is_con header ≡ true)
    × (is_sec header ≡ true)
    × (has_pfp header ≡ true)
    × (has_sap header ≡ true)

abbrev TestHeaderExtensionLength : Type 0
TestHeaderExtensionLength =
    let h1 = new_header frame_data 0 0 0 0 in
    let h2 = new_header frame_data 0 flag_pfp_present 0 0 in
    let h3 = new_header frame_data 0 (bit_or flag_pfp_present flag_sap_present) 0 0 in
    (extension_length h1 ≡ 0)
    × (total_frame_length h1 ≡ header_size)
    × (extension_length h2 ≡ 4)
    × (total_frame_length h2 ≡ header_size + 4)
    × (extension_length h3 ≡ 4 + 28)
    × (total_frame_length h3 ≡ header_size + 4 + 28)

abbrev TestFrameV1EncodeDecodeRoundtrip : Type 0
TestFrameV1EncodeDecodeRoundtrip =
    let payload = codes "Hello, BIND-19 v1.0!" in
    Unwraps (new_v1 frame_data 0x01 0x00 payload) (λ frame.
      let encoded = encode frame in
      (is_v1_compatible frame ≡ true)
      × (frame.header.payload_length ≡ length payload)
      × (length encoded ≡ header_size + length payload)
      × Unwraps (decode encoded) (λ decoded.
        (decoded.header.frame_type ≡ frame_data)
        × (decoded.header.channel_id ≡ 0x01)
        × (is_v1_compatible decoded ≡ true)
        × (decoded.payload ≡ payload)))

abbrev critical_pfp : PfpHeader
critical_pfp = Pfp.new executive critical moving danger external normal true

abbrev TestFrameV2WithPfpEncodeDecodeRoundtrip : Type 0
TestFrameV2WithPfpEncodeDecodeRoundtrip =
    let payload = codes "v2.0 with PFP" in
    Unwraps (new frame_data 0x02 0x01 (some critical_pfp) none payload) (λ frame.
      let encoded = encode frame in
      (is_v1_compatible frame ≡ false)
      × (has_pfp frame.header ≡ true)
      × (has_sap frame.header ≡ false)
      × (extension_length frame.header ≡ 4)
      × (length encoded ≡ header_size + 4 + length payload)
      × Unwraps (decode encoded) (λ decoded.
        (decoded.pfp ≡ some critical_pfp) × (decoded.sap ≡ none) × (decoded.payload ≡ payload)))

abbrev TestFrameV2WithPfpAndSapEncodeDecodeRoundtrip : Type 0
TestFrameV2WithPfpAndSapEncodeDecodeRoundtrip =
    let sap = Sap.new 12345 (replicate 14 0xAB) (replicate 8 0xCD) in
    let payload = codes "v2.0 full security" in
    Unwraps (new frame_data 0x03 0x02 (some Pfp.default) (some sap) payload) (λ frame.
      let encoded = encode frame in
      (has_pfp frame.header ≡ true)
      × (has_sap frame.header ≡ true)
      × (extension_length frame.header ≡ 4 + 28)
      × (length encoded ≡ header_size + 4 + 28 + length payload)
      × Unwraps (decode encoded) (λ decoded.
        (decoded.pfp ≡ some Pfp.default) × (decoded.sap ≡ some sap) × (decoded.payload ≡ payload)))

abbrev TestSapWithoutPfpRejected : Type 0
TestSapWithoutPfpRejected = new frame_data 0 0 none (some Sap.default) [] ≡ err sap_without_pfp

abbrev TestIncompleteHeaderRejected : Type 0
TestIncompleteHeaderRejected = decode (replicate 4 0) ≡ err incomplete_header

abbrev TestIncompleteFrameRejected : Type 0
TestIncompleteFrameRejected =
    decode (encode_header (new_header frame_data 0 0 0 100) ++ replicate 50 0)
    ≡ err incomplete_frame

abbrev TestInvalidPfpMagicRejected : Type 0
TestInvalidPfpMagicRejected =
    decode (encode_header (new_header frame_data 0 flag_pfp_present 0 0) ++ replicate 4 0)
    ≡ err invalid_pfp_magic

abbrev TestFrameTypeUnknown : Type 0
TestFrameTypeUnknown =
    let decoded = decode_header (encode_header (new_header (Header.unknown 0x0F) 0 0 0 0)) in
    (decoded.frame_type ≡ Header.unknown 0x0F) × (to_byte decoded.frame_type ≡ 0x0F)

abbrev type_back : FrameType → FrameType
type_back ft = (decode_header (encode_header (new_header ft 0 0 0 0))).frame_type

abbrev TestAllFrameTypesRoundtrip : Type 0
TestAllFrameTypesRoundtrip =
    (type_back frame_data ≡ frame_data)
    × (type_back heartbeat ≡ heartbeat)
    × (type_back control ≡ control)
    × (type_back vector ≡ vector)
    × (type_back handshake ≡ handshake)
    × (type_back error ≡ error)
    × (type_back (Header.unknown 0x0F) ≡ Header.unknown 0x0F)
    × (type_back (Header.unknown 0xF0) ≡ Header.unknown 0xF0)

abbrev TestEffectiveRiskLevelV1Frame : Type 0
TestEffectiveRiskLevelV1Frame =
    Unwraps (new_v1 frame_data 0 0 [])
      (λ frame. effective_risk_level_with_config frame default ≡ none)

abbrev debug : BindConfig
debug = record { debug_mode = true }

abbrev TestEffectiveRiskLevelProductionReplayEnabled : Type 0
TestEffectiveRiskLevelProductionReplayEnabled =
    Unwraps (new frame_data 0 0 (some critical_pfp) none [])
      (λ frame. effective_risk_level_with_config frame default ≡ some critical)

abbrev map_risk : Option PfpHeader → Option RiskLevel
map_risk none = none
map_risk (some p) = some p.risk_level

-- The header of several tests, with its replay bit off.
abbrev override_pfp : PfpHeader
override_pfp = Pfp.new executive catastrophic moving critical_edge external hard_override false

abbrev TestEffectiveRiskLevelProductionReplayDisabled : Type 0
TestEffectiveRiskLevelProductionReplayDisabled =
    Unwraps (new frame_data 0 0 (some override_pfp) none []) (λ frame.
      (effective_risk_level_with_config frame default ≡ some medium)
      × (map_risk frame.pfp ≡ some catastrophic))

TestEffectiveRiskLevelProductionReplayDisabled_holds :
    TestEffectiveRiskLevelProductionReplayDisabled
unfolding from_byte to_byte encode_header decode_header has_pfp has_sap is_fin is_con is_sec
    extension_length total_frame_length new new_v1 encode decode_pfp decode_sap decode_body decode
    is_v1_compatible effective_risk_level_with_config is_catastrophic_override is_replay_disabled
    Pfp.encode Pfp.encode_byte2 Pfp.encode_byte3 Pfp.decode Pfp.verify_magic
    Pfp.is_catastrophic_override Pfp.effective_risk_level Sap.encode Sap.decode Sap.verify_magic
    Sap.verify_protocol_id is_catastrophic is_hard_override modality_from_bits risk_level_from_bits
    body_stance_from_bits proximity_edge_from_bits output_dest_from_bit override_flag_from_bit
    rule6_enabled catastrophic_rules_enabled slice
TestEffectiveRiskLevelProductionReplayDisabled_holds = (refl, refl)

abbrev TestEffectiveRiskLevelDebugReplayDisabled : Type 0
TestEffectiveRiskLevelDebugReplayDisabled =
    Unwraps (new frame_data 0 0 (some override_pfp) none [])
      (λ frame. effective_risk_level_with_config frame debug ≡ some catastrophic)

abbrev TestCatastrophicOverrideAlwaysEnabled : Type 0
TestCatastrophicOverrideAlwaysEnabled =
    Unwraps (new frame_data 0 0 (some override_pfp) none [])
      (λ frame. (is_catastrophic_override frame ≡ true) × (catastrophic_rules_enabled debug ≡ true))

abbrev low_pfp : Bool → PfpHeader
low_pfp replay_enable = Pfp.new cognitive low unknown safe internal normal replay_enable

abbrev TestIsReplayDisabled : Type 0
TestIsReplayDisabled = Unwraps (new frame_data 0 0 (some (low_pfp false)) none []) (λ frame_off.
    Unwraps (new frame_data 0 0 (some (low_pfp true)) none []) (λ frame_on.
      Unwraps (new_v1 frame_data 0 0 []) (λ frame_v1.
        (is_replay_disabled frame_off ≡ true)
        × (is_replay_disabled frame_on ≡ false)
        × (is_replay_disabled frame_v1 ≡ false))))

abbrev TestRule6InteractionWithCatastrophic : Type 0
TestRule6InteractionWithCatastrophic =
    Unwraps (new frame_data 0 0 (some override_pfp) none []) (λ frame.
      (is_catastrophic_override frame ≡ true)
      × (effective_risk_level_with_config frame default ≡ some medium)
      × (effective_risk_level_with_config frame debug ≡ some catastrophic))

tests_hold :
    TestHeaderEncodeDecodeRoundtrip × TestHeaderFlags × TestHeaderExtensionLength
    × TestFrameV1EncodeDecodeRoundtrip × TestFrameV2WithPfpEncodeDecodeRoundtrip
    × TestFrameV2WithPfpAndSapEncodeDecodeRoundtrip × TestSapWithoutPfpRejected
    × TestIncompleteHeaderRejected × TestIncompleteFrameRejected × TestInvalidPfpMagicRejected
    × TestFrameTypeUnknown × TestAllFrameTypesRoundtrip × TestEffectiveRiskLevelV1Frame
    × TestEffectiveRiskLevelProductionReplayEnabled × TestEffectiveRiskLevelDebugReplayDisabled
    × TestCatastrophicOverrideAlwaysEnabled × TestIsReplayDisabled
    × TestRule6InteractionWithCatastrophic
unfolding from_byte to_byte encode_header decode_header has_pfp has_sap is_fin is_con is_sec
    extension_length total_frame_length new new_v1 encode decode_pfp decode_sap decode_body decode
    is_v1_compatible effective_risk_level_with_config is_catastrophic_override is_replay_disabled
    Pfp.encode Pfp.encode_byte2 Pfp.encode_byte3 Pfp.decode Pfp.verify_magic
    Pfp.is_catastrophic_override Pfp.effective_risk_level Sap.encode Sap.decode Sap.verify_magic
    Sap.verify_protocol_id is_catastrophic is_hard_override modality_from_bits risk_level_from_bits
    body_stance_from_bits proximity_edge_from_bits output_dest_from_bit override_flag_from_bit
    rule6_enabled catastrophic_rules_enabled slice
tests_hold = (
  (refl, refl),
  (refl, refl, refl, refl, refl),
  (refl, refl, refl, refl, refl, refl),
  (refl, refl, refl, (refl, refl, refl, refl)),
  (refl, refl, refl, refl, refl, (refl, refl, refl)),
  (refl, refl, refl, refl, (refl, refl, refl)),
  refl,
  refl,
  refl,
  refl,
  (refl, refl),
  (refl, refl, refl, refl, refl, refl, refl, refl),
  refl,
  refl,
  refl,
  (refl, refl),
  (refl, refl, refl),
  (refl, refl, refl),
)
