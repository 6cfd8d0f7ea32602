-- ===== src/Pfp.antt =====
-- src/pfp.rs: the Physical Feature Protocol, a header of 4 bytes.
-- `[u8; 4]` is a list of 4 bytes; `x >> k` is `x / 2 ^ k`, `x << k` on a byte is `shl8`.
pub mod Enums
pub mod Codec
mod Examples
mod UnitTests
use bind.Common.{
  ℕ, ◌+◌, ◌*◌, ◌/◌, ◌%◌, ◌^◌, ◌≡◌, bit_and, bit_or, Bool, true, false, not, ◌&&◌, List, [], ◌∷◌,
  ◌==◌, if◌then◌else◌, get_or,
}
use bind.Common.Bytes.{u8, u16_from_be_bytes}
use Enums.{
  Modality, RiskLevel, BodyStance, ProximityEdge, OutputDest, OverrideFlag, cognitive, low, medium,
  unknown, safe, internal, normal, modality_from_bits, modality_to_bits, risk_level_from_bits,
  risk_level_to_bits, body_stance_from_bits, body_stance_to_bits, proximity_edge_from_bits,
  proximity_edge_to_bits, output_dest_from_bit, output_dest_to_bit, override_flag_from_bit,
  override_flag_to_bit, is_catastrophic, is_hard_override,
}

abbrev pub pfp_size : ℕ
pfp_size = 4

abbrev pub pfp_protocol_id : ℕ
pfp_protocol_id = 0

abbrev pub family_magic : ℕ
family_magic = 0xCF14

abbrev pub shl8 : ℕ → ℕ → ℕ
shl8 x k = u8 (x * 2 ^ k)

pub record PfpHeader : Type 0 where
  pub modality : Modality
  pub risk_level : RiskLevel
  pub body_stance : BodyStance
  pub proximity_edge : ProximityEdge
  pub output_dest : OutputDest
  pub override_flag : OverrideFlag
  pub replay_enable : Bool
  pub reserved : ℕ

-- `PfpHeader::new`
abbrev pub new :
    Modality → RiskLevel → BodyStance → ProximityEdge → OutputDest → OverrideFlag → Bool → PfpHeader
new m r b p d o e = record {
  modality = m;
  risk_level = r;
  body_stance = b;
  proximity_edge = p;
  output_dest = d;
  override_flag = o;
  replay_enable = e;
  reserved = 0;
}

-- `PfpHeader::default`
abbrev pub default : PfpHeader
default = new cognitive low unknown safe internal normal true

-- The third byte that `encode` writes.
unfoldable pub encode_byte2 : Modality → RiskLevel → BodyStance → ProximityEdge → ℕ
unfolding modality_to_bits risk_level_to_bits body_stance_to_bits proximity_edge_to_bits
encode_byte2 m r b p =
    bit_or
      (bit_or (bit_or (bit_and (modality_to_bits m) 3) (shl8 (bit_and (risk_level_to_bits r) 3) 2))
        (shl8 (bit_and (body_stance_to_bits b) 3) 4))
      (shl8 (bit_and (proximity_edge_to_bits p) 3) 6)

-- The fourth byte: three flags, with the reserved bits left at 0.
unfoldable pub encode_byte3 : OutputDest → OverrideFlag → Bool → ℕ
unfolding output_dest_to_bit override_flag_to_bit
encode_byte3 d o e =
    let byte3 : ℕ = if output_dest_to_bit d then bit_or 0 1 else 0 in
    let byte3' : ℕ = if override_flag_to_bit o then bit_or byte3 2 else byte3 in
    if e then bit_or byte3' 4 else byte3'

-- `PfpHeader::encode`
unfoldable pub encode : PfpHeader → List ℕ
encode h =
    u8 (family_magic / 256)
    ∷ u8 (bit_and family_magic 0xFF)
    ∷ encode_byte2 h.modality h.risk_level h.body_stance h.proximity_edge
    ∷ encode_byte3 h.output_dest h.override_flag h.replay_enable
    ∷ []

-- `(byte & mask) != 0`
abbrev pub has_bit : ℕ → ℕ → Bool
has_bit byte mask = not (bit_and byte mask == 0)

-- `PfpHeader::decode`
unfoldable pub decode : List ℕ → PfpHeader
decode buf =
    let byte2 = get_or buf 2 0 in
    let byte3 = get_or buf 3 0 in
    record {
      modality = modality_from_bits (bit_and byte2 3);
      risk_level = risk_level_from_bits (bit_and (byte2 / 2 ^ 2) 3);
      body_stance = body_stance_from_bits (bit_and (byte2 / 2 ^ 4) 3);
      proximity_edge = proximity_edge_from_bits (bit_and (byte2 / 2 ^ 6) 3);
      output_dest = output_dest_from_bit (has_bit byte3 1);
      override_flag = override_flag_from_bit (has_bit byte3 2);
      replay_enable = has_bit byte3 4;
      reserved = bit_and (byte3 / 2 ^ 3) 31;
    }

-- `PfpHeader::verify_magic`
unfoldable pub verify_magic : List ℕ → Bool
verify_magic buf = u16_from_be_bytes (get_or buf 0 0) (get_or buf 1 0) == family_magic

-- `PfpHeader::is_catastrophic_override`, rule 1
unfoldable pub is_catastrophic_override : PfpHeader → Bool
unfolding is_catastrophic is_hard_override
is_catastrophic_override h = is_catastrophic h.risk_level && is_hard_override h.override_flag

-- `PfpHeader::effective_risk_level`, rule 6
unfoldable pub effective_risk_level : PfpHeader → RiskLevel
effective_risk_level h = if not h.replay_enable then medium else h.risk_level

-- `PfpHeader::has_unknown_reserved`
unfoldable pub has_unknown_reserved : PfpHeader → Bool
has_unknown_reserved h = not (h.reserved == 0)
