-- ===== src/Pfp/Codec.antt =====
-- The PFP codec of src/pfp.rs: decoding after encoding, and encoding after decoding.
use bind.Common.{
  ℕ, ◌/◌, ◌%◌, ◌^◌, ◌<◌, ◌≡◌, refl, arith, Bool, true, [], ◌∷◌, length, bit_and, get_or, All,
}
use bind.Common.Bits.{all_below, agree_below}
use bind.Common.Bytes.{IsU8, u16_from_be_bytes}
use bind.Pfp.Enums.{
  Modality, RiskLevel, BodyStance, ProximityEdge, OutputDest, OverrideFlag, cognitive, low, seated,
  safe, internal, normal, modality_from_bits, risk_level_from_bits, body_stance_from_bits,
  proximity_edge_from_bits, output_dest_from_bit, override_flag_from_bit,
}
use bind.Pfp.{
  PfpHeader, pfp_size, family_magic, encode_byte2, encode_byte3, encode, decode, verify_magic,
  has_bit,
}

-- What the four fields of the third byte and the four of the fourth read back.
read_byte2 :
    (m : Modality) (r : RiskLevel) (b : BodyStance) (p : ProximityEdge)
    → let byte2 = encode_byte2 m r b p in
      (modality_from_bits (bit_and byte2 3) ≡ m)
      × (risk_level_from_bits (bit_and (byte2 / 2 ^ 2) 3) ≡ r)
      × (body_stance_from_bits (bit_and (byte2 / 2 ^ 4) 3) ≡ b)
      × (proximity_edge_from_bits (bit_and (byte2 / 2 ^ 6) 3) ≡ p)
unfolding encode_byte2 modality_from_bits risk_level_from_bits body_stance_from_bits
    proximity_edge_from_bits
read_byte2 cognitive low seated safe = (refl, refl, refl, refl)
read_byte2 _ low seated safe = (refl, refl, refl, refl)
read_byte2 _ _ seated safe = (refl, refl, refl, refl)
read_byte2 _ _ _ safe = (refl, refl, refl, refl)
read_byte2 _ _ _ _ = (refl, refl, refl, refl)

read_byte3 :
    (d : OutputDest) (o : OverrideFlag) (e : Bool)
    → let byte3 = encode_byte3 d o e in
      (output_dest_from_bit (has_bit byte3 1) ≡ d)
      × (override_flag_from_bit (has_bit byte3 2) ≡ o)
      × (has_bit byte3 4 ≡ e)
      × (bit_and (byte3 / 2 ^ 3) 31 ≡ 0)
unfolding encode_byte3 output_dest_from_bit override_flag_from_bit
read_byte3 internal normal true = (refl, refl, refl, refl)
read_byte3 _ normal true = (refl, refl, refl, refl)
read_byte3 _ _ true = (refl, refl, refl, refl)
read_byte3 _ _ _ = (refl, refl, refl, refl)

-- Decoding the encoding of any header gives the header back with its reserved bits cleared.
pub pfp_decode-encode : (h : PfpHeader) → decode (encode h) ≡ record h { reserved = 0 }
unfolding decode encode
pfp_decode-encode h =
    let (m, r, b, p) = read_byte2 h.modality h.risk_level h.body_stance h.proximity_edge in
    let (d, o, e, z) = read_byte3 h.output_dest h.override_flag h.replay_enable in
    λ i. record {
      modality = m i;
      risk_level = r i;
      body_stance = b i;
      proximity_edge = p i;
      output_dest = d i;
      override_flag = o i;
      replay_enable = e i;
      reserved = z i;
    }

pub length-encode : (h : PfpHeader) → length (encode h) ≡ pfp_size
unfolding encode
length-encode h = refl

pub verify_magic-encode : (h : PfpHeader) → verify_magic (encode h) ≡ true
unfolding verify_magic encode
verify_magic-encode h = refl

byte2_small :
    (m : Modality) (r : RiskLevel) (b : BodyStance) (p : ProximityEdge) → encode_byte2 m r b p < 256
unfolding encode_byte2
byte2_small cognitive low seated safe = omega arith
byte2_small _ low seated safe = omega arith
byte2_small _ _ seated safe = omega arith
byte2_small _ _ _ safe = omega arith
byte2_small _ _ _ _ = omega arith

byte3_small : (d : OutputDest) (o : OverrideFlag) (e : Bool) → encode_byte3 d o e < 8
unfolding encode_byte3
byte3_small internal normal true = omega arith
byte3_small _ normal true = omega arith
byte3_small _ _ true = omega arith
byte3_small _ _ _ = omega arith

-- Every element that `encode` writes is a byte, and the reserved bits of the last one are 0.
pub encode-IsU8 : (h : PfpHeader) → All IsU8 (encode h) × (get_or (encode h) 3 0 < 8)
unfolding encode
encode-IsU8 h = omega (
  arith,
  byte2_small h.modality h.risk_level h.body_stance h.proximity_edge,
  byte3_small h.output_dest h.override_flag h.replay_enable,
)

write_byte2 :
    (x : ℕ)
    → x < 256
    → encode_byte2
        (modality_from_bits (bit_and x 3))
        (risk_level_from_bits (bit_and (x / 2 ^ 2) 3))
        (body_stance_from_bits (bit_and (x / 2 ^ 4) 3))
        (proximity_edge_from_bits (bit_and (x / 2 ^ 6) 3))
      ≡ x
unfolding all_below encode_byte2 modality_from_bits risk_level_from_bits body_stance_from_bits
    proximity_edge_from_bits
write_byte2 =
    agree_below 256
      (λ x.
        encode_byte2 (modality_from_bits (bit_and x 3))
          (risk_level_from_bits (bit_and (x / 2 ^ 2) 3))
          (body_stance_from_bits (bit_and (x / 2 ^ 4) 3))
          (proximity_edge_from_bits (bit_and (x / 2 ^ 6) 3)))
      (λ x. x) refl

write_byte3 :
    (x : ℕ)
    → x < 256
    → encode_byte3
        (output_dest_from_bit (has_bit x 1))
        (override_flag_from_bit (has_bit x 2))
        (has_bit x 4)
      ≡ x % 8
unfolding all_below encode_byte3 output_dest_from_bit override_flag_from_bit
write_byte3 =
    agree_below 256
      (λ x.
        encode_byte3 (output_dest_from_bit (has_bit x 1)) (override_flag_from_bit (has_bit x 2))
          (has_bit x 4))
      (λ x. x % 8) refl

magic_bytes :
    (a b : ℕ) → a < 256 → b < 256 → u16_from_be_bytes a b ≡ family_magic → (a ≡ 0xCF) × (b ≡ 0x14)
magic_bytes a b ha hb h = omega arith

-- Encoding what was decoded from four bytes with the family magic gives these bytes back, with the
-- five reserved bits of the last one cleared.
pub pfp_encode-decode :
    (a b c d : ℕ)
    → All IsU8 (a ∷ b ∷ c ∷ d ∷ [])
    → verify_magic (a ∷ b ∷ c ∷ d ∷ []) ≡ true
    → encode (decode (a ∷ b ∷ c ∷ d ∷ [])) ≡ a ∷ b ∷ c ∷ (d % 8) ∷ []
unfolding encode decode verify_magic
pfp_encode-decode a b c d (ha, (hb, (hc, (hd, _)))) v =
    ground (arith, magic_bytes a b, write_byte2 c hc, write_byte3 d hd)
