-- ===== src/Pfp/Examples.antt =====
-- Runs of src/pfp.rs: the tests of the source, and the theorems at concrete inputs.
use bind.Common.{◌≡◌, refl, true, [], ◌∷◌}
use bind.Pfp.Enums.{
  render, executive, critical, catastrophic, standing, moving, warning, critical_edge, internal,
  external, normal, hard_override,
}
use bind.Pfp.{PfpHeader, new, encode, encode_byte2, encode_byte3}

-- `test_fixed_offset_byte2`
fixed_offset_byte2 :
    encode (new render critical standing warning internal normal true) ≡ 0xCF ∷ 0x14 ∷ 0x59 ∷ 4 ∷ []
unfolding encode encode_byte2 encode_byte3
fixed_offset_byte2 = refl

abbrev catastrophic_header : PfpHeader
catastrophic_header =
    record (new executive catastrophic moving critical_edge external hard_override true) {
      reserved = 31;
    }
