-- ===== src/Demo/Examples.antt =====
-- The runs of the examples.
use bind.Frame.Header.{encode_header, extension_length, has_sap, decode_header, has_pfp}
use bind.Common.{
  slice, Result, err, panic, Option, some, none, ◌≡◌, refl, ok, length, List, [], ◌∷◌, ℕ,
}
use bind.Pfp
use bind.Sap
use bind.Frame
use bind.ReplayCache.{check_and_update, insert_new}
use bind.ReplayCache.AssocMap.{assoc_map}
use bind.Processor.{process_frame, is_allowed, is_rejected}
use bind.Pfp.Enums.{risk_level_to_bits}
use bind.Demo.BasicFrame
use bind.Demo.BasicFrame.{Printed}
use bind.Demo.ReplayProtection

-- Nothing in examples/replay_protection.rs panics over a list of pairs.
replay_protection_runs : ReplayProtection.main assoc_map 5 ≡ ok tt
unfolding ReplayProtection.main ReplayProtection.direct_use ReplayProtection.pass_all
    ReplayProtection.processor_use ReplayProtection.tenants ReplayProtection.eco Frame.new
    check_and_update insert_new process_frame is_allowed is_rejected Pfp.effective_risk_level
    risk_level_to_bits
replay_protection_runs = refl

abbrev sizes : Printed → List ℕ
sizes p =
    length p.pfp_bytes
    ∷ p.family_magic
    ∷ length p.encoded
    ∷ length p.decoded.payload
    ∷ length p.v1_encoded
    ∷ length p.eco_encoded
    ∷ []

sizes_of : Result Frame.FrameError Printed → Option (List ℕ)
sizes_of (ok p) = some (sizes p)
sizes_of (err e) = none
sizes_of panic = none

-- The sizes that examples/basic_frame.rs prints.
basic_frame_sizes : sizes_of BasicFrame.main ≡ some (4 ∷ 0xCF14 ∷ 59 ∷ 19 ∷ 29 ∷ 26 ∷ [])
unfolding sizes_of BasicFrame.main Pfp.encode Pfp.encode_byte2 Pfp.encode_byte3 Sap.encode Frame.new
    Frame.encode Frame.decode encode_header slice extension_length has_sap decode_header has_pfp
    Frame.decode_body Frame.decode_pfp Pfp.verify_magic Frame.decode_sap Sap.verify_magic
    Sap.verify_protocol_id
basic_frame_sizes = refl
