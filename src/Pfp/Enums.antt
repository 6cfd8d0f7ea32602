-- ===== src/Pfp/Enums.antt =====
-- The field types of src/pfp.rs with their bit patterns.
use bind.Common.{ℕ, Bool, true, false, bit_and, ◌==◌, if◌then◌else◌}

pub data Modality : Type 0 where
  cognitive render executive sensor_feed : Modality

pub data RiskLevel : Type 0 where
  low medium critical catastrophic : RiskLevel

pub data BodyStance : Type 0 where
  seated standing moving unknown : BodyStance

pub data ProximityEdge : Type 0 where
  safe warning danger critical_edge : ProximityEdge

pub data OutputDest : Type 0 where
  internal external : OutputDest

pub data OverrideFlag : Type 0 where
  normal hard_override : OverrideFlag

-- The `match bits & 0b11 { 0, 1, 2, _ }` of the four `from_bits`.
abbrev pub match_bits {ℓ} : {A : Type ℓ} → ℕ → A → A → A → A → A
match_bits bits a b c d =
    if bit_and bits 3 == 0
    then a
    else (if bit_and bits 3 == 1 then b else (if bit_and bits 3 == 2 then c else d))

unfoldable pub modality_from_bits : ℕ → Modality
modality_from_bits bits = match_bits bits cognitive render executive sensor_feed

unfoldable pub modality_to_bits : Modality → ℕ
modality_to_bits cognitive = 0
modality_to_bits render = 1
modality_to_bits executive = 2
modality_to_bits sensor_feed = 3

unfoldable pub risk_level_from_bits : ℕ → RiskLevel
risk_level_from_bits bits = match_bits bits low medium critical catastrophic

unfoldable pub risk_level_to_bits : RiskLevel → ℕ
risk_level_to_bits low = 0
risk_level_to_bits medium = 1
risk_level_to_bits critical = 2
risk_level_to_bits catastrophic = 3

unfoldable pub body_stance_from_bits : ℕ → BodyStance
body_stance_from_bits bits = match_bits bits seated standing moving unknown

unfoldable pub body_stance_to_bits : BodyStance → ℕ
body_stance_to_bits seated = 0
body_stance_to_bits standing = 1
body_stance_to_bits moving = 2
body_stance_to_bits unknown = 3

unfoldable pub proximity_edge_from_bits : ℕ → ProximityEdge
proximity_edge_from_bits bits = match_bits bits safe warning danger critical_edge

unfoldable pub proximity_edge_to_bits : ProximityEdge → ℕ
proximity_edge_to_bits safe = 0
proximity_edge_to_bits warning = 1
proximity_edge_to_bits danger = 2
proximity_edge_to_bits critical_edge = 3

unfoldable pub output_dest_from_bit : Bool → OutputDest
output_dest_from_bit bit = if bit then external else internal

unfoldable pub output_dest_to_bit : OutputDest → Bool
output_dest_to_bit internal = false
output_dest_to_bit external = true

unfoldable pub override_flag_from_bit : Bool → OverrideFlag
override_flag_from_bit bit = if bit then hard_override else normal

unfoldable pub override_flag_to_bit : OverrideFlag → Bool
override_flag_to_bit normal = false
override_flag_to_bit hard_override = true

-- `self.risk_level == RiskLevel::Catastrophic`
unfoldable pub is_catastrophic : RiskLevel → Bool
is_catastrophic catastrophic = true
is_catastrophic _ = false

-- `self.override_flag == OverrideFlag::HardOverride`
unfoldable pub is_hard_override : OverrideFlag → Bool
is_hard_override hard_override = true
is_hard_override normal = false
