-- ===== src/Rotation/Display.antt =====
-- The texts of the errors of src/rotation.rs.
use bind.Common.{ℕ, ◌≡◌, refl, Option, none, some, List, [], ◌∷◌, if◌then◌else◌}
use bind.Common.Bytes.{bytes_eq}
use bind.Config.{codes}
use bind.Rotation.{
  RotationError, payload_too_short, not_in_idle_state, unexpected_ack, not_in_failed_state,
  not_in_rotated_state,
}

-- `RotationError::fmt`, with NONCE_SIZE printed.
abbrev pub display : RotationError → List ℕ
display payload_too_short = codes "KEY_ROTATION payload too short (need 12 bytes nonce)"
display not_in_idle_state = codes "cannot start rotation: not in Idle state"
display unexpected_ack = codes "unexpected ACK: not in Pending state"
display not_in_failed_state = codes "cannot manual reset: not in Failed state"
display not_in_rotated_state = codes "cannot complete rotation: not in Rotated state"

abbrev first_shown : List ℕ → List RotationError → Option RotationError
first_shown text [] = none
first_shown text (e ∷ es) =
    let rest = first_shown text es in if bytes_eq (display e) text then some e else rest

abbrev pub error_of : List ℕ → Option RotationError
error_of text = first_shown text (
    payload_too_short ∷ not_in_idle_state ∷ unexpected_ack ∷ not_in_failed_state
    ∷ not_in_rotated_state ∷ [])

-- The text tells which error it is of.
error_of-display : (e : RotationError) → error_of (display e) ≡ some e
error_of-display payload_too_short = refl
error_of-display not_in_idle_state = refl
error_of-display unexpected_ack = refl
error_of-display not_in_failed_state = refl
error_of-display not_in_rotated_state = refl
