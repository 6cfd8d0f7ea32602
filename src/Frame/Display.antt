-- ===== src/Frame/Display.antt =====
-- The texts of the errors of src/frame.rs.
use bind.Common.{ℕ, ◌≡◌, refl, Option, none, some, List, [], ◌∷◌, if◌then◌else◌}
use bind.Common.Bytes.{bytes_eq}
use bind.Config.{codes}
use bind.Frame.{
  FrameError, incomplete_header, incomplete_frame, buffer_overflow, sap_without_pfp,
  invalid_pfp_magic, invalid_sap_magic, invalid_sap_protocol_id,
}

-- `FrameError::fmt`
abbrev pub display : FrameError → List ℕ
display incomplete_header = codes "incomplete BIND-19 header (need 8 bytes)"
display incomplete_frame = codes "incomplete BIND-19 frame"
display buffer_overflow = codes "payload exceeds 64MB hard limit"
display sap_without_pfp = codes "SAP cannot exist without PFP"
display invalid_pfp_magic = codes "invalid PFP family magic (expected 0xCF14)"
display invalid_sap_magic = codes "invalid SAP family magic (expected 0xCF14)"
display invalid_sap_protocol_id = codes "invalid SAP protocol ID (expected 0x01)"

abbrev first_shown : List ℕ → List FrameError → Option FrameError
first_shown text [] = none
first_shown text (e ∷ es) =
    let rest = first_shown text es in if bytes_eq (display e) text then some e else rest

abbrev pub error_of : List ℕ → Option FrameError
error_of text = first_shown text (
    incomplete_header ∷ incomplete_frame ∷ buffer_overflow ∷ sap_without_pfp ∷ invalid_pfp_magic
    ∷ invalid_sap_magic ∷ invalid_sap_protocol_id ∷ [])

-- The text tells which error it is of.
error_of-display : (e : FrameError) → error_of (display e) ≡ some e
error_of-display incomplete_header = refl
error_of-display incomplete_frame = refl
error_of-display buffer_overflow = refl
error_of-display sap_without_pfp = refl
error_of-display invalid_pfp_magic = refl
error_of-display invalid_sap_magic = refl
error_of-display invalid_sap_protocol_id = refl
