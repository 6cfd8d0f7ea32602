-- ===== src/Frame/Examples.antt =====
-- Runs of src/frame.rs: the tests of the source, and the theorems at concrete inputs.
use bind.Common.{
  ℕ, ◌≡◌, ◌≤◌, ◌⊎◌, ◌++◌, refl, ap, sym, ◌∙◌, arith, false, not, ◌&&◌, none, some, List, All, [],
  ◌∷◌, replicate, length, take, is_some, ok, err, if◌then◌else◌, ltb, slice,
}
use mathlib.Core.List.{append-nil}
use bind.Pfp
use bind.Pfp.Enums.{executive, catastrophic, moving, critical_edge, external, hard_override}
use bind.Pfp.{PfpHeader}
use bind.Sap
use bind.Sap.{SapHeader}
use bind.Frame.{
  BindFrame, FrameError, incomplete_frame, incomplete_header, sap_without_pfp, invalid_pfp_magic,
  new, encode, decode, decode_body, decode_pfp,
}
use bind.Frame.Header.{
  frame_data, total_frame_length, from_byte, to_byte, has_pfp, has_sap, extension_length,
  decode_header,
}
use bind.Frame.WellFormed.{IsWellFormed, IsCanonical, new-IsWellFormed}
use bind.Frame.RoundTrip.{decode-encode, length-encode}
use bind.Frame.Decode.{decode_total}
use bind.Frame.Reject.{decode_truncated, received_rebuilt}
use bind.Frame.Bytes.{frame_encode-IsU8}
use bind.Common.Bytes.{IsU8}
use mathlib.Core.Quot
use bind.Frame.Wire.{Wire, wire_bytes, wire_faithful}

abbrev pfp : PfpHeader
pfp = Pfp.new executive catastrophic moving critical_edge external hard_override false

abbrev sap : SapHeader
sap = Sap.new 12345 (replicate 14 0xAB) (replicate 8 0xCD)

abbrev full : BindFrame
full = record {
  header = record {
    frame_type = frame_data;
    channel_id = 3;
    flags = 24;
    sequence_id = 2;
    payload_length = 2;
  };
  pfp = some pfp;
  sap = some sap;
  payload = 104 ∷ 105 ∷ [];
}

-- A frame with a SAP and no PFP.
abbrev lone : BindFrame
lone = record full { header = record (full.header) { flags = 16 }; pfp = none }

data-IsCanonical : IsCanonical frame_data
unfolding from_byte to_byte
data-IsCanonical = record { byte = omega arith; same = refl }

sap-IsValid : Sap.IsValid sap
sap-IsValid = omega arith

full-new : new frame_data 3 2 (some pfp) (some sap) (104 ∷ 105 ∷ []) ≡ ok full
unfolding new
full-new = refl

full-IsWellFormed : IsWellFormed full
full-IsWellFormed =
    (new-IsWellFormed frame_data 3 2 (some pfp) (some sap) (104 ∷ 105 ∷ []) full data-IsCanonical
      (omega arith) (omega arith) sap-IsValid full-new).0

lone-IsWellFormed : IsWellFormed lone
unfolding has_pfp has_sap
lone-IsWellFormed = record {
  frame_type = data-IsCanonical;
  channel = omega arith;
  flags = omega arith;
  sequence = omega arith;
  pfp_present = refl;
  sap_present = refl;
  sap_valid = sap-IsValid;
  payload_length = refl;
  payload_fits = omega arith;
}

new-IsWellFormed_example :
    IsWellFormed full
    × (full.pfp ≡ some pfp)
    × (full.sap ≡ some sap)
    × (full.payload ≡ 104 ∷ 105 ∷ [])
    × (is_some full.sap && not (is_some full.pfp) ≡ false)
new-IsWellFormed_example =
    new-IsWellFormed frame_data 3 2 (some pfp) (some sap) (104 ∷ 105 ∷ []) full data-IsCanonical
      (omega arith) (omega arith) sap-IsValid full-new

decode-encode_example : decode (encode full ++ (9 ∷ [])) ≡ ok full
decode-encode_example = decode-encode full (9 ∷ []) full-IsWellFormed

full_length : total_frame_length full.header ≡ 42
unfolding total_frame_length extension_length has_pfp has_sap
full_length = refl

-- `test_invalid_pfp_magic_rejected`
bad_magic : decode (1 ∷ 0 ∷ 8 ∷ 0 ∷ 0 ∷ 0 ∷ 0 ∷ 0 ∷ 0 ∷ 0 ∷ 0 ∷ 0 ∷ []) ≡ err invalid_pfp_magic
unfolding decode decode_body decode_pfp decode_header extension_length has_pfp has_sap slice
    Pfp.verify_magic
bad_magic = refl

abbrev short_input : List ℕ
short_input = 1 ∷ 0 ∷ 0 ∷ 0 ∷ 0 ∷ 0 ∷ 0 ∷ 1 ∷ 7 ∷ 8 ∷ []

decode_total_example :
    ((e : FrameError) × (decode short_input ≡ err e))
    ⊎ ((f : BindFrame) × (decode short_input ≡ ok f)
        × IsWellFormed f
        × (total_frame_length f.header ≤ length short_input))
decode_total_example = decode_total short_input (omega arith)

decode_truncated_example :
    decode (take 20 (encode full)) ≡ err (if ltb 20 8 then incomplete_header else incomplete_frame)
decode_truncated_example =
    decode_truncated full 20 full-IsWellFormed
      (omega (arith, length-encode full full-IsWellFormed, full_length))

-- What arrives of that frame.
abbrev lone_bytes : List ℕ
lone_bytes = encode lone

lone_bytes-IsU8 : All IsU8 lone_bytes
lone_bytes-IsU8 = frame_encode-IsU8 lone lone-IsWellFormed (omega arith) (omega arith)

lone_decoded : decode lone_bytes ≡ ok lone
lone_decoded = ap decode (sym (append-nil lone_bytes)) ∙ decode-encode lone [] lone-IsWellFormed

-- The constructor refuses what has been decoded.
received_rebuilt_example : new frame_data 3 2 none (some sap) (104 ∷ 105 ∷ []) ≡ err sap_without_pfp
received_rebuilt_example = received_rebuilt lone_bytes lone lone_bytes-IsU8 lone_decoded

-- The same frame with reserved bits, which are not sent.
abbrev spare : BindFrame
spare = record full { pfp = some (record pfp { reserved = 3 }) }

spare-IsWellFormed : IsWellFormed spare
unfolding has_pfp has_sap
spare-IsWellFormed = record {
  frame_type = data-IsCanonical;
  channel = omega arith;
  flags = omega arith;
  sequence = omega arith;
  pfp_present = refl;
  sap_present = refl;
  sap_valid = sap-IsValid;
  payload_length = refl;
  payload_fits = omega arith;
}

abbrev full_wire : Wire
full_wire = Quot.mk (full, full-IsWellFormed)

abbrev spare_wire : Wire
spare_wire = Quot.mk (spare, spare-IsWellFormed)

-- The two frames are the same on the wire.
same_on_wire : full_wire ≡ spare_wire
same_on_wire =
    (wire_faithful full_wire spare_wire []).0.0 (unfold wire_bytes encode Pfp.encode in refl)
