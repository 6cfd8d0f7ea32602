-- ===== src/Vectors/Frames.antt =====
-- The frame vectors of examples/generate_test_vectors.rs.
use bind.Common.{
  ℕ, ◌+◌, ◌≤◌, ◌≡◌, refl, sym, ap, ◌∙◌, arith, false, not, ◌&&◌, Option, some, is_some, List, [],
  All, length, ok,
}
use mathlib.Core.List.{append-nil}
use bind.Common.Bytes.{IsU8}
use bind.Pfp.{PfpHeader}
use bind.Sap.{SapHeader}
use bind.Frame
use bind.Frame.{BindFrame}
use bind.Frame.Header.{
  frame_data, from_byte, to_byte, max_payload_size, total_frame_length, extension_length,
}
use bind.Frame.WellFormed.{IsWellFormed, IsCanonical, IsValidSap, built, built-IsWellFormed}
use bind.Frame.RoundTrip.{clear_reserved, cut_version, decode-encode, length-encode}
use bind.Frame.Bytes.{IsByteSap, frame_encode-IsU8}
use bind.Vectors.Hex.{unhex, unhex-hex}
use bind.Vectors.Encoded.{FrameVector, frame_vector, describe_frame}

module _ (p : Option PfpHeader) (s : Option SapHeader) (payload : List ℕ) where
  abbrev frame : BindFrame
  frame = built frame_data 1 0 p s payload

  made :
      is_some s && not (is_some p) ≡ false
      → length payload ≤ max_payload_size
      → frame_vector p s payload ≡ ok (describe_frame p s payload frame)
  unfolding frame_vector Frame.new
  made paired fits = ground arith

  frame_data-IsCanonical : IsCanonical frame_data
  unfolding from_byte to_byte
  frame_data-IsCanonical = record { byte = omega arith; same = refl }

  sizes :
      IsWellFormed frame
      → let v = describe_frame p s payload frame in
        v.total_size ≡ v.header_size + v.pfp_size + v.sap_size + v.payload_size
  unfolding total_frame_length extension_length
  sizes w = ground (arith, length-encode frame w, w.pfp_present, w.sap_present, w.payload_length)

  -- For a SAP only with a PFP and a payload that fits, the frame vector is made, its sizes add up to
  -- the length of the frame, and its text stands for bytes that are decoded to the optional headers and
  -- the payload of its input, up to the bits that are not sent.
  pub frame_vector_lem :
      is_some s && not (is_some p) ≡ false
      → length payload ≤ max_payload_size
      → IsValidSap s
      → IsByteSap s
      → All IsU8 payload
      → (v : FrameVector) × (frame_vector p s payload ≡ ok v)
        × (v.total_size ≡ v.header_size + v.pfp_size + v.sap_size + v.payload_size)
        × ((bytes : List ℕ) × (unhex v.encoded_hex ≡ some bytes)
            × ((f : BindFrame) × (Frame.decode bytes ≡ ok f)
                × (f.pfp ≡ clear_reserved p)
                × (f.sap ≡ cut_version s)
                × (f.payload ≡ payload)))
  frame_vector_lem paired fits valid sap_bytes payload_bytes =
      let w =
        built-IsWellFormed frame_data 1 0 p s payload frame_data-IsCanonical (omega arith)
          (omega arith) valid fits in
      (
        describe_frame p s payload frame,
        made paired fits,
        sizes w,
        (
          Frame.encode frame,
          (unhex-hex (Frame.encode frame) (frame_encode-IsU8 frame w sap_bytes payload_bytes)).0,
          (
            _,
            ap Frame.decode (sym (append-nil (Frame.encode frame))) ∙ decode-encode frame [] w,
            refl,
            refl,
            refl,
          ),
        ),
      )
