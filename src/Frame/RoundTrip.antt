-- ===== src/Frame/RoundTrip.antt =====
-- `BindFrame::decode` after `BindFrame::encode`.
use bind.Common.{take, take-append}
use bind.Common.{
  ℕ, ◌+◌, ◌%◌, ◌≤◌, ◌≡◌, refl, arith, Option, none, some, List, length, is_some, ok, le→leb, ◌++◌,
  slice, slice_middle, length-append, if◌then◌else◌, ap, sym, ◌∙◌, [],
}
use bind.Common.Bytes.{u32_be_bytes_lem}
use bind.Pfp
use bind.Pfp.{PfpHeader}
use bind.Pfp.Codec as PfpCodec
use bind.Sap
use bind.Sap.{SapHeader}
use bind.Sap.Codec as SapCodec
use bind.Frame.{
  BindFrame, encode, decode, decode_body, decode_pfp, decode_sap, encode_pfp, encode_sap,
}
use bind.Frame.Header.{
  BindHeader, header_size, max_payload_size, has_pfp, has_sap, encode_header, decode_header,
  total_frame_length, extension_length,
}
use bind.Frame.WellFormed.{IsWellFormed, IsValidSap}
use mathlib.Core.List.{append_assoc}

abbrev pub clear_reserved : Option PfpHeader → Option PfpHeader
clear_reserved none = none
clear_reserved (some p) = some (record p { reserved = 0 })

abbrev pub cut_version : Option SapHeader → Option SapHeader
cut_version none = none
cut_version (some s) = some (record s { sap_version = s.sap_version % 16 })

-- The frame that is read back: the reserved bits of the PFP and of the SAP's version are not sent.
abbrev pub canonical : BindFrame → BindFrame
canonical f = record f { pfp = clear_reserved f.pfp; sap = cut_version f.sap }

pub length-encode_header : (h : BindHeader) → length (encode_header h) ≡ header_size
unfolding encode_header
length-encode_header h = refl

length-encode_pfp : (p : Option PfpHeader) → length (encode_pfp p) ≡ (if is_some p then 4 else 0)
length-encode_pfp none = refl
length-encode_pfp (some p) = PfpCodec.length-encode p

length-encode_sap :
    (s : Option SapHeader) → IsValidSap s → length (encode_sap s) ≡ (if is_some s then 28 else 0)
length-encode_sap none v = refl
length-encode_sap (some s) v = SapCodec.length-encode s v

decode_header-encode_header :
    (f : BindFrame) → IsWellFormed f → decode_header (encode_header f.header) ≡ f.header
unfolding decode_header encode_header
decode_header-encode_header f w = λ i. record {
  frame_type = w.frame_type.same i;
  channel_id = f.header.channel_id;
  flags = f.header.flags;
  sequence_id = f.header.sequence_id;
  payload_length = u32_be_bytes_lem f.header.payload_length (omega arith) i;
}

extension_length_lem :
    (f : BindFrame)
    → IsWellFormed f
    → extension_length f.header ≡ length (encode_pfp f.pfp) + length (encode_sap f.sap)
unfolding extension_length
extension_length_lem f w =
    rw (w.pfp_present, w.sap_present, length-encode_pfp f.pfp, length-encode_sap f.sap w.sap_valid)
      (ground arith)

-- The encoding of a well-formed frame has the length that its header announces.
pub length-encode :
    (f : BindFrame) → IsWellFormed f → length (encode f) ≡ total_frame_length f.header
unfolding encode total_frame_length
length-encode f w = omega (
  arith,
  length-append (encode_header f.header) (encode_pfp f.pfp ++ (encode_sap f.sap ++ f.payload)),
  length-append (encode_pfp f.pfp) (encode_sap f.sap ++ f.payload),
  length-append (encode_sap f.sap) f.payload,
  length-encode_header f.header,
  extension_length_lem f w,
  w,
)

decode_pfp-encode_pfp :
    (h : BindHeader) (p : Option PfpHeader) (xs zs : List ℕ) (offset : ℕ)
    → has_pfp h ≡ is_some p
    → offset ≡ length xs
    → decode_pfp h (xs ++ (encode_pfp p ++ zs)) offset
      ≡ ok (clear_reserved p, offset + length (encode_pfp p))
unfolding decode_pfp
decode_pfp-encode_pfp h none xs zs offset e o = rw e (ap (λ (n : ℕ). ok (none, n)) (omega arith))
decode_pfp-encode_pfp h (some p) xs zs offset e o =
    rw
      (
        e,
        slice_middle xs (Pfp.encode p) zs offset (offset + 4) o
            (omega (arith, PfpCodec.length-encode p)),
      )
      (rw (PfpCodec.verify_magic-encode p, PfpCodec.pfp_decode-encode p, PfpCodec.length-encode p))

decode_sap-encode_sap :
    (h : BindHeader) (s : Option SapHeader) (xs zs : List ℕ) (offset : ℕ)
    → IsValidSap s
    → has_sap h ≡ is_some s
    → offset ≡ length xs
    → decode_sap h (xs ++ (encode_sap s ++ zs)) offset
      ≡ ok (cut_version s, offset + length (encode_sap s))
unfolding decode_sap
decode_sap-encode_sap h none xs zs offset v e o = rw e (ap (λ (n : ℕ). ok (none, n)) (omega arith))
decode_sap-encode_sap h (some s) xs zs offset v e o =
    let (magic, id) = SapCodec.verify-encode s in
    rw
      (
        e,
        slice_middle xs (Sap.encode s) zs offset (offset + 28) o
            (omega (arith, SapCodec.length-encode s v)),
      )
      (rw (magic, id, SapCodec.sap_decode-encode s v, SapCodec.length-encode s v))

-- The parts of an encoded frame, with what follows it, and the slices that `decode` takes.
module _ (f : BindFrame) (rest : List ℕ) (w : IsWellFormed f) where
  abbrev h_bytes : List ℕ
  h_bytes = encode_header f.header

  abbrev p_bytes : List ℕ
  p_bytes = encode_pfp f.pfp

  abbrev s_bytes : List ℕ
  s_bytes = encode_sap f.sap

  abbrev layout : List ℕ
  layout = h_bytes ++ (p_bytes ++ (s_bytes ++ (f.payload ++ rest)))

  layout_lem : encode f ++ rest ≡ layout
  unfolding encode
  layout_lem = simp append_assoc

  sap_at :
      decode_sap f.header layout (8 + length p_bytes)
      ≡ ok (cut_version f.sap, 8 + length p_bytes + length s_bytes)
  sap_at = rw (← append_assoc h_bytes p_bytes (s_bytes ++ (f.payload ++ rest))) (
      decode_sap-encode_sap f.header f.sap (h_bytes ++ p_bytes) (f.payload ++ rest)
        (8 + length p_bytes) w.sap_valid w.sap_present
        (omega (arith, length-append h_bytes p_bytes, length-encode_header f.header)))

  payload_at :
      let from = 8 + length p_bytes + length s_bytes in
      slice layout from (from + f.header.payload_length) ≡ some f.payload
  payload_at =
      rw
        (
          ← append_assoc h_bytes p_bytes (s_bytes ++ (f.payload ++ rest)),
          ← append_assoc (h_bytes ++ p_bytes) s_bytes (f.payload ++ rest),
        )
        (slice_middle ((h_bytes ++ p_bytes) ++ s_bytes) f.payload rest _ _
          (omega (
            arith,
            length-append (h_bytes ++ p_bytes) s_bytes,
            length-append h_bytes p_bytes,
            length-encode_header f.header,
          ))
          (omega (arith, w.payload_length)))

  body_lem : decode_body f.header layout ≡ ok (canonical f)
  unfolding decode_body
  body_lem = rw (
    decode_pfp-encode_pfp f.header f.pfp h_bytes (s_bytes ++ (f.payload ++ rest)) 8 w.pfp_present
        (sym (length-encode_header f.header)),
    sap_at,
    payload_at,
  )

  length-layout : length layout ≡ total_frame_length f.header + length rest
  length-layout =
      rw (← layout_lem) (omega (arith, length-append (encode f) rest, length-encode f w))

pub total-le : (h : BindHeader) → 8 ≤ total_frame_length h
unfolding total_frame_length
total-le h = omega arith

decode_enters :
    (buf hb : List ℕ) (h : BindHeader)
    → slice buf 0 8 ≡ some hb
    → decode_header hb ≡ h
    → 8 ≤ length buf
    → total_frame_length h ≤ length buf
    → h.payload_length ≤ max_payload_size
    → decode buf ≡ decode_body h buf
unfolding decode total_frame_length
decode_enters buf hb h cut parsed long enough fits =
    rw (le→leb _ _ long, cut, parsed, le→leb _ _ enough, le→leb _ _ fits)

-- Decoding the encoding of a well-formed frame, whatever bytes follow it, gives the frame back, with
-- the reserved bits of its PFP cleared and its SAP version cut to four bits.
pub decode-encode :
    (f : BindFrame) (rest : List ℕ) → IsWellFormed f → decode (encode f ++ rest) ≡ ok (canonical f)
decode-encode f rest w = rw (layout_lem f rest w) (
    decode_enters (layout f rest w) (encode_header f.header) f.header
      (slice_middle [] (encode_header f.header) _ 0 8 refl
        (omega (arith, length-encode_header f.header)))
      (decode_header-encode_header f w) (omega (arith, length-layout f rest w, total-le f.header))
      (omega (arith, length-layout f rest w)) (omega (arith, w))
    ∙ body_lem f rest w)

-- The header at the front of an encoded frame is the frame's.
pub encode_starts : (f : BindFrame) → IsWellFormed f → decode_header (take 8 (encode f)) ≡ f.header
unfolding encode
encode_starts f w =
    rw
      (take-append (encode_header f.header) (encode_pfp f.pfp ++ (encode_sap f.sap ++ f.payload)) 8
        (omega (arith, length-encode_header f.header)))
      (decode_header-encode_header f w)
