-- ===== src/Frame/Decode.antt =====
-- `BindFrame::decode` of src/frame.rs on any bytes, well formed or not.
use bind.Common.{
  ℕ, ◌+◌, ◌-◌, ◌≤◌, ◌<◌, ◌≡◌, ◌⊎◌, refl, sym, arith, true, false, Option, List, is_some, ok, err,
  leb, leb→le, Bool-cases, inl, inr, slice_in_range, length, length-take, length-drop, take, drop,
  get_or, All, if◌then◌else◌, ensure, ◌>>◌,
}
use bind.Common.{All-get_or, All-take}
use bind.Common.Bytes.{IsU8}
use bind.Pfp.{PfpHeader}
use bind.Sap.{SapHeader}
use bind.Frame.{
  BindFrame, FrameError, incomplete_header, incomplete_frame, buffer_overflow, decode, decode_body,
  decode_pfp, decode_sap,
}
use bind.Frame.Header.{
  BindHeader, max_payload_size, has_pfp, has_sap, decode_header, total_frame_length,
  extension_length,
}
use bind.Frame.WellFormed.{IsWellFormed, IsCanonical, IsValidSap, from_byte-IsCanonical}
use bind.Frame.Steps.{decode_pfp_cases, decode_sap_cases}

-- The offset arithmetic of `decode_body` is that of `extension_length`.
extension_length_split :
    (h : BindHeader)
    → extension_length h ≡ (if has_pfp h then 4 else 0) + (if has_sap h then 28 else 0)
unfolding extension_length
extension_length_split h = ground arith

pub total_split :
    (h : BindHeader)
    → total_frame_length h
      ≡ 8 + (if has_pfp h then 4 else 0) + (if has_sap h then 28 else 0) + h.payload_length
unfolding total_frame_length
total_split h = omega (arith, extension_length_split h)

-- The frame that `decode_body` returns, and what its parts satisfy.
record Body (h : BindHeader) (buf : List ℕ) (f : BindFrame) : Type 0 where
  returned : decode_body h buf ≡ ok f
  header : f.header ≡ h
  pfp_present : has_pfp h ≡ is_some f.pfp
  sap_present : has_sap h ≡ is_some f.sap
  sap_valid : IsValidSap f.sap
  payload_length : length f.payload ≡ h.payload_length

module _ (h : BindHeader) (buf : List ℕ) (small : All IsU8 buf) where
  abbrev p_len : ℕ
  p_len = if has_pfp h then 4 else 0

  abbrev s_len : ℕ
  s_len = if has_sap h then 28 else 0

  decode_after :
      (p : Option PfpHeader) (s : Option SapHeader)
      → decode_pfp h buf 8 ≡ ok (p, 8 + p_len)
      → decode_sap h buf (8 + p_len) ≡ ok (s, 8 + p_len + s_len)
      → has_pfp h ≡ is_some p
      → has_sap h ≡ is_some s
      → IsValidSap s
      → 8 + p_len + s_len + h.payload_length ≤ length buf
      → (f : BindFrame) × Body h buf f
  unfolding decode_body
  decode_after p s ep es hp hs vs fits =
      let from = 8 + p_len + s_len in
      let cut = slice_in_range buf from (from + h.payload_length) (omega arith) fits in
      (
        record {
          header = h;
          pfp = p;
          sap = s;
          payload = take (from + h.payload_length - from) (drop from buf);
        },
        record {
          returned = rw (ep, es, cut);
          header = refl;
          pfp_present = hp;
          sap_present = hs;
          sap_valid = vs;
          payload_length = omega (
            arith,
            length-take (from + h.payload_length - from) (drop from buf),
            length-drop from buf,
          );
        },
      )

  decode_cases :
      8 + p_len + s_len + h.payload_length ≤ length buf
      → ((e : FrameError) × (decode_body h buf ≡ err e)) ⊎ ((f : BindFrame) × Body h buf f)
  unfolding decode_body
  decode_cases fits = elim (decode_pfp_cases h buf 8 (omega arith)) [
    | inl (e, failed) ↦ inl (e, rw failed)
    | inr (p, ep, hp) ↦ elim (decode_sap_cases h buf (8 + p_len) small (omega arith)) [
      | inl (e, failed) ↦ inl (e, rw (ep, failed))
      | inr (s, es, hs, vs) ↦ inr (decode_after p s ep es hp hs vs fits)
    ]
  ]

-- The header that `decode` reads.
abbrev pub read_header : List ℕ → BindHeader
read_header buf = decode_header (take 8 buf)

module _ (buf : List ℕ) where
  pub decode_short : leb 8 (length buf) ≡ false → decode buf ≡ err incomplete_header
  unfolding decode
  decode_short short = rw short

  pub decode_long :
      leb 8 (length buf) ≡ true
      → decode buf ≡ (do
        ensure (leb (total_frame_length (read_header buf)) (length buf)) incomplete_frame
        ensure (leb (read_header buf).payload_length max_payload_size) buffer_overflow
        decode_body (read_header buf) buf)
  unfolding decode total_frame_length
  decode_long long = rw (long, slice_in_range buf 0 8 (omega arith) (leb→le _ _ long))

  header_byte : (i : ℕ) → All IsU8 buf → get_or (take 8 buf) i 0 < 256
  header_byte i small = All-get_or IsU8 (take 8 buf) i 0 (omega arith) (All-take IsU8 8 buf small)

  -- The header's fields are bytes, and its frame type is one that a byte stands for.
  header_ranges :
      All IsU8 buf
      → let h = read_header buf in
        IsCanonical h.frame_type × IsU8 h.channel_id × IsU8 h.flags × IsU8 h.sequence_id
  unfolding decode_header
  header_ranges small = (
    from_byte-IsCanonical _ (header_byte 0 small),
    header_byte 1 small,
    header_byte 2 small,
    header_byte 3 small,
  )

decoded-IsWellFormed :
    (f : BindFrame) (h : BindHeader)
    → f.header ≡ h
    → IsCanonical h.frame_type × IsU8 h.channel_id × IsU8 h.flags × IsU8 h.sequence_id
    → has_pfp h ≡ is_some f.pfp
    → has_sap h ≡ is_some f.sap
    → IsValidSap f.sap
    → length f.payload ≡ h.payload_length
    → h.payload_length ≤ max_payload_size
    → IsWellFormed f
decoded-IsWellFormed f h e (t, c, g, q) hp hs vs len fits = record {
  frame_type = rw e t;
  channel = rw e c;
  flags = rw e g;
  sequence = rw e q;
  pfp_present = rw e hp;
  sap_present = rw e hs;
  sap_valid = vs;
  payload_length = rw e (sym len);
  payload_fits = omega arith;
}

-- On every sequence of bytes `decode` returns: an error, or a well-formed frame whose announced
-- length the input has. It never panics, so no slice of it is out of range.
pub decode_total :
    (buf : List ℕ)
    → All IsU8 buf
    → ((e : FrameError) × (decode buf ≡ err e))
      ⊎ ((f : BindFrame) × (decode buf ≡ ok f)
          × IsWellFormed f
          × (total_frame_length f.header ≤ length buf))
decode_total buf small = elim (Bool-cases (leb 8 (length buf))) [
  | inr short ↦ inl (incomplete_header, decode_short buf short)
  | inl long ↦ elim (Bool-cases (leb (total_frame_length h) (length buf))) [
    | inr cut ↦ inl (incomplete_frame, rw (decode_long buf long, cut))
    | inl enough ↦ elim (Bool-cases (leb h.payload_length max_payload_size)) [
      | inr big ↦ inl (buffer_overflow, rw (decode_long buf long, enough, big))
      | inl fits ↦ elim (decode_cases h buf small (room enough)) [
        | inl (e, failed) ↦ inl (e, rw (decode_long buf long, enough, fits, failed))
        | inr (f, b) ↦ inr (
          f,
          rw (decode_long buf long, enough, fits, b.returned),
          decoded-IsWellFormed f h b.header (header_ranges buf small) b.pfp_present b.sap_present
              b.sap_valid b.payload_length (leb→le _ _ fits),
          rw b.header (leb→le _ _ enough),
        )
      ]
    ]
  ]
]
  where
    h : BindHeader
    h = read_header buf

    room :
        leb (total_frame_length h) (length buf) ≡ true
        → 8 + (if has_pfp h then 4 else 0) + (if has_sap h then 28 else 0) + h.payload_length
          ≤ length buf
    room enough = omega (arith, leb→le _ _ enough, total_split h)
