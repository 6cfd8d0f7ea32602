-- ===== src/Frame/Reject.antt =====
-- What `BindFrame::decode` of src/frame.rs refuses, and what `BindFrame::new` makes of what it reads.
use bind.Common.{
  ℕ, ◌+◌, refl, sym, ◌∙◌, not, ◌&&◌, Option, is_some, Result, All, ◌≤◌, ◌<◌, ◌≡◌, arith, false,
  none, some, List, ok, err, leb, ltb, le→leb, Bool-cases, inl, inr, length, length-take, take,
  if◌then◌else◌, ltb→lt, gt→leb,
}
use bind.Common.{take-take}
use bind.Common.Bytes.{IsU8, u32}
use bind.Pfp.{PfpHeader}
use bind.Sap.{SapHeader}
use bind.Frame.{
  BindFrame, incomplete_header, incomplete_frame, sap_without_pfp, FrameError, present_flags, new,
  encode, decode,
}
use bind.Frame.Header.{max_payload_size, total_frame_length}
use bind.Frame.WellFormed.{IsWellFormed}
use bind.Frame.Decode.{decode_total, decode_short, decode_long, read_header}
use bind.Frame.RoundTrip.{length-encode, encode_starts}

length-take_lt : (n : ℕ) (xs : List ℕ) → n < length xs → length (take n xs) ≡ n
length-take_lt n xs h = omega (arith, length-take n xs)

-- Every proper prefix of the encoding of a well-formed frame is refused as incomplete: as an
-- incomplete header below 8 bytes, as an incomplete frame from there on.
pub decode_truncated :
    (f : BindFrame) (n : ℕ)
    → IsWellFormed f
    → n < length (encode f)
    → decode (take n (encode f)) ≡ err (if ltb n 8 then incomplete_header else incomplete_frame)
decode_truncated f n w h = elim (Bool-cases (ltb n 8)) [
  | inl short ↦ rw short (
      decode_short prefix
        (gt→leb 8 _ (omega (arith, length-take_lt n (encode f) h, ltb→lt n 8 short))))
  | inr long ↦
      let far : 8 ≤ n = ground arith in
      rw (long, decode_long prefix (le→leb _ _ (omega (arith, length-prefix))))
        (rw (header_read far, length-prefix) (rw (cut_short)))
]
  where
    prefix : List ℕ
    prefix = take n (encode f)

    length-prefix : length prefix ≡ n
    length-prefix = length-take_lt n (encode f) h

    header_read : 8 ≤ n → read_header prefix ≡ f.header
    header_read far = rw (take-take 8 n (encode f) far) (encode_starts f w)

    cut_short : leb (total_frame_length f.header) n ≡ false
    cut_short = gt→leb _ _ (omega (arith, length-encode f w))

ok_inj : (f g : BindFrame) → ◌≡◌ {A = Result FrameError BindFrame} (ok f) (ok g) → f ≡ g
ok_inj f g e = cc

decoded-IsWellFormed :
    (buf : List ℕ) (f : BindFrame) → All IsU8 buf → decode buf ≡ ok f → IsWellFormed f
decoded-IsWellFormed buf f bytes e = elim (decode_total buf bytes) [
  | inl (er, refused) ↦ absurd (cc)
  | inr (g, read, w, fits) ↦ rw (ok_inj f g (sym e ∙ read)) w
]

-- A number for a part that is there.
abbrev pub flag : {A : Type 0} → ℕ → Option A → ℕ
flag n none = 0
flag n (some a) = n

-- A frame with the flags of its parts alone.
abbrev pub plain_flags : BindFrame → BindFrame
plain_flags f = record f { header = record (f.header) { flags = flag 8 f.pfp + flag 16 f.sap } }

present_flags_lem :
    (p : Option PfpHeader) (s : Option SapHeader) → present_flags p s ≡ flag 8 p + flag 16 s
present_flags_lem none none = refl
present_flags_lem none (some s) = refl
present_flags_lem (some p) none = refl
present_flags_lem (some p) (some s) = refl

-- Of any bytes that decode to a frame, `new` builds the same frame of its parts, with the flags of the
-- parts alone, unless it has a SAP and no PFP: such a frame, which `decode` lets through, `new` refuses.
pub received_rebuilt :
    (buf : List ℕ) (f : BindFrame)
    → All IsU8 buf
    → decode buf ≡ ok f
    → new f.header.frame_type f.header.channel_id f.header.sequence_id f.pfp f.sap f.payload
      ≡ (if is_some f.sap && not (is_some f.pfp) then err sap_without_pfp else ok (plain_flags f))
unfolding new
received_rebuilt buf f bytes e =
    let w = decoded-IsWellFormed buf f bytes e in
    let word : u32 (length f.payload) ≡ f.header.payload_length =
      omega (arith, w.payload_length, w.payload_fits) in
    rw
      (
        le→leb (length f.payload) max_payload_size w.payload_fits,
        present_flags_lem f.pfp f.sap,
        word,
      )
      (elim (Bool-cases (is_some f.sap && not (is_some f.pfp))) [
        | inl lone ↦ rw lone refl
        | inr whole ↦ rw whole refl
      ])
