-- ===== src/Frame/Bytes.antt =====
-- What `BindFrame::encode` of src/frame.rs writes are bytes.
use bind.Common.{arith, Option, none, some, All, All-append}
use bind.Common.Bytes.{IsU8}
use bind.Pfp.{PfpHeader}
use bind.Pfp.Codec as PfpCodec
use bind.Sap.{SapHeader}
use bind.Sap.Codec as SapCodec
use bind.Frame.{BindFrame, encode, encode_pfp, encode_sap}
use bind.Frame.Header.{encode_header}
use bind.Frame.WellFormed.{IsWellFormed}

-- The hash and the signature of an optional SAP are bytes.
abbrev pub IsByteSap : Option SapHeader → Type 0
IsByteSap none = Unit
IsByteSap (some s) = All IsU8 s.pah_hash × All IsU8 s.pah_signature

encode_header-IsU8 : (f : BindFrame) → IsWellFormed f → All IsU8 (encode_header f.header)
unfolding encode_header
encode_header-IsU8 f w = (
  w.frame_type.byte,
  (
    w.channel,
    (w.flags, (w.sequence, (omega arith, (omega arith, (omega arith, (omega arith, tt)))))),
  ),
)

encode_pfp-IsU8 : (p : Option PfpHeader) → All IsU8 (encode_pfp p)
encode_pfp-IsU8 none = tt
encode_pfp-IsU8 (some p) = (PfpCodec.encode-IsU8 p).0

encode_sap-IsU8 : (s : Option SapHeader) → IsByteSap s → All IsU8 (encode_sap s)
encode_sap-IsU8 none h = tt
encode_sap-IsU8 (some s) (h, k) = SapCodec.sap_encode-IsU8 s h k

-- The encoding of a well-formed frame whose SAP and payload hold bytes holds bytes.
pub frame_encode-IsU8 :
    (f : BindFrame) → IsWellFormed f → IsByteSap f.sap → All IsU8 f.payload → All IsU8 (encode f)
unfolding encode
frame_encode-IsU8 f w sap payload = All-append IsU8 _ _ (encode_header-IsU8 f w) (
    All-append IsU8 _ _ (encode_pfp-IsU8 f.pfp)
      (All-append IsU8 _ _ (encode_sap-IsU8 f.sap sap) payload))
