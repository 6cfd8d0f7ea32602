-- ===== src/Frame.antt =====
-- src/frame.rs: the frame, an 8-byte header, an optional PFP, an optional SAP and the payload.
-- `usize` has 64 bits: the sums of lengths below stay under 2 ^ 33, so they are sums of numbers.
pub mod Header
pub mod WellFormed
pub mod RoundTrip
pub mod Wire
pub mod Bytes
pub mod Steps
pub mod Decode
pub mod Reject
pub mod Display
mod Examples
mod UnitTests
use bind.Common.{
  ℕ, ◌+◌, bit_or, Bool, true, false, not, ◌&&◌, Option, none, some, List, [], ◌∷◌, ◌++◌, leb, ltb,
  if◌then◌else◌, is_some, length, slice, Result, ok, err, panic, ◌>>=◌, ◌>>◌, ensure, or_panic,
}
use bind.Common.Bytes.{u32}
use bind.Pfp
use bind.Pfp.{PfpHeader, pfp_size}
use bind.Pfp.Enums.{RiskLevel}
use bind.Sap
use bind.Sap.{SapHeader, sap_size}
use bind.Config.{BindConfig, rule6_enabled, global}
use Header.{
  FrameType, BindHeader, new_header, header_size, max_payload_size, flag_pfp_present,
  flag_sap_present, encode_header, decode_header, has_pfp, has_sap, extension_length,
}

pub data FrameError : Type 0 where
  incomplete_header incomplete_frame buffer_overflow sap_without_pfp : FrameError
  invalid_pfp_magic invalid_sap_magic invalid_sap_protocol_id : FrameError

pub record BindFrame : Type 0 where
  pub header : BindHeader
  pub pfp : Option PfpHeader
  pub sap : Option SapHeader
  pub payload : List ℕ

-- The flags that `BindFrame::new` sets.
abbrev pub present_flags : Option PfpHeader → Option SapHeader → ℕ
present_flags pfp sap =
    let flags : ℕ = if is_some pfp then bit_or 0 flag_pfp_present else 0 in
    if is_some sap then bit_or flags flag_sap_present else flags

-- `BindFrame::new`
unfoldable pub new :
    FrameType → ℕ → ℕ → Option PfpHeader → Option SapHeader → List ℕ → Result FrameError BindFrame
new t channel seq pfp sap payload = do
  ensure (leb (length payload) max_payload_size) buffer_overflow
  ensure (not (is_some sap && not (is_some pfp))) sap_without_pfp
  ok (record {
    header = new_header t channel (present_flags pfp sap) seq (u32 (length payload));
    pfp = pfp;
    sap = sap;
    payload = payload;
  })

-- `BindFrame::new_v1`
unfoldable pub new_v1 : FrameType → ℕ → ℕ → List ℕ → Result FrameError BindFrame
unfolding new
new_v1 t channel seq payload = new t channel seq none none payload

abbrev pub encode_pfp : Option PfpHeader → List ℕ
encode_pfp none = []
encode_pfp (some p) = Pfp.encode p

abbrev pub encode_sap : Option SapHeader → List ℕ
encode_sap none = []
encode_sap (some s) = Sap.encode s

-- `BindFrame::encode`
unfoldable pub encode : BindFrame → List ℕ
encode f = encode_header f.header ++ (encode_pfp f.pfp ++ (encode_sap f.sap ++ f.payload))

-- The optional PFP of `BindFrame::decode`, and the offset after it.
unfoldable pub decode_pfp : BindHeader → List ℕ → ℕ → Result FrameError (Option PfpHeader × ℕ)
decode_pfp header buf offset =
    if has_pfp header
    then (do
      pfp_bytes ← or_panic (slice buf offset (offset + pfp_size))
      ensure (Pfp.verify_magic pfp_bytes) invalid_pfp_magic
      ok (some (Pfp.decode pfp_bytes), offset + pfp_size))
    else ok (none, offset)

-- The optional SAP of `BindFrame::decode`, and the offset after it.
unfoldable pub decode_sap : BindHeader → List ℕ → ℕ → Result FrameError (Option SapHeader × ℕ)
decode_sap header buf offset =
    if has_sap header
    then (do
      sap_bytes ← or_panic (slice buf offset (offset + sap_size))
      ensure (Sap.verify_magic sap_bytes) invalid_sap_magic
      ensure (Sap.verify_protocol_id sap_bytes) invalid_sap_protocol_id
      ok (some (Sap.decode sap_bytes), offset + sap_size))
    else ok (none, offset)

-- `BindFrame::decode` after the header and the two length tests.
unfoldable pub decode_body : BindHeader → List ℕ → Result FrameError BindFrame
decode_body header buf = do
  (pfp, offset) ← decode_pfp header buf header_size
  (sap, offset') ← decode_sap header buf offset
  payload ← or_panic (slice buf offset' (offset' + header.payload_length))
  ok (record { header = header; pfp = pfp; sap = sap; payload = payload })

-- `BindFrame::decode`
unfoldable pub decode : List ℕ → Result FrameError BindFrame
decode buf = do
  ensure (leb header_size (length buf)) incomplete_header
  header_bytes ← or_panic (slice buf 0 header_size)
  let header = decode_header header_bytes
  let total_needed = header_size + extension_length header + header.payload_length
  ensure (leb total_needed (length buf)) incomplete_frame
  ensure (leb header.payload_length max_payload_size) buffer_overflow
  decode_body header buf

-- `BindFrame::is_v1_compatible`
unfoldable pub is_v1_compatible : BindFrame → Bool
is_v1_compatible f = not (is_some f.pfp) && not (is_some f.sap)

abbrev pub risk_of : BindConfig → Option PfpHeader → Option RiskLevel
risk_of config none = none
risk_of config (some p) =
    if rule6_enabled config then some (Pfp.effective_risk_level p) else some p.risk_level

-- `BindFrame::effective_risk_level_with_config`
unfoldable pub effective_risk_level_with_config : BindFrame → BindConfig → Option RiskLevel
effective_risk_level_with_config f config = risk_of config f.pfp

-- `BindFrame::effective_risk_level`, with the environment and the `OnceLock` of the configuration.
unfoldable pub effective_risk_level :
    BindFrame → Option (List ℕ) → Option BindConfig → Option RiskLevel
effective_risk_level f env lock = effective_risk_level_with_config f (global env lock).0

abbrev pub override_of : Option PfpHeader → Bool
override_of none = false
override_of (some p) = Pfp.is_catastrophic_override p

-- `BindFrame::is_catastrophic_override`
unfoldable pub is_catastrophic_override : BindFrame → Bool
is_catastrophic_override f = override_of f.pfp

abbrev pub replay_disabled_of : Option PfpHeader → Bool
replay_disabled_of none = false
replay_disabled_of (some p) = not p.replay_enable

-- `BindFrame::is_replay_disabled`
unfoldable pub is_replay_disabled : BindFrame → Bool
is_replay_disabled f = replay_disabled_of f.pfp
