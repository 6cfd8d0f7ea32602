-- ===== src/Vectors/Encoded.antt =====
-- examples/generate_test_vectors.rs: the vectors of the encodings of PFP, SAP and frame.
use bind.Common.{
  unwrap, ◌>>=◌, ℕ, Bool, true, false, Option, none, some, is_some, List, [], ◌∷◌, map, length,
  replicate, if◌then◌else◌, Result, ok,
}
use bind.Pfp
use bind.Pfp.{PfpHeader}
use bind.Pfp.Enums.{
  Modality, RiskLevel, BodyStance, ProximityEdge, OutputDest, OverrideFlag, cognitive, render,
  sensor_feed, executive, low, medium, critical, catastrophic, unknown, standing, moving, seated,
  safe, warning, danger, critical_edge, internal, external, normal, hard_override,
}
use bind.Sap
use bind.Sap.{SapHeader}
use bind.Frame
use bind.Frame.{BindFrame, FrameError}
use bind.Frame.Header.{frame_data}
use bind.Rotation.{rotation_threshold}
use bind.Vectors.Hex.{hex}

pub record PfpCase : Type 0 where
  pub modality : Modality
  pub risk : RiskLevel
  pub stance : BodyStance
  pub edge : ProximityEdge
  pub dest : OutputDest
  pub override_flag : OverrideFlag
  pub replay_enable : Bool

pub record PfpVector : Type 0 where
  pub input : PfpCase
  pub encoded_hex : List ℕ
  pub encoded_bytes : List ℕ
  pub size : ℕ

abbrev pub case_header : PfpCase → PfpHeader
case_header c = Pfp.new c.modality c.risk c.stance c.edge c.dest c.override_flag c.replay_enable

-- The closure of `generate_pfp_vectors`.
abbrev pub pfp_vector : PfpCase → PfpVector
pfp_vector c = record {
  input = c;
  encoded_hex = hex (Pfp.encode (case_header c));
  encoded_bytes = Pfp.encode (case_header c);
  size = length (Pfp.encode (case_header c));
}

abbrev pfp_case :
    Modality → RiskLevel → BodyStance → ProximityEdge → OutputDest → OverrideFlag → Bool → PfpCase
pfp_case m r s e d o replay = record {
  modality = m;
  risk = r;
  stance = s;
  edge = e;
  dest = d;
  override_flag = o;
  replay_enable = replay;
}

-- `generate_pfp_vectors`
abbrev pub generate_pfp_vectors : List PfpVector
generate_pfp_vectors = map pfp_vector (
    pfp_case cognitive low unknown safe internal normal false
    ∷ pfp_case sensor_feed catastrophic moving critical_edge external hard_override true
    ∷ pfp_case executive medium standing warning external normal true
    ∷ pfp_case cognitive low seated safe internal normal true
    ∷ pfp_case render critical moving danger external normal true
    ∷ [])

pub record SapVector : Type 0 where
  pub seq_counter : ℕ
  pub pah_hash_hex : List ℕ
  pub pah_signature_hex : List ℕ
  pub encoded_hex : List ℕ
  pub encoded_bytes : List ℕ
  pub size : ℕ

-- The closure of `generate_sap_vectors`.
abbrev pub sap_vector : ℕ → List ℕ → List ℕ → SapVector
sap_vector seq pah_hash pah_sig = record {
  seq_counter = seq;
  pah_hash_hex = hex pah_hash;
  pah_signature_hex = hex pah_sig;
  encoded_hex = hex (Sap.encode (Sap.new seq pah_hash pah_sig));
  encoded_bytes = Sap.encode (Sap.new seq pah_hash pah_sig);
  size = length (Sap.encode (Sap.new seq pah_hash pah_sig));
}

-- `generate_sap_vectors`
abbrev pub generate_sap_vectors : List SapVector
generate_sap_vectors =
    sap_vector 0 (replicate 14 0) (replicate 8 0)
    ∷ sap_vector 65535 (replicate 14 0xFF) (replicate 8 0xFF)
    ∷ sap_vector 42 (replicate 14 0xAB) (replicate 8 0xCD)
    ∷ sap_vector rotation_threshold (replicate 14 0x11) (replicate 8 0x22)
    ∷ sap_vector 1000 (replicate 14 0xDE) (replicate 8 0xAD)
    ∷ []

pub record FrameVector : Type 0 where
  pub has_pfp : Bool
  pub has_sap : Bool
  pub encoded_hex : List ℕ
  pub total_size : ℕ
  pub header_size : ℕ
  pub pfp_size : ℕ
  pub sap_size : ℕ
  pub payload_size : ℕ

-- The end of the closure of `generate_frame_vectors`, after `unwrap`.
abbrev pub describe_frame : Option PfpHeader → Option SapHeader → List ℕ → BindFrame → FrameVector
describe_frame p s payload frame = record {
  has_pfp = is_some p;
  has_sap = is_some s;
  encoded_hex = hex (Frame.encode frame);
  total_size = length (Frame.encode frame);
  header_size = 8;
  pfp_size = if is_some p then 4 else 0;
  sap_size = if is_some s then 28 else 0;
  payload_size = length payload;
}

-- The closure of `generate_frame_vectors`.
unfoldable pub frame_vector :
    Option PfpHeader → Option SapHeader → List ℕ → Result FrameError FrameVector
frame_vector p s payload = do
  frame ← unwrap (Frame.new frame_data 1 0 p s payload)
  ok (describe_frame p s payload frame)

abbrev pub FrameCase : Type 0
FrameCase = Option PfpHeader × Option SapHeader × List ℕ

-- The closure of `generate_frame_vectors` over its cases; `unwrap` ends the run.
abbrev pub frame_vectors : List FrameCase → Result FrameError (List FrameVector)
frame_vectors [] = ok []
frame_vectors ((p, s, payload) ∷ cases) = do
  v ← frame_vector p s payload
  vs ← frame_vectors cases
  ok (v ∷ vs)

-- The `cases` of `generate_frame_vectors`.
abbrev pub frame_cases : List FrameCase
frame_cases =
    let pfp = Pfp.new executive medium moving warning external normal true in
    let sap = Sap.new 42 (replicate 14 0xAB) (replicate 8 0xCD) in
    (none, none, [])
    ∷ (some pfp, none, [])
    ∷ (some pfp, some sap, [])
    ∷ (some pfp, some sap, replicate 64 0xEE)
    ∷ (some pfp, some sap, replicate 1024 0xFF)
    ∷ []

-- `generate_frame_vectors`
abbrev pub generate_frame_vectors : Result FrameError (List FrameVector)
generate_frame_vectors = frame_vectors frame_cases
