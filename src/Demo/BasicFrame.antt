-- ===== src/Demo/BasicFrame.antt =====
-- examples/basic_frame.rs: frames with both headers, with none, and with the PFP alone.
use bind.Common.{
  ℕ, ◌+◌, ◌*◌, ◌>>=◌, true, none, some, List, replicate, take, get_or, Result, ok, unwrap,
}
use bind.Config.{codes}
use bind.Pfp
use bind.Pfp.{PfpHeader}
use bind.Pfp.Enums.{executive, medium, standing, warning, external, normal}
use bind.Sap
use bind.Sap.{SapHeader}
use bind.Frame
use bind.Frame.{BindFrame, FrameError}
use bind.Frame.Header.{frame_data}

-- The PFP and the SAP of the example.
abbrev pub example_pfp : PfpHeader
example_pfp = Pfp.new executive medium standing warning external normal true

abbrev pub example_sap : SapHeader
example_sap = Sap.new 42 (replicate 14 0xAB) (replicate 8 0xCD)

-- What `main` prints of its values.
pub record Printed : Type 0 where
  pub pfp_bytes : List ℕ
  pub family_magic : ℕ
  pub sap_bytes : List ℕ
  pub encoded : List ℕ
  pub decoded : BindFrame
  pub v1_encoded : List ℕ
  pub eco_encoded : List ℕ

-- `main`
unfoldable pub main : Result FrameError Printed
main = do
  let pfp_bytes = Pfp.encode example_pfp
  frame ←
      unwrap (
        Frame.new frame_data 1 0 (some example_pfp) (some example_sap)
          (codes "Hello, CI-144 v2.0!"))
  decoded ← unwrap (Frame.decode (Frame.encode frame))
  v1_frame ← unwrap (Frame.new frame_data 1 0 none none (codes "v1.0 compatible frame"))
  eco_frame ← unwrap (Frame.new frame_data 1 0 (some example_pfp) none (codes "eco mode frame"))
  ok (record {
    pfp_bytes = pfp_bytes;
    family_magic = get_or pfp_bytes 0 0 * 256 + get_or pfp_bytes 1 0;
    sap_bytes = take 8 (Sap.encode example_sap);
    encoded = Frame.encode frame;
    decoded = decoded;
    v1_encoded = Frame.encode v1_frame;
    eco_encoded = Frame.encode eco_frame;
  })
