-- ===== src/Tuck/Wire.antt =====
-- The gate of examples/tuck_integration.rs at the end of a wire of src/frame.rs.
use bind.Common.{ℕ, ◌≡◌, refl, Option, none, some, List, ◌++◌, ok}
use bind.Pfp
use bind.Pfp.{PfpHeader}
use bind.Sap.{SapHeader}
use bind.Frame
use bind.Frame.{BindFrame}
use bind.Frame.Header.{BindHeader}
use bind.Frame.WellFormed.{IsWellFormed}
use bind.Frame.RoundTrip.{canonical, decode-encode}
use bind.ReplayCache.{ReplayMap}
use bind.Processor.{process_frame}
use bind.Tuck.{TuckGate, decide}

abbrev parts_frame : BindHeader → Option PfpHeader → Option SapHeader → List ℕ → BindFrame
parts_frame h p s payload = record { header = h; pfp = p; sap = s; payload = payload }

module _ {M : Type 0} (map : ReplayMap M) (sha256 : List ℕ → List ℕ) (source now : ℕ)
    (clock : ℕ × ℕ) (g : TuckGate M) where
  decide-parts_frame :
      (h : BindHeader) (p : Option PfpHeader) (s : Option SapHeader) (payload : List ℕ)
      → decide map sha256 (canonical (parts_frame h p s payload)) source now clock g
        ≡ decide map sha256 (parts_frame h p s payload) source now clock g
  unfolding decide process_frame Pfp.encode
  decide-parts_frame h none s payload = refl
  decide-parts_frame h (some p) none payload = refl
  decide-parts_frame h (some p) (some s) payload = refl

  -- A gate that decodes a well-formed frame from a stream decides it, and ends, as a gate that has the
  -- sender's own frame: the bits that are not sent make no difference, and neither does what follows.
  pub decide-decode :
      (f : BindFrame) (rest : List ℕ)
      → IsWellFormed f
      → (received : BindFrame) × (Frame.decode (Frame.encode f ++ rest) ≡ ok received)
        × (decide map sha256 received source now clock g ≡ decide map sha256 f source now clock g)
  decide-decode f rest w =
      (canonical f, decode-encode f rest w, decide-parts_frame f.header f.pfp f.sap f.payload)
