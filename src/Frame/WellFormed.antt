-- ===== src/Frame/WellFormed.antt =====
-- Well-formed frames of src/frame.rs, and what `BindFrame::new` returns.
use bind.Common.{
  ℕ, ◌≤◌, ◌<◌, ◌≡◌, refl, arith, Bool, true, false, not, ◌&&◌, Option, none, some, List, length,
  is_some, ok, err, leb, inl, inr, Result, ◌⊎◌, ◌↔◌, ensure, ◌>>◌,
}
use bind.Common.Bytes.{IsU8, u32}
use bind.Pfp.{PfpHeader, has_bit}
use bind.Sap
use bind.Sap.{SapHeader}
use bind.Frame.{BindFrame, FrameError, buffer_overflow, sap_without_pfp, present_flags, new}
use bind.Frame.Header.{
  FrameType, new_header, max_payload_size, from_byte, to_byte, has_pfp, has_sap,
}

-- A frame type that some byte stands for.
pub record IsCanonical (t : FrameType) : Type 0 where
  pub byte : IsU8 (to_byte t)
  pub same : from_byte (to_byte t) ≡ t

-- What the Rust types give for an optional SAP.
abbrev pub IsValidSap : Option SapHeader → Type 0
IsValidSap none = Unit
IsValidSap (some s) = Sap.IsValid s

-- The flags, the optional parts and the payload length of the header agree with the frame, and every
-- field has the range of its Rust type.
pub record IsWellFormed (f : BindFrame) : Type 0 where
  pub frame_type : IsCanonical f.header.frame_type
  pub channel : IsU8 f.header.channel_id
  pub flags : IsU8 f.header.flags
  pub sequence : IsU8 f.header.sequence_id
  pub pfp_present : has_pfp f.header ≡ is_some f.pfp
  pub sap_present : has_sap f.header ≡ is_some f.sap
  pub sap_valid : IsValidSap f.sap
  pub payload_length : f.header.payload_length ≡ length f.payload
  pub payload_fits : length f.payload ≤ max_payload_size

-- `from_byte` and `to_byte` are inverse on bytes.
pub to_byte-from_byte : (b : ℕ) → to_byte (from_byte b) ≡ b
unfolding to_byte from_byte
to_byte-from_byte b = ground arith

pub from_byte-IsCanonical : (b : ℕ) → IsU8 b → IsCanonical (from_byte b)
from_byte-IsCanonical b h = record {
  byte = rw (to_byte-from_byte b) h;
  same = rw (to_byte-from_byte b);
}

-- The flags that `new` sets are read back, and they are one byte.
flags_lem :
    (pfp : Option PfpHeader) (sap : Option SapHeader)
    → (has_bit (present_flags pfp sap) 8 ≡ is_some pfp)
      × (has_bit (present_flags pfp sap) 16 ≡ is_some sap)
      × (present_flags pfp sap < 256)
flags_lem none none = (refl, refl, omega arith)
flags_lem none (some s) = (refl, refl, omega arith)
flags_lem (some p) none = (refl, refl, omega arith)
flags_lem (some p) (some s) = (refl, refl, omega arith)

-- The frame that a successful `new` builds.
abbrev pub built : FrameType → ℕ → ℕ → Option PfpHeader → Option SapHeader → List ℕ → BindFrame
built t channel seq pfp sap payload = record {
  header = new_header t channel (present_flags pfp sap) seq (u32 (length payload));
  pfp = pfp;
  sap = sap;
  payload = payload;
}

new_ok :
    (t : FrameType) (channel seq : ℕ) (pfp : Option PfpHeader) (sap : Option SapHeader)
    (payload : List ℕ) (f : BindFrame)
    → new t channel seq pfp sap payload ≡ ok f
    → (f ≡ built t channel seq pfp sap payload)
      × (length payload ≤ max_payload_size)
      × (is_some sap && not (is_some pfp) ≡ false)
unfolding new
new_ok t channel seq pfp sap payload f e = ground arith

pub built-IsWellFormed :
    (t : FrameType) (channel seq : ℕ) (pfp : Option PfpHeader) (sap : Option SapHeader)
    (payload : List ℕ)
    → IsCanonical t
    → IsU8 channel
    → IsU8 seq
    → IsValidSap sap
    → length payload ≤ max_payload_size
    → IsWellFormed (built t channel seq pfp sap payload)
unfolding has_pfp has_sap
built-IsWellFormed t channel seq pfp sap payload ht hc hs hsap fits =
    let (p, s, small) = flags_lem pfp sap in
    record {
      frame_type = ht;
      channel = hc;
      flags = small;
      sequence = hs;
      pfp_present = p;
      sap_present = s;
      sap_valid = hsap;
      payload_length = omega arith;
      payload_fits = fits;
    }

-- Every frame that `new` returns, given a frame type that a byte stands for, byte-sized numbers and
-- a SAP of its Rust type, is well formed, holds the optional headers and the payload that it was
-- given, and has no SAP without a PFP.
pub new-IsWellFormed :
    (t : FrameType) (channel seq : ℕ) (pfp : Option PfpHeader) (sap : Option SapHeader)
    (payload : List ℕ) (f : BindFrame)
    → IsCanonical t
    → IsU8 channel
    → IsU8 seq
    → IsValidSap sap
    → new t channel seq pfp sap payload ≡ ok f
    → IsWellFormed f
      × (f.pfp ≡ pfp)
      × (f.sap ≡ sap)
      × (f.payload ≡ payload)
      × (is_some f.sap && not (is_some f.pfp) ≡ false)
new-IsWellFormed t channel seq pfp sap payload f ht hc hs hsap e =
    let (eq, fits, paired) = new_ok t channel seq pfp sap payload f e in
    rw eq (
      built-IsWellFormed t channel seq pfp sap payload ht hc hs hsap fits,
      refl,
      refl,
      refl,
      paired,
    )

-- `new` answers `buffer_overflow` exactly when the payload passes 64 MB, it answers `sap_without_pfp`
-- exactly when the payload fits and there is a SAP but no PFP, and otherwise it returns a frame.
pub new_errors :
    (t : FrameType) (channel seq : ℕ) (pfp : Option PfpHeader) (sap : Option SapHeader)
    (payload : List ℕ)
    → ((new t channel seq pfp sap payload ≡ err buffer_overflow)
        ↔ (max_payload_size < length payload))
      × ((new t channel seq pfp sap payload ≡ err sap_without_pfp)
          ↔ ((length payload ≤ max_payload_size) × (is_some sap ≡ true) × (is_some pfp ≡ false)))
      × ((new t channel seq pfp sap payload ≡ err buffer_overflow)
          ⊎ ((new t channel seq pfp sap payload ≡ err sap_without_pfp)
              ⊎ ((f : BindFrame) × (new t channel seq pfp sap payload ≡ ok f))))
unfolding new
new_errors t channel seq pfp sap payload = (
  (λ e. ground arith, λ h. ground arith),
  (λ e. ground arith, λ h. ground arith),
  new_cases (leb (length payload) max_payload_size) pfp sap,
)
  where
    new_cases :
        (fits : Bool) (p : Option PfpHeader) (s : Option SapHeader)
        → let r : Result FrameError BindFrame = (do
          ensure fits buffer_overflow
          ensure (not (is_some s && not (is_some p))) sap_without_pfp
          ok (built t channel seq p s payload)) in
          (r ≡ err buffer_overflow) ⊎ ((r ≡ err sap_without_pfp) ⊎ ((f : BindFrame) × (r ≡ ok f)))
    new_cases false p s = inl refl
    new_cases true none (some s) = inr (inl refl)
    new_cases true none none = inr (inr (_, refl))
    new_cases true (some p) none = inr (inr (_, refl))
    new_cases true (some p) (some s) = inr (inr (_, refl))
