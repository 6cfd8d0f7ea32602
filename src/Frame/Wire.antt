-- ===== src/Frame/Wire.antt =====
-- What a receiver of src/frame.rs can tell of the frames that were sent: frames up to the bits that are
-- not sent, as a quotient, and streams of frames one after another.
use bind.Common.{
  ℕ, ◌%◌, ◌≡◌, ◌↔◌, refl, sym, ap, ◌∙◌, arith, Option, none, some, List, [], ◌++◌, bit_and, Result,
  ok,
}
use bind.Common.Bits.{low_nibble}
use mathlib.Core.List.{append_cancel_left}
use mathlib.Core.Quot
use mathlib.Core.Quot.{Quot, Quot-set}
use bind.Pfp
use bind.Pfp.{PfpHeader}
use bind.Sap
use bind.Sap.{SapHeader}
use bind.Frame.{BindFrame, FrameError, encode, decode, encode_pfp, encode_sap}
use bind.Frame.WellFormed.{IsWellFormed}
use bind.Frame.RoundTrip.{canonical, clear_reserved, cut_version, decode-encode}

ok_value : {A : Type 0} → A → Result FrameError A → A
ok_value a (ok b) = b
ok_value a _ = a

ok_inj : {A : Type 0} (a b : A) → ◌≡◌ {A = Result FrameError A} (ok a) (ok b) → a ≡ b
unfolding ok_value
ok_inj a b e = ap (ok_value a) e

version_cut : (v : ℕ) → bit_and (v % 16) 15 ≡ bit_and v 15
version_cut v = low_nibble (v % 16) ∙ omega (arith, low_nibble v)

encode_pfp-clear : (p : Option PfpHeader) → encode_pfp (clear_reserved p) ≡ encode_pfp p
unfolding Pfp.encode
encode_pfp-clear none = refl
encode_pfp-clear (some p) = refl

encode_sap-cut : (s : Option SapHeader) → encode_sap (cut_version s) ≡ encode_sap s
unfolding Sap.encode
encode_sap-cut none = refl
encode_sap-cut (some s) = rw (version_cut s.sap_version)

encode-canonical : (f : BindFrame) → encode (canonical f) ≡ encode f
unfolding encode
encode-canonical f = rw (encode_pfp-clear f.pfp, encode_sap-cut f.sap)

pub encode-≡ : (f g : BindFrame) → canonical f ≡ canonical g → encode f ≡ encode g
encode-≡ f g e = sym (encode-canonical f) ∙ ap encode e ∙ encode-canonical g

-- In a stream of bytes that begins with the encoding of a well-formed frame, the frame, up to the bits
-- that are not sent, its bytes and what follows them are determined: no encoding is a proper prefix
-- of another one.
pub encode_prefix_free :
    (f g : BindFrame) (xs ys : List ℕ)
    → IsWellFormed f
    → IsWellFormed g
    → encode f ++ xs ≡ encode g ++ ys
    → (canonical f ≡ canonical g) × (encode f ≡ encode g) × (xs ≡ ys)
encode_prefix_free f g xs ys w v e =
    let same : canonical f ≡ canonical g =
      ok_inj _ _ (sym (decode-encode f xs w) ∙ ap decode e ∙ decode-encode g ys v) in
    let bytes = encode-≡ f g same in
    (same, bytes, append_cancel_left (encode g) xs ys (ap (λ b. b ++ xs) (sym bytes) ∙ e))

-- A well-formed frame, as a sender holds it.
abbrev pub Sent : Type 0
Sent = (f : BindFrame) × IsWellFormed f

abbrev pub SameWire : Sent → Sent → Type 0
SameWire a b = canonical a.0 ≡ canonical b.0

-- What is on the wire: well-formed frames up to the bits that are not sent.
abbrev pub Wire : Type 0
Wire = Quot SameWire

unfoldable pub wire_bytes : Wire → List ℕ
wire_bytes = Quot.lift (hlevel) (λ a. encode a.0) (λ a b e. encode-≡ a.0 b.0 e)

unfoldable pub wire_frame : Wire → BindFrame
wire_frame = Quot.lift (hlevel) (λ a. canonical a.0) (λ a b e. e)

-- The encodings of two well-formed frames are equal just if the frames are equal up to the bits that
-- are not sent, and `decode` reads each of them back, whatever follows.
pub wire_faithful :
    (v w : Wire) (rest : List ℕ)
    → ((wire_bytes v ≡ wire_bytes w) ↔ (v ≡ w))
      × (decode (wire_bytes v ++ rest) ≡ ok (wire_frame v))
unfolding wire_bytes wire_frame
wire_faithful v w rest = ((faithful v w, ap wire_bytes), read v)
  where
    read : (x : Wire) → decode (wire_bytes x ++ rest) ≡ ok (wire_frame x)
    read = Quot.ind (λ x. hlevel) (λ a. decode-encode a.0 rest a.1)

    faithful : (x y : Wire) → wire_bytes x ≡ wire_bytes y → x ≡ y
    faithful =
        Quot.ind (λ x. hlevel (Quot-set {r = SameWire}))
          λ a.
            Quot.ind (λ y. hlevel (Quot-set {r = SameWire}))
              λ b e. Quot.sound (encode_prefix_free a.0 b.0 [] [] a.1 b.1 (ap (λ z. z ++ []) e)).0
