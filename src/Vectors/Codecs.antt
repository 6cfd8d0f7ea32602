-- ===== src/Vectors/Codecs.antt =====
-- What the codec vectors of examples/generate_test_vectors.rs say is what the codecs do.
use bind.Common.{ℕ, ◌≡◌, refl, ◌∙◌, arith, Bool, true, ◌&&◌, some, List, All, length}
use bind.Common.Bytes.{IsU8, IsU16}
use bind.Pfp
use bind.Pfp.{PfpHeader}
use bind.Pfp.Codec.{pfp_decode-encode, encode-IsU8}
use bind.Pfp.Enums.{executive, moving, critical_edge, external, is_catastrophic, is_hard_override}
use bind.Sap
use bind.Sap.{SapHeader}
use bind.Sap.Codec as SapCodec
use bind.Catastrophic.{is_catastrophic_override}
use bind.Catastrophic.Manager.{override-encode}
use bind.Vectors.Hex.{unhex, unhex-hex}
use bind.Vectors.Encoded.{PfpCase, case_header, pfp_vector, sap_vector}
use bind.Vectors.Answers.{catastrophic_vector, catastrophic_manager_local}

-- A PFP vector's text stands for its bytes, these are decoded to the header of its input, and they are
-- four; a CATASTROPHIC vector's actual answer is whether both its level and its flag are the highest.
pub pfp_vectors_lem :
    (c : PfpCase) (expected : Bool)
    → let v = pfp_vector c in
      (unhex v.encoded_hex ≡ some v.encoded_bytes)
      × (Pfp.decode v.encoded_bytes ≡ case_header c)
      × (v.size ≡ 4)
      × ((catastrophic_vector c.risk c.override_flag expected).actual
          ≡ is_catastrophic c.risk && is_hard_override c.override_flag)
pfp_vectors_lem c expected = (
  (unhex-hex _ (encode-IsU8 (case_header c)).0).0,
  pfp_decode-encode (case_header c),
  unfold Pfp.encode in refl,
  agrees
      ∙ override-encode
          (Pfp.new executive c.risk moving critical_edge external c.override_flag true)
      ∙ unfold Pfp.is_catastrophic_override in refl,
)
  where
    agrees :
        let encoded =
          Pfp.encode
            (Pfp.new executive c.risk moving critical_edge external c.override_flag true) in
        catastrophic_manager_local encoded ≡ is_catastrophic_override encoded
    agrees = unfold catastrophic_manager_local is_catastrophic_override in refl

-- A SAP vector's texts stand for its hash, its signature and its bytes, these are decoded to its
-- header, and they are 28, if its fields are in the range of their types.
pub sap_vectors_lem :
    (seq : ℕ) (hash sig : List ℕ)
    → IsU16 seq
    → All IsU8 hash
    → All IsU8 sig
    → length hash ≡ 14
    → length sig ≡ 8
    → let v = sap_vector seq hash sig in
      (unhex v.pah_hash_hex ≡ some hash)
      × (unhex v.pah_signature_hex ≡ some sig)
      × (unhex v.encoded_hex ≡ some v.encoded_bytes)
      × (Sap.decode v.encoded_bytes ≡ Sap.new seq hash sig)
      × (v.size ≡ 28)
sap_vectors_lem seq hash sig word h k l m =
    let s = Sap.new seq hash sig in
    let valid : Sap.IsValid s = record {
      version_byte = omega arith;
      seq_word = word;
      hash_length = l;
      signature_length = m;
    } in
    (
      (unhex-hex hash h).0,
      (unhex-hex sig k).0,
      (unhex-hex _ (SapCodec.sap_encode-IsU8 s h k)).0,
      SapCodec.sap_decode-encode s valid,
      SapCodec.length-encode s valid,
    )
