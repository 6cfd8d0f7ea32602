-- ===== src/Manifest/Loaders/PfpVectors.antt =====
-- What the tests of tests/vector_pfp_codec.rs show when they pass.
use bind.Common.{
  ℕ, zero, suc, ◌+◌, ◌&&◌, leb, ◌≡◌, refl, sym, ap, ◌∙◌, arith, Bool, true, false, Option, some,
  List, [], ◌∷◌, ◌++◌, map, length, ◌==◌, get_or, All, ==_iff, ok, if◌then◌else◌, Bool-cases, inl,
  inr,
}
use bind.Common.Bytes.{bytes_eq, bytes_eq→eq, bytes_eq_self}
use bind.Config.{codes}
use bind.Pfp
use bind.Pfp.Codec.{pfp_decode-encode, encode-IsU8, length-encode}
use bind.Pfp.Enums.{
  modality_to_bits, risk_level_to_bits, body_stance_to_bits, proximity_edge_to_bits,
  output_dest_to_bit, override_flag_to_bit,
}
use bind.Vectors.Hex.{hex, unhex, unhex-hex, digit_value}
use bind.Vectors.Encoded.{PfpCase, case_header}
use bind.Manifest.Passes.{same, assert_passes, assert_last, bind_passes}
use bind.Manifest.Loaders.Loads.{pass_loaded, loaded_pass}
use bind.Manifest.Loaders.Names.{
  declared_input, header_of-declared_input, header_of_read, named_modality, named_risk,
  named_stance, named_edge, named_dest, named_override,
}
use bind.Manifest.Loaders.Pfp.{
  Vector, header_of, encode_vector, trim_start_pair, to_lowercase, check_encoding,
  encode_as_declared, check_round_trip, round_trip, same_flag,
}

-- The encoding of a vector with the texts of a case is that of the header of the case.
pub encode_vector_lem :
    (v : Vector) (c : PfpCase)
    → v.input ≡ declared_input c
    → encode_vector v ≡ ok (Pfp.encode (case_header c))
unfolding encode_vector
encode_vector_lem v c e = rw (e, header_of-declared_input c) refl

same_flag_self : (b : Bool) → same_flag b b ≡ true
same_flag_self true = refl
same_flag_self false = refl

-- A vector with the texts of a case comes back from its encoding.
comes_back : (v : Vector) (c : PfpCase) → v.input ≡ declared_input c → check_round_trip v ≡ ok tt
unfolding check_round_trip
comes_back v c e =
    rw
      (
        encode_vector_lem v c e,
        pfp_decode-encode (case_header c),
        bytes_eq_self (Pfp.encode (case_header c)),
        e,
        named_modality c.modality,
        named_risk c.risk,
        named_stance c.stance,
        named_edge c.edge,
        named_dest c.dest,
        named_override c.override_flag,
        same (modality_to_bits c.modality),
        same (risk_level_to_bits c.risk),
        same (body_stance_to_bits c.stance),
        same (proximity_edge_to_bits c.edge),
        same_flag_self (output_dest_to_bit c.dest),
        same_flag_self (override_flag_to_bit c.override_flag),
        same_flag_self c.replay_enable,
      )
      refl

abbrev pub times : ℕ → List ℕ → List ℕ
times zero s = []
times (suc n) s = s ++ times n s

-- The family magic, in digits of either case, after any number of `0x` and then of `0X`.
pub record IsFamilyMagic (s : List ℕ) : Type 0 where
  pub small_prefixes : ℕ
  pub large_prefixes : ℕ
  pub digits : List ℕ
  pub parts : s ≡ times small_prefixes (codes "0x") ++ (times large_prefixes (codes "0X") ++ digits)
  pub magic : unhex digits ≡ some (0xCF ∷ 0x14 ∷ [])

trim_start_pair_lem :
    (a b : ℕ) (s : List ℕ) → (n : ℕ) × (s ≡ times n (a ∷ b ∷ []) ++ trim_start_pair a b s)
trim_start_pair_lem a b [] = (0, refl)
trim_start_pair_lem a b (c ∷ []) = (0, refl)
trim_start_pair_lem a b (c ∷ (d ∷ s)) = elim (Bool-cases (c == a && d == b)) [
  | inr other ↦ (0, rw other refl)
  | inl pair ↦
      let (n, e) = trim_start_pair_lem a b s in
      let is_a : c ≡ a = ground arith in
      let is_b : d ≡ b = ground arith in (suc n, rw pair (λ i. is_a i ∷ is_b i ∷ e i))
]

abbrev lower : ℕ → ℕ
lower c = if leb b'A' c && leb c b'Z' then c + 32 else c

digit_value-lower : (c d n : ℕ) → d ≡ lower c → digit_value d ≡ some n → digit_value c ≡ some n
digit_value-lower c d n e h = ground arith

digits_lem : (s : List ℕ) → codes "cf14" ≡ to_lowercase s → unhex s ≡ some (0xCF ∷ 0x14 ∷ [])
digits_lem [] h = cc
digits_lem (p ∷ []) h = cc
digits_lem (p ∷ (q ∷ [])) h = cc
digits_lem (p ∷ (q ∷ (r ∷ []))) h = cc
digits_lem (p ∷ (q ∷ (r ∷ (t ∷ (u ∷ s))))) h = cc
digits_lem (p ∷ (q ∷ (r ∷ (t ∷ [])))) h =
    rw
      (
        digit_value-lower p b'c' 12 (ap (λ s. get_or s 0 0) h) refl,
        digit_value-lower q b'f' 15 (ap (λ s. get_or s 1 0) h) refl,
        digit_value-lower r b'1' 1 (ap (λ s. get_or s 2 0) h) refl,
        digit_value-lower t b'4' 4 (ap (λ s. get_or s 3 0) h) refl,
      )
      refl

-- What a vector says is what the codec does.
pub record IsTrue (v : Vector) : Type 0 where
  pub pfp_case : PfpCase
  pub input : v.input ≡ declared_input pfp_case
  pub size : v.expected.size ≡ 4
  pub bytes : v.expected.encoded_bytes ≡ Pfp.encode (case_header pfp_case)
  pub text : unhex v.expected.encoded_hex ≡ some v.expected.encoded_bytes
  pub decoded : Pfp.decode v.expected.encoded_bytes ≡ case_header pfp_case
  pub family_magic : IsFamilyMagic v.expected.family_magic

magic_lem :
    (s : List ℕ)
    → codes "cf14" ≡ to_lowercase (trim_start_pair b'0' b'X' (trim_start_pair b'0' b'x' s))
    → IsFamilyMagic s
magic_lem s h =
    let (n, first) = trim_start_pair_lem b'0' b'x' s in
    let (m, second) = trim_start_pair_lem b'0' b'X' (trim_start_pair b'0' b'x' s) in
    record {
      small_prefixes = n;
      large_prefixes = m;
      digits = trim_start_pair b'0' b'X' (trim_start_pair b'0' b'x' s);
      parts = first ∙ ap (λ x. times n (codes "0x") ++ x) second;
      magic = digits_lem _ h;
    }

checked : (v : Vector) → check_encoding v ≡ ok tt → IsTrue v
unfolding check_encoding encode_vector Pfp.encode
checked v e =
    let (got, encoded, _) = bind_passes (encode_vector v) _ tt e in
    let (h, read, _) = bind_passes (header_of v.input) _ got encoded in
    let (c, input) = header_of_read v.input h read in
    let bytes = Pfp.encode (case_header c) in
    let (size, e1) =
      assert_passes (length bytes == v.expected.size) _ (rw (encode_vector_lem v c input) at e) in
    let (equal, e2) = assert_passes (bytes_eq bytes v.expected.encoded_bytes) _ e1 in
    let (equal_text, e3) = assert_passes (bytes_eq (hex bytes) v.expected.encoded_hex) _ e2 in
    let is_bytes = sym (bytes_eq→eq bytes v.expected.encoded_bytes equal) in
    let is_text = sym (bytes_eq→eq (hex bytes) v.expected.encoded_hex equal_text) in
    record {
      pfp_case = c;
      input = input;
      size = sym ((==_iff 4 v.expected.size).0 (rw (length-encode (case_header c)) at size));
      bytes = is_bytes;
      text =
          ap unhex is_text
          ∙ (unhex-hex bytes (encode-IsU8 (case_header c)).0).0
          ∙ ap some (sym is_bytes);
      decoded = ap Pfp.decode is_bytes ∙ pfp_decode-encode (case_header c);
      family_magic = magic_lem v.expected.family_magic (bytes_eq→eq _ _ (assert_last _ e3));
    }

pub checked-All : (vs : List Vector) → All (λ v. check_encoding v ≡ ok tt) vs → All IsTrue vs
checked-All [] h = tt
checked-All (v ∷ vs) (e, h) = (checked v e, checked-All vs h)

pub come_back : (vs : List Vector) → All IsTrue vs → All (λ v. check_round_trip v ≡ ok tt) vs
come_back [] h = tt
come_back (v ∷ vs) (t, h) = (comes_back v t.pfp_case t.input, come_back vs h)

-- If the test of the encodings passes, then the JSON is five vectors, and every vector has as its input
-- the names of the fields of some case, the size 4, as its bytes the encoding of the header of that
-- case, a text that stands for its bytes, bytes that are decoded to that header, and a family magic
-- that stands for the bytes 0xCF and 0x14, in digits of either case, with or without prefixes; and the
-- test of the round trips passes too.
pub pfp_loader_lem :
    (json : Option (List (Option Vector)))
    → encode_as_declared json ≡ ok tt
    → (vs : List Vector) × (json ≡ some (map some vs))
      × (length vs ≡ 5)
      × All IsTrue vs
      × (round_trip json ≡ ok tt)
pfp_loader_lem json e =
    let (vs, json_is, five, passes) = pass_loaded check_encoding json e in
    let true_vectors = checked-All vs passes in
    (
      vs,
      json_is,
      five,
      true_vectors,
      rw json_is (loaded_pass check_round_trip vs five (come_back vs true_vectors)),
    )
