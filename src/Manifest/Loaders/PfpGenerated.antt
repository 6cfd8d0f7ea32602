-- ===== src/Manifest/Loaders/PfpGenerated.antt =====
-- What tests/vector_pfp_codec.rs reads of what `generate_pfp_vectors` of
-- examples/generate_test_vectors.rs writes.
use bind.Common.{ℕ, ◌≡◌, refl, ◌∙◌, arith, some, length, List, [], ◌∷◌, ◌++◌, map, All, ok}
use bind.Common.Bytes.{bytes_eq_self}
use bind.Config.{codes}
use bind.Pfp
use bind.Vectors.Hex.{hex}
use bind.Vectors.Encoded.{PfpCase, case_header, pfp_vector}
use bind.Manifest.Loaders.Loads.{loaded_pass}
use bind.Manifest.Loaders.Names.{declared_input}
use bind.Manifest.Loaders.PfpVectors.{encode_vector_lem, checked-All, come_back}
use bind.Manifest.Loaders.Pfp.{
  Vector, check_encoding, check_round_trip, encode_as_declared, round_trip,
}

-- The object that `generate_pfp_vectors` makes of a case with a name, as the loader reads it.
abbrev pub generated : List ℕ × PfpCase → Vector
generated (name, c) = record {
  id = codes "pfp-" ++ name;
  input = declared_input c;
  expected = record {
    encoded_hex = (pfp_vector c).encoded_hex;
    encoded_bytes = (pfp_vector c).encoded_bytes;
    size = (pfp_vector c).size;
    family_magic = codes "0xCF14";
  };
}

case_passes : (c : List ℕ × PfpCase) → check_encoding (generated c) ≡ ok tt
unfolding check_encoding Pfp.encode
case_passes (name, c) =
    let bytes = Pfp.encode (case_header c) in
    rw
      (
        encode_vector_lem (generated (name, c)) c refl,
        bytes_eq_self bytes,
        bytes_eq_self (hex bytes),
      )
      refl

cases_pass : (cs : List (List ℕ × PfpCase)) → All (λ v. check_encoding v ≡ ok tt) (map generated cs)
cases_pass [] = tt
cases_pass (c ∷ cs) = (case_passes c, cases_pass cs)

length-generated : (cs : List (List ℕ × PfpCase)) → length (map generated cs) ≡ length cs
length-generated [] = refl
length-generated (c ∷ cs) = omega (arith, length-generated cs)

-- Both tests pass for the five vectors that the generator makes, of any five cases.
pub pfp_generated_pass :
    (cs : List (List ℕ × PfpCase))
    → length cs ≡ 5
    → let json = some (map some (map generated cs)) in
      (encode_as_declared json ≡ ok tt) × (round_trip json ≡ ok tt)
pfp_generated_pass cs five =
    let vs = map generated cs in
    let count = length-generated cs ∙ five in
    let passes = cases_pass cs in
    (
      loaded_pass check_encoding vs count passes,
      loaded_pass check_round_trip vs count (come_back vs (checked-All vs passes)),
    )
