-- ===== src/Manifest/Loaders/Generated.antt =====
-- The generator, examples/generate_test_vectors.rs, before the loaders, tests/vector_pfp_codec.rs and
-- tests/vector_sap_codec.rs.
use bind.Common.{ℕ, ◌≡◌, List, All, map, ok, some, length}
use bind.Vectors.Encoded.{PfpCase}
use bind.Manifest.Loaders.Pfp as PfpLoader
use bind.Manifest.Loaders.Sap as SapLoader
use bind.Manifest.Loaders.PfpGenerated as PfpGenerated
use bind.Manifest.Loaders.SapGenerated as SapGenerated
use bind.Manifest.Loaders.SapGenerated.{SapCase, IsInRange}

-- What the generator writes for any five PFP cases, and for any five SAP cases whose fields are in the
-- range of their types, passes the four tests of the loaders that compare the encodings and that
-- decode them, each with its loading of exactly five vectors.
pub generated_pass :
    (ps : List (List ℕ × PfpCase)) (ss : List SapCase)
    → length ps ≡ 5
    → length ss ≡ 5
    → All IsInRange ss
    → let pfp_json = some (map some (map PfpGenerated.generated ps)) in
      let sap_json = some (map some (map SapGenerated.generated ss)) in
      (PfpLoader.encode_as_declared pfp_json ≡ ok tt)
      × (PfpLoader.round_trip pfp_json ≡ ok tt)
      × (SapLoader.encode_as_declared sap_json ≡ ok tt)
      × (SapLoader.round_trip sap_json ≡ ok tt)
generated_pass ps ss five_pfp five_sap h =
    let (pfp_encode, pfp_decode) = PfpGenerated.pfp_generated_pass ps five_pfp in
    let (sap_encode, sap_decode) = SapGenerated.sap_generated_pass ss five_sap h in
    (pfp_encode, pfp_decode, sap_encode, sap_decode)
