-- ===== src/Manifest/Loaders/Recorded.antt =====
-- Runs of the loaders on what examples/generate_test_vectors.rs writes, against the golden file in the
-- repository.
use bind.Common.{ℕ, ◌≡◌, refl, some, List, [], ◌∷◌, map, ok}
use bind.Config.{codes}
use bind.Pfp
use bind.Vectors.Encoded.{PfpCase, PfpVector, generate_pfp_vectors}
use bind.Manifest.Loaders.{load, GoldenFile, golden_hex, matches_golden}
use bind.Manifest.Loaders.Pfp as PfpLoader
use bind.Manifest.Loaders.PfpGenerated as PfpGenerated

abbrev with_names : List (List ℕ) → List PfpVector → List (List ℕ × PfpCase)
with_names (n ∷ ns) (v ∷ vs) = (n, v.input) ∷ with_names ns vs
with_names _ _ = []

-- What the generator writes.
abbrev five_vectors : List PfpLoader.Vector
five_vectors = map PfpGenerated.generated (
    with_names
      (codes "all_zero"
        ∷ codes "all_one"
        ∷ codes "typical_executive"
        ∷ codes "cognitive_low"
        ∷ codes "render_critical"
        ∷ [])
      generate_pfp_vectors)

-- What tests/test_vectors/golden/pfp_codec.json has.
abbrev golden_file : GoldenFile
golden_file = record {
  category = some (codes "pfp_codec");
  encoded_hex = some (
      (codes "pfp-all_zero", some (codes "cf143000"))
      ∷ (codes "pfp-all_one", some (codes "cf14ef07"))
      ∷ (codes "pfp-typical_executive", some (codes "cf145605"))
      ∷ (codes "pfp-cognitive_low", some (codes "cf140004"))
      ∷ (codes "pfp-render_critical", some (codes "cf14a905"))
      ∷ []);
}

abbrev golden : List (List ℕ × List ℕ)
golden =
    (codes "pfp-all_zero", codes "cf143000")
    ∷ (codes "pfp-all_one", codes "cf14ef07")
    ∷ (codes "pfp-typical_executive", codes "cf145605")
    ∷ (codes "pfp-cognitive_low", codes "cf140004")
    ∷ (codes "pfp-render_critical", codes "cf14a905")
    ∷ []

golden_read : golden_hex (codes "pfp_codec") (some golden_file) ≡ ok golden
unfolding golden_hex
golden_read = refl

five_loaded : load (some (map some five_vectors)) ≡ ok five_vectors
unfolding load Pfp.encode Pfp.encode_byte2 Pfp.encode_byte3
five_loaded = refl

-- What the generator writes is what the golden file has, and no two of its vectors are alike.
five_pass :
    (matches_golden (λ (v : PfpLoader.Vector). v.id) PfpLoader.encoded_hex golden five_vectors
      ≡ ok tt)
    × (PfpLoader.five_distinct five_vectors ≡ ok tt)
unfolding matches_golden PfpLoader.encoded_hex PfpLoader.five_distinct PfpLoader.encode_vector
    PfpLoader.modality PfpLoader.risk PfpLoader.stance PfpLoader.edge PfpLoader.dest
    PfpLoader.override_flag Pfp.encode Pfp.encode_byte2 Pfp.encode_byte3
five_pass = (refl, refl)
