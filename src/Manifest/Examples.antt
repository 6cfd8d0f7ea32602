-- ===== src/Manifest/Examples.antt =====
-- Runs of the checks of tests/vector_manifest.rs and of the loaders, and the theorems at concrete inputs.
use bind.Common.{
  ℕ, ◌≡◌, refl, arith, true, false, length, panic, Option, none, some, List, [], ◌∷◌, All, map,
  replicate, ok,
}
use bind.Config.{codes}
use bind.Pfp.Enums.{executive, cognitive, medium, standing, warning, external, normal}
use bind.Vectors.Encoded.{PfpCase}
use bind.Manifest.Text.{unlines}
use bind.Manifest.Waivers.{
  today, parse_ymd, flush, read_line, read_lines, waived_and_expired, past_due, unparseable,
}
use bind.Manifest.Waivers.File.{
  Waiver, IsPlainWaiver, file_lines, block, render, waived_of, expired_of,
}
use bind.Manifest.Waivers.Reads.{table, table_swallows}
use bind.Manifest.Waivers.Dated.{
  Due, DatedWaiver, IsDatedWaiver, on, undated, written, waived_and_expired_lem,
}
use bind.Manifest.Ids.{
  Json, Files, declared_ids, category_of, referenced_ids, declared_categories,
  every_vector_exercised, vectors,
}
use bind.Manifest.Goldens.{
  Entry, categories_with_golden, every_category_has_golden, golden_is_compared, no_phantom,
}
use bind.Manifest.Walk.{Entries, done, file, folder, locked, walk, exercising_sources}
use bind.Manifest.Walk.Finds.{count, sources_of, exercising_sources_lem}
use bind.Manifest.Loaders.{load}
use bind.Manifest.Loaders.Pfp as PfpLoader
use bind.Manifest.Loaders.Sap as SapLoader
use bind.Manifest.Loaders.PfpVectors as PfpVectors
use bind.Manifest.Loaders.PfpGenerated as PfpGenerated
use bind.Manifest.Loaders.SapGenerated as SapGenerated
use bind.Manifest.Loaders.PfpVectors.{pfp_loader_lem}
use bind.Manifest.Loaders.Generated.{generated_pass}
use bind.Manifest.Loaders.SapGenerated.{SapCase, IsInRange, sap_generated_pass}

-- A waiver of CI-4.
abbrev waiver : List ℕ → List ℕ → Waiver
waiver target due = record {
  check = codes "CI-4";
  target = target;
  reason = codes "later";
  owner = codes "us";
  due = due;
}

-- Due on the day of the check, and before it.
abbrev in_time : Waiver
in_time = waiver (codes "sap_codec/sap-seq_zero") (codes "2026-09-18")

abbrev late : Waiver
late = waiver (codes "frame_codec/frame-v1") (codes "2026-09-17")

in_time_plain : IsPlainWaiver in_time
in_time_plain = record {
  check = (refl, refl);
  target = (refl, refl);
  reason = (refl, refl);
  owner = (refl, refl);
  due = (refl, refl);
}

late_plain : IsPlainWaiver late
late_plain = record {
  check = (refl, refl);
  target = (refl, refl);
  reason = (refl, refl);
  owner = (refl, refl);
  due = (refl, refl);
}

read_verdicts : waived_and_expired (today none) (some (render (in_time ∷ late ∷ []))) ≡ record {
  waived = codes "sap_codec/sap-seq_zero" ∷ [];
  expired = past_due (codes "frame_codec/frame-v1") ∷ [];
}
unfolding waived_and_expired read_lines read_line flush parse_ymd today
read_verdicts = refl

-- The same two waivers with their dates, and one without a date.
abbrev dated : Waiver → Due → DatedWaiver
dated w due = record {
  check = w.check;
  target = w.target;
  reason = w.reason;
  owner = w.owner;
  due = due;
}

abbrev dated_in_time : DatedWaiver
dated_in_time = dated in_time (on (record { y = 2026; m = 9; d = 18 }))

abbrev dated_late : DatedWaiver
dated_late = dated late (on (record { y = 2026; m = 9; d = 17 }))

abbrev someday : DatedWaiver
someday = dated late (undated (codes "soon"))

in_time-IsDatedWaiver : IsDatedWaiver dated_in_time
in_time-IsDatedWaiver = record { plain = in_time_plain; due = omega arith }

late-IsDatedWaiver : IsDatedWaiver dated_late
late-IsDatedWaiver = record { plain = late_plain; due = omega arith }

someday-IsDatedWaiver : IsDatedWaiver someday
someday-IsDatedWaiver = record {
  plain = record {
    check = (refl, refl);
    target = (refl, refl);
    reason = (refl, refl);
    owner = (refl, refl);
    due = (refl, refl);
  };
  due = refl;
}

waived_and_expired_lem_example :
    waived_and_expired
      (today none)
      (some (render (map written (dated_in_time ∷ dated_late ∷ someday ∷ []))))
    ≡ record {
      waived = codes "sap_codec/sap-seq_zero" ∷ [];
      expired =
          past_due (codes "frame_codec/frame-v1")
          ∷ unparseable (codes "frame_codec/frame-v1") (codes "soon")
          ∷ [];
    }
unfolding today
waived_and_expired_lem_example =
    waived_and_expired_lem (today none) (dated_in_time ∷ dated_late ∷ someday ∷ [])
      (in_time-IsDatedWaiver, (late-IsDatedWaiver, (someday-IsDatedWaiver, tt)))

table_swallows_example :
    waived_and_expired
      (today none)
      (some (unlines (file_lines (late ∷ []) (block in_time (table (codes "L1"))))))
    ≡ record {
      waived = waived_of (today none) (late ∷ []);
      expired = expired_of (today none) (late ∷ []);
    }
table_swallows_example =
    table_swallows (today none) (late ∷ []) in_time (codes "L1") (late_plain, tt) in_time_plain
      (refl, refl) refl

abbrev json : Json
json = some (
    (codes "pfp_codec", some (some (codes "pfp-all_zero") ∷ []))
    ∷ (codes "sap_codec", some (some (codes "sap-seq_zero") ∷ []))
    ∷ [])

abbrev declared : List (List ℕ)
declared = codes "pfp-all_zero" ∷ codes "sap-seq_zero" ∷ []

-- A test that loads the category of PFP vectors.
abbrev loader : List ℕ
loader = unlines (
    codes "//! vector-category: pfp_codec" ∷ vectors ∷ codes "golden" ∷ codes "'pfp-all_zero'" ∷ [])

abbrev files : Files
files = record {
  manifest = some json;
  sources = some loader ∷ [];
  baseline = some (render (in_time ∷ []));
  ci_today = none;
}

abbrev entries : Option (List Entry)
entries =
    some (record { extension = some (codes "json"); category = some (codes "pfp_codec") } ∷ [])

abbrev standing_case : PfpCase
standing_case = record {
  modality = executive;
  risk = medium;
  stance = standing;
  edge = warning;
  dest = external;
  override_flag = normal;
  replay_enable = true;
}

abbrev other_case : PfpCase
other_case = record standing_case { modality = cognitive; replay_enable = false }

abbrev pfp_cases : List (List ℕ × PfpCase)
pfp_cases = (codes "typical_executive", standing_case) ∷ replicate 4 (codes "other", other_case)

abbrev pfp_json : Option (List (Option PfpLoader.Vector))
pfp_json = some (map some (map PfpGenerated.generated pfp_cases))

pfp_loader_lem_example :
    (vs : List PfpLoader.Vector) × (pfp_json ≡ some (map some vs))
    × (length vs ≡ 5)
    × All PfpVectors.IsTrue vs
    × (PfpLoader.round_trip pfp_json ≡ ok tt)
pfp_loader_lem_example = pfp_loader_lem pfp_json (PfpGenerated.pfp_generated_pass pfp_cases refl).0

abbrev sap_case : SapCase
sap_case = record {
  name = codes "seq_42";
  seq = 42;
  pah_hash = replicate 14 0xAB;
  pah_sig = replicate 8 0xCD;
}

sap_case-IsInRange : IsInRange sap_case
sap_case-IsInRange = record {
  word = omega arith;
  hash_bytes = omega arith;
  sig_bytes = omega arith;
  hash_length = refl;
  sig_length = refl;
}

abbrev sap_cases : List SapCase
sap_cases = replicate 5 sap_case

abbrev sap_json : Option (List (Option SapLoader.Vector))
sap_json = some (map some (map SapGenerated.generated sap_cases))

generated_pass_example :
    (PfpLoader.encode_as_declared pfp_json ≡ ok tt)
    × (PfpLoader.round_trip pfp_json ≡ ok tt)
    × (SapLoader.encode_as_declared sap_json ≡ ok tt)
    × (SapLoader.round_trip sap_json ≡ ok tt)
generated_pass_example = generated_pass pfp_cases sap_cases refl refl (
  sap_case-IsInRange,
  (sap_case-IsInRange, (sap_case-IsInRange, (sap_case-IsInRange, (sap_case-IsInRange, tt)))),
)

-- Four vectors are not enough, although each is as it should be.
four_refused :
    SapLoader.encode_as_declared
      (some (map some (map SapGenerated.generated (replicate 4 sap_case))))
    ≡ panic
unfolding load
four_refused = refl

-- The checks pass for the files above.
files_pass :
    (every_vector_exercised files ≡ ok tt)
    × (no_phantom files ≡ ok tt)
    × (every_category_has_golden files.sources entries ≡ ok tt)
    × (golden_is_compared files.sources ≡ ok tt)
unfolding every_vector_exercised declared_ids category_of referenced_ids declared_categories
    waived_and_expired read_lines read_line flush parse_ymd today no_phantom
    every_category_has_golden golden_is_compared categories_with_golden
files_pass = (refl, refl, refl, refl)

-- A directory with a source and a file of vectors, and one that cannot be read.
abbrev tests_dir : Entries
tests_dir = file (codes "tests/a.rs") (some (codes "rs")) (
    folder
      (file (codes "tests/v/x.json") (some (codes "json"))
        (file (codes "tests/v/b.rs") (some (codes "rs")) done))
      (locked done))

walked :
    exercising_sources 3 (some tests_dir) ≡ some (codes "tests/a.rs" ∷ codes "tests/v/b.rs" ∷ [])
unfolding walk
walked = refl

exercising_sources_lem_example :
    (found : List (List ℕ)) × (exercising_sources 3 (some tests_dir) ≡ some found)
    × ((p : List ℕ) → count p found ≡ sources_of p (some tests_dir))
exercising_sources_lem_example = exercising_sources_lem (some tests_dir) 3 (omega arith)
