-- ===== src/Manifest/Ids/Cover.antt =====
-- What a run of the check of tests/vector_manifest.rs that passes shows.
use bind.Common.{ℕ, ◌≡◌, true, ◌⊎◌, ◌++◌, Option, List, ◌∷◌}
use bind.Manifest.Ids.Sources.{IsIdText, SomeSource, IsLoader}
use bind.Manifest.Ids.Found.{IsNamedIn}
use bind.Manifest.Ids.{member}

-- Why a declared id is not missing: it is a word of a source of the tests and has the form of an
-- id, or a source is a loader of its category, or it has a waiver that has not ended.
abbrev pub IsCovered : List (Option (List ℕ)) → List (List ℕ) → List ℕ → List ℕ → Type 0
IsCovered sources waived category id =
    (SomeSource (IsNamedIn id) sources × IsIdText id)
    ⊎ (SomeSource (IsLoader category) sources ⊎ (member (category ++ (b'/' ∷ id)) waived ≡ true))
