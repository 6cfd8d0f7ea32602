-- ===== src/Manifest/Goldens.antt =====
-- The other checks of tests/vector_manifest.rs: that a category which a loader declares has a golden
-- file, that the loader names it, and that no test names a vector that the manifest does not declare.
pub mod Sound
use bind.Common.{
  ℕ, Bool, true, false, not, ◌&&◌, ◌||◌, Option, none, some, List, [], ◌∷◌, ◌++◌, if◌then◌else◌,
  Result, ok, panic, ◌>>=◌, ◌>>◌, assert, or_panic,
}
use bind.Common.Bytes.{bytes_eq}
use bind.Config.{codes}
use bind.Manifest.Text.{contains, split_once}
use bind.Manifest.Ids.{
  Json, Files, member, insert, is_none_left, declared_ids, referenced_ids, declared_categories,
}
use bind.Manifest.Passes.{Run, each}

-- A file of the directory tests/test_vectors/golden: its extension, and its field `category`, if it can
-- be read, is JSON and has that field as a text.
pub record Entry : Type 0 where
  pub extension : Option (List ℕ)
  pub category : Option (List ℕ)

abbrev is_json : Option (List ℕ) → Bool
is_json none = false
is_json (some e) = bytes_eq e (codes "json")

abbrev insert_some : Option (List ℕ) → List (List ℕ) → List (List ℕ)
insert_some none out = out
insert_some (some c) out = insert c out

abbrev add_entries : List Entry → List (List ℕ) → List (List ℕ)
add_entries [] out = out
add_entries (e ∷ es) out =
    add_entries es (if is_json e.extension then insert_some e.category out else out)

-- `categories_with_golden`; `none` is a directory that cannot be read.
unfoldable pub categories_with_golden : Option (List Entry) → List (List ℕ)
categories_with_golden none = []
categories_with_golden (some entries) = add_entries entries []

-- `BTreeSet::difference`
abbrev pub difference : List (List ℕ) → List (List ℕ) → List (List ℕ)
difference [] t = []
difference (x ∷ s) t = let rest = difference s t in if member x t then rest else x ∷ rest

-- `every_loaded_category_has_a_golden`
unfoldable pub every_category_has_golden :
    List (Option (List ℕ)) → Option (List Entry) → Run (Unit {0})
every_category_has_golden sources entries =
    assert
      (is_none_left (difference (declared_categories sources []) (categories_with_golden entries)))

-- The first source that can be read and contains the marker.
abbrev pub find_loader : List ℕ → List (Option (List ℕ)) → Option (List ℕ)
find_loader marker [] = none
find_loader marker (none ∷ sources) = find_loader marker sources
find_loader marker (some text ∷ sources) =
    let later = find_loader marker sources in if contains marker text then some text else later

abbrev pub names_golden : List (Option (List ℕ)) → List ℕ → Run (Unit {0})
names_golden sources category = do
  text ← or_panic (find_loader (codes "vector-category: " ++ category) sources)
  assert (contains (codes "golden") text)

-- `golden_is_compared_by_the_loader`
unfoldable pub golden_is_compared : List (Option (List ℕ)) → Run (Unit {0})
golden_is_compared sources = each (names_golden sources) (declared_categories sources [])

-- The part of an id before its first dash.
abbrev pub add_prefix : Option (List ℕ × List ℕ) → List (List ℕ) → List (List ℕ)
add_prefix none out = out
add_prefix (some (c, rest)) out = insert c out

abbrev pub id_prefixes : List (List ℕ) → List (List ℕ) → List (List ℕ)
id_prefixes [] out = out
id_prefixes (id ∷ ids) out = id_prefixes ids (add_prefix (split_once b'-' id) out)

abbrev pub has_prefix : List (List ℕ) → Option (List ℕ × List ℕ) → Bool
has_prefix prefixes none = false
has_prefix prefixes (some (c, rest)) = member c prefixes

abbrev pub phantoms : List (List ℕ) → List (List ℕ) → List (List ℕ) → List (List ℕ)
phantoms prefixes declared [] = []
phantoms prefixes declared (t ∷ ts) =
    let rest = phantoms prefixes declared ts in
    if has_prefix prefixes (split_once b'-' t) && not (member t declared) then t ∷ rest else rest

-- `a_test_does_not_reference_a_vector_that_does_not_exist`
unfoldable pub no_phantom : Files → Run (Unit {0})
no_phantom f = do
  json ← or_panic f.manifest
  declared ← declared_ids json
  assert (is_none_left (phantoms (id_prefixes declared []) declared (referenced_ids f.sources [])))
