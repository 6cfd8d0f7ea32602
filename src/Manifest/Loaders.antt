-- ===== src/Manifest/Loaders.antt =====
-- tests/vector_pfp_codec.rs and tests/vector_sap_codec.rs: the tests that load the manifest's vectors of
-- the two codecs. What both files do in the same way is here: the array of the manifest, and the golden
-- file. What the JSON library makes of a file is an argument: an array, if there is one, of vectors,
-- each none if a field is missing or of another type.
pub mod Pfp
pub mod Sap
pub mod Golden
pub mod Distinct
pub mod Loads
pub mod Names
pub mod PfpVectors
pub mod PfpGenerated
pub mod SapVectors
pub mod SapGenerated
pub mod Generated
mod Recorded
use bind.Common.{
  ℕ, Bool, true, false, ◌&&◌, Option, none, some, List, [], ◌∷◌, map, length, ◌==◌, if◌then◌else◌,
  Result, ok, panic, ◌>>=◌, ◌>>◌, assert, or_panic,
}
use bind.Common.Bytes.{bytes_eq}
use bind.Manifest.Ids.{member, insert}
use bind.Manifest.Passes.{Run, each}

abbrev pub deserialized {ℓ} : {V : Type ℓ} → List (Option V) → Run (List V)
deserialized [] = ok []
deserialized (v ∷ vs) = do v' ← or_panic v; vs' ← deserialized vs; ok (v' ∷ vs')

-- `pfp_codec_vectors`, and `vectors` of the other file.
unfoldable pub load {ℓ} : {V : Type ℓ} → Option (List (Option V)) → Run (List V)
load none = panic
load (some list) = do out ← deserialized list; assert (length out == 5); ok out

-- The set of the keys of a map that is built from them.
abbrev pub collect : List (List ℕ) → List (List ℕ) → List (List ℕ)
collect [] out = out
collect (k ∷ ks) out = collect ks (insert k out)

-- A golden file that is JSON: its fields `category` and `encoded_hex`, if they are a text and an object.
pub record GoldenFile : Type 0 where
  pub category : Option (List ℕ)
  pub encoded_hex : Option (List (List ℕ × Option (List ℕ)))

abbrev is_category : List ℕ → Option (List ℕ) → Bool
is_category category none = false
is_category category (some c) = bytes_eq c category

abbrev texts : List (List ℕ × Option (List ℕ)) → Run (List (List ℕ × List ℕ))
texts [] = ok []
texts ((k, v) ∷ m) = do v' ← or_panic v; m' ← texts m; ok ((k, v') ∷ m')

-- `golden_hex`, and the same lines of the other file.
unfoldable pub golden_hex : List ℕ → Option GoldenFile → Run (List (List ℕ × List ℕ))
golden_hex category file = do
  json ← or_panic file
  assert (is_category category json.category)
  object ← or_panic json.encoded_hex
  texts object

-- `BTreeMap::get`
abbrev pub get : List ℕ → List (List ℕ × List ℕ) → Option (List ℕ)
get k [] = none
get k ((j, w) ∷ m) = let rest = get k m in if bytes_eq k j then some w else rest

abbrev pub keys : List (List ℕ × List ℕ) → List (List ℕ)
keys m = map (λ (e : List ℕ × List ℕ). e.0) m

abbrev pub subset : List (List ℕ) → List (List ℕ) → Bool
subset [] t = true
subset (x ∷ s) t = let rest = subset s t in member x t && rest

-- `encoding_matches_the_reference_golden` and `sap_codec_matches_the_reference_golden`, after the golden
-- file and the vectors are loaded, for vectors with an id and an encoding.
module _ {ℓ} {V : Type ℓ} (id : V → List ℕ) (encoded_hex : V → Run (List ℕ)) where
  abbrev pub check_golden : List (List ℕ × List ℕ) → V → Run (Unit {0})
  check_golden golden v = do
    hex ← encoded_hex v
    want ← or_panic (get (id v) golden)
    assert (bytes_eq hex want)

  unfoldable pub matches_golden : List (List ℕ × List ℕ) → List V → Run (Unit {0})
  matches_golden golden vs = do
    each (check_golden golden) vs
    assert (subset (map id vs) (keys golden) && subset (keys golden) (map id vs))
