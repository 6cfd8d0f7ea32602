-- ===== src/Manifest/Ids.antt =====
-- The ids of vectors in tests/vector_manifest.rs: those that the manifest declares, those that a test
-- names, and the check that compares them.
pub mod Tokens
pub mod Sources
pub mod Found
pub mod Category
pub mod Cover
use bind.Common.{
  ℕ, Bool, true, false, not, ◌&&◌, ◌||◌, Option, none, some, List, [], ◌∷◌, ◌++◌, leb, ◌==◌,
  if◌then◌else◌, Result, ok, err, panic, ◌>>=◌, ◌>>◌, assert, is_some,
}
use bind.Common.Bytes.{bytes_eq}
use bind.Config.{codes}
use bind.Manifest.Text.{
  is_empty, trim, strip_prefix, contains, split_once, rsplit_once, split_where, lines,
}
use bind.Manifest.Waivers.{Ymd, Expired, Verdicts, waived_and_expired, today}

-- `BTreeSet::contains`
abbrev pub member : List ℕ → List (List ℕ) → Bool
member s [] = false
member s (t ∷ ts) = let later = member s ts in bytes_eq s t || later

-- `BTreeSet::insert`
abbrev pub insert : List ℕ → List (List ℕ) → List (List ℕ)
insert s ts = if member s ts then ts else ts ++ (s ∷ [])

-- The object `vectors` of the manifest: the categories, each with its array, if it is one, of vectors,
-- each as its field `id`, if it is a text. `none` is no such object.
abbrev pub Json : Type 0
Json = Option (List (List ℕ × Option (List (Option (List ℕ)))))

abbrev add_ids : List (Option (List ℕ)) → List (List ℕ) → Result (Unit {0}) (List (List ℕ))
add_ids [] out = ok out
add_ids (none ∷ vs) out = panic
add_ids (some id ∷ vs) out = add_ids vs (insert id out)

abbrev add_categories :
    List (List ℕ × Option (List (Option (List ℕ))))
    → List (List ℕ)
    → Result (Unit {0}) (List (List ℕ))
add_categories [] out = ok out
add_categories ((category, none) ∷ cs) out = panic
add_categories ((category, some vs) ∷ cs) out = do out' ← add_ids vs out; add_categories cs out'

abbrev pub is_none_left : List (List ℕ) → Bool
is_none_left [] = true
is_none_left (s ∷ ss) = false

-- `declared_ids`
unfoldable pub declared_ids : Json → Result (Unit {0}) (List (List ℕ))
declared_ids none = panic
declared_ids (some categories) = do
  out ← add_categories categories []
  assert (not (is_none_left out))
  ok out

-- `BTreeMap::insert`
abbrev put : List ℕ → List ℕ → List (List ℕ × List ℕ) → List (List ℕ × List ℕ)
put k v [] = (k, v) ∷ []
put k v ((j, w) ∷ m) = let rest = put k v m in if bytes_eq j k then (k, v) ∷ m else (j, w) ∷ rest

abbrev pub find : List ℕ → List (List ℕ × List ℕ) → List ℕ
find k [] = []
find k ((j, w) ∷ m) = let rest = find k m in if bytes_eq j k then w else rest

abbrev map_ids : List ℕ → List (Option (List ℕ)) → List (List ℕ × List ℕ) → List (List ℕ × List ℕ)
map_ids category [] out = out
map_ids category (none ∷ vs) out = map_ids category vs out
map_ids category (some id ∷ vs) out = map_ids category vs (put id category out)

abbrev map_categories :
    List (List ℕ × Option (List (Option (List ℕ))))
    → List (List ℕ × List ℕ)
    → List (List ℕ × List ℕ)
map_categories [] out = out
map_categories ((category, none) ∷ cs) out = map_categories cs out
map_categories ((category, some vs) ∷ cs) out = map_categories cs (map_ids category vs out)

-- `category_map`, and `""` for an id that is not in it.
unfoldable pub category_of : Json → List ℕ → List ℕ
category_of none id = []
category_of (some categories) id = find id (map_categories categories [])

abbrev pub is_token : ℕ → Bool
is_token c =
    leb b'a' c && leb c b'z'
    || (leb b'A' c && leb c b'Z' || (leb b'0' c && leb c b'9' || (c == b'-' || c == b'_')))

abbrev pub is_lower_token : ℕ → Bool
is_lower_token c =
    leb b'a' c && leb c b'z' || (leb b'0' c && leb c b'9' || (c == b'-' || c == b'_'))

abbrev pub all_lower : List ℕ → Bool
all_lower [] = true
all_lower (c ∷ s) = let rest = all_lower s in is_lower_token c && rest

abbrev pub ends_with : ℕ → List ℕ → Bool
ends_with d [] = false
ends_with d (c ∷ s) = let later = ends_with d s in if is_empty s then c == d else later

abbrev has_sides : Option (List ℕ × List ℕ) → Bool
has_sides none = false
has_sides (some (head, tail)) = not (is_empty head || is_empty tail)

-- The tests on a token in `referenced_ids`. A token that begins with a dash has an empty head.
abbrev pub is_id : List ℕ → Bool
is_id token = has_sides (split_once b'-' token) && (not (ends_with b'-' token) && all_lower token)

abbrev pub add_tokens : List (List ℕ) → List (List ℕ) → List (List ℕ)
add_tokens [] out = out
add_tokens (t ∷ ts) out = add_tokens ts (if is_id t then insert t out else out)

-- `referenced_ids`
unfoldable pub referenced_ids : List (Option (List ℕ)) → List (List ℕ) → List (List ℕ)
referenced_ids [] out = out
referenced_ids (none ∷ sources) out = referenced_ids sources out
referenced_ids (some text ∷ sources) out =
    referenced_ids sources (add_tokens (split_where (λ c. not (is_token c)) text) out)

-- VECTORS
abbrev pub vectors : List ℕ
vectors = codes "tests/test_vectors/ci-144-v2.0-test-vectors.json"

abbrev add_named : List ℕ → List (List ℕ) → List (List ℕ)
add_named name out = if is_empty name then out else insert name out

abbrev add_category : Option (List ℕ) → List (List ℕ) → List (List ℕ)
add_category none out = out
add_category (some rest) out = add_named (trim rest) out

abbrev pub category_lines : List (List ℕ) → List (List ℕ) → List (List ℕ)
category_lines [] out = out
category_lines (l ∷ ls) out =
    category_lines ls (add_category (strip_prefix (codes "//! vector-category:") (trim l)) out)

-- `declared_categories`
unfoldable pub declared_categories : List (Option (List ℕ)) → List (List ℕ) → List (List ℕ)
declared_categories [] out = out
declared_categories (none ∷ sources) out = declared_categories sources out
declared_categories (some text ∷ sources) out =
    declared_categories sources
      (if not (contains vectors text) then out else category_lines (lines text) out)

-- `format!("{category}/{id}")`
abbrev pub key_of : List ℕ → List ℕ → List ℕ
key_of category id = category ++ (b'/' ∷ id)

abbrev sides : List ℕ → Option (List ℕ × List ℕ) → List ℕ × List ℕ
sides key none = ([], key)
sides key (some s) = s

-- The two filters of `every_declared_vector_is_exercised_by_a_test`.
abbrev pub is_open : List (List ℕ) → List (List ℕ) → List (List ℕ) → List ℕ → Bool
is_open referenced loaded waived key =
    let (category, id) = sides key (rsplit_once b'/' key) in
    not (member id referenced) && not (member category loaded) && not (member key waived)

abbrev pub unexercised :
    (List ℕ → List ℕ)
    → List (List ℕ)
    → List (List ℕ)
    → List (List ℕ)
    → List (List ℕ)
    → List (List ℕ)
unexercised category referenced loaded waived [] = []
unexercised category referenced loaded waived (id ∷ ids) =
    let rest = unexercised category referenced loaded waived ids in
    let key = key_of (category id) id in
    if is_open referenced loaded waived key then key ∷ rest else rest

-- What the check reads. `manifest` is `none` if it cannot be read or is no JSON.
pub record Files : Type 0 where
  pub manifest : Option Json
  pub sources : List (Option (List ℕ))
  pub baseline : Option (List ℕ)
  pub ci_today : Option (List ℕ)

abbrev or_fails : Option Json → Result (Unit {0}) Json
or_fails none = panic
or_fails (some json) = ok json

abbrev no_expired : List Expired → Bool
no_expired [] = true
no_expired (e ∷ es) = false

abbrev has_sources : List (Option (List ℕ)) → Bool
has_sources [] = false
has_sources (s ∷ ss) = true

-- `every_declared_vector_is_exercised_by_a_test`
unfoldable pub every_vector_exercised : Files → Result (Unit {0}) (Unit {0})
every_vector_exercised f = do
  json ← or_fails f.manifest
  declared ← declared_ids json
  assert (has_sources f.sources)
  let verdicts = waived_and_expired (today f.ci_today) f.baseline
  assert (no_expired verdicts.expired)
  assert (
      is_none_left (
        unexercised (category_of json) (referenced_ids f.sources [])
          (declared_categories f.sources []) verdicts.waived declared))
