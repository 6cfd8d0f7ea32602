-- ===== src/Manifest/Goldens/Sound.antt =====
-- What a run of the other checks of tests/vector_manifest.rs that passes shows.
use bind.Common.{
  ℕ, ◌≡◌, true, not, ◌&&◌, Option, none, some, List, [], ◌∷◌, ◌++◌, All, ok, or_panic, Bool-cases,
  Option-cases, inl, inr,
}
use bind.Common.Bytes.{bytes_eq, bytes_eq→eq}
use bind.Config.{codes}
use bind.Manifest.Text.{contains, split_once}
use bind.Manifest.Ids.{
  Json, Files, member, insert, is_none_left, declared_ids, referenced_ids, declared_categories,
}
use bind.Manifest.Ids.Tokens.{member_self-insert, member-insert}
use bind.Manifest.Passes.{assert_last, bind_passes, or_panic_passes, each_passes}
use bind.Manifest.Goldens.{
  Entry, categories_with_golden, difference, every_category_has_golden, find_loader, names_golden,
  golden_is_compared, id_prefixes, add_prefix, has_prefix, phantoms, no_phantom,
}

nothing_left :
    (s t : List (List ℕ)) (x : List ℕ)
    → is_none_left (difference s t) ≡ true
    → member x s ≡ true
    → member x t ≡ true
nothing_left [] t x h there = cc
nothing_left (y ∷ s) t x h there = elim (Bool-cases (member y t)) [
  | inr absent ↦ absurd (cc (rw absent at h))
  | inl present ↦ elim (Bool-cases (bytes_eq x y)) [
    | inl same ↦ rw (bytes_eq→eq x y same) present
    | inr other ↦ nothing_left s t x (rw present at h) (rw other at there)
  ]
]

some_eq : (a b : List ℕ) → some a ≡ some b → a ≡ b
some_eq a b h = cc

-- The first source that has the text is one that has it.
find_loader_lem :
    (marker : List ℕ) (sources : List (Option (List ℕ))) (text : List ℕ)
    → find_loader marker sources ≡ some text
    → contains marker text ≡ true
find_loader_lem marker [] text h = cc
find_loader_lem marker (none ∷ sources) text h = find_loader_lem marker sources text h
find_loader_lem marker (some t ∷ sources) text h = elim (Bool-cases (contains marker t)) [
  | inl here ↦ rw (← some_eq t text (rw here at h)) here
  | inr not_here ↦ find_loader_lem marker sources text (rw not_here at h)
]

All-member :
    (P : List ℕ → Type 0) (s : List (List ℕ)) (x : List ℕ) → All P s → member x s ≡ true → P x
All-member P [] x h there = cc
All-member P (y ∷ s) x (first, h) there = elim (Bool-cases (bytes_eq x y)) [
  | inl same ↦ rw (bytes_eq→eq x y same) first
  | inr other ↦ All-member P s x h (rw other at there)
]

-- If the checks of the golden files pass, then each declared category has a golden file, and a source
-- contains the marker of the category and the word `golden`.
pub goldens_lem :
    (sources : List (Option (List ℕ))) (entries : Option (List Entry)) (category : List ℕ)
    → every_category_has_golden sources entries ≡ ok tt
    → golden_is_compared sources ≡ ok tt
    → member category (declared_categories sources []) ≡ true
    → (member category (categories_with_golden entries) ≡ true)
      × ((text : List ℕ) × (find_loader (codes "vector-category: " ++ category) sources ≡ some text)
          × (contains (codes "vector-category: " ++ category) text ≡ true)
          × (contains (codes "golden") text ≡ true))
unfolding every_category_has_golden golden_is_compared
goldens_lem sources entries category has compared there =
    let declared = declared_categories sources [] in
    let marker = codes "vector-category: " ++ category in
    let run =
      All-member (λ c. names_golden sources c ≡ ok tt) declared category
        (each_passes (names_golden sources) declared compared) there in
    let (text, found, last) = bind_passes (or_panic (find_loader marker sources)) _ tt run in
    let is_found = or_panic_passes (find_loader marker sources) text found in
    (
      nothing_left declared (categories_with_golden entries) category (assert_last _ has) there,
      (
        text,
        is_found,
        find_loader_lem marker sources text is_found,
        assert_last (contains (codes "golden") text) last,
      ),
    )

no_phantoms :
    (prefixes declared ts : List (List ℕ)) (t : List ℕ)
    → is_none_left (phantoms prefixes declared ts) ≡ true
    → member t ts ≡ true
    → has_prefix prefixes (split_once b'-' t) ≡ true
    → member t declared ≡ true
no_phantoms prefixes declared [] t h there ours = cc
no_phantoms prefixes declared (u ∷ ts) t h there ours = elim (Bool-cases (bytes_eq t u)) [
  | inl same ↦
      let is_u = bytes_eq→eq t u same in
      elim (Bool-cases (member u declared)) [
        | inl present ↦ rw is_u present
        | inr absent ↦ absurd (cc (rw (rw is_u at ours, absent) at h))
      ]
  | inr other ↦
      elim (Bool-cases (has_prefix prefixes (split_once b'-' u) && not (member u declared))) [
        | inl left ↦ absurd (cc (rw left at h))
        | inr shut ↦ no_phantoms prefixes declared ts t (rw shut at h) (rw other at there) ours
      ]
]

prefixes_keep :
    (ids out : List (List ℕ)) (c : List ℕ)
    → member c out ≡ true
    → member c (id_prefixes ids out) ≡ true
prefixes_keep [] out c h = h
prefixes_keep (id ∷ ids) out c h = elim (Option-cases (split_once b'-' id)) [
  | inl no_dash ↦ rw no_dash (prefixes_keep ids out c h)
  | inr ((a, b), dash) ↦ rw dash (prefixes_keep ids (insert a out) c (member-insert c a out h))
]

prefixes_have :
    (ids out : List (List ℕ)) (d c rest : List ℕ)
    → member d ids ≡ true
    → split_once b'-' d ≡ some (c, rest)
    → member c (id_prefixes ids out) ≡ true
prefixes_have [] out d c rest there parts = cc
prefixes_have (id ∷ ids) out d c rest there parts = elim (Bool-cases (bytes_eq d id)) [
  | inl same ↦
      let is_id = bytes_eq→eq d id same in
      rw (rw is_id at parts) (prefixes_keep ids (insert c out) c (member_self-insert c out))
  | inr other ↦
      prefixes_have ids (add_prefix (split_once b'-' id) out) d c rest (rw other at there) parts
]

-- If the check of the names passes, then an id that a test names is declared, if it begins like a
-- declared id up to its first dash.
pub no_phantom_lem :
    (f : Files) (json : Json) (declared : List (List ℕ)) (id d c rest rest' : List ℕ)
    → no_phantom f ≡ ok tt
    → f.manifest ≡ some json
    → declared_ids json ≡ ok declared
    → member id (referenced_ids f.sources []) ≡ true
    → member d declared ≡ true
    → split_once b'-' d ≡ some (c, rest)
    → split_once b'-' id ≡ some (c, rest')
    → member id declared ≡ true
unfolding no_phantom
no_phantom_lem f json declared id d c rest rest' passes manifest ids named there parts parts' =
    no_phantoms (id_prefixes declared []) declared (referenced_ids f.sources []) id
      (assert_last _ (rw (manifest, ids) at passes)) named
      (rw parts' (prefixes_have declared [] d c rest there parts))
