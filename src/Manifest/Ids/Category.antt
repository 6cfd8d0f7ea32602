-- ===== src/Manifest/Ids/Category.antt =====
-- The category that `category_map` of tests/vector_manifest.rs has for an id is one whose vectors have it.
use bind.Common.{
  ℕ, ◌≡◌, ◌⊎◌, refl, sym, ap, ◌∙◌, Bool, true, false, not, ◌||◌, Option, none, some, List, [], ◌∷◌,
  if◌then◌else◌, Bool-cases, inl, inr, ok, assert, arith,
}
use bind.Common.Bytes.{bytes_eq, bytes_eq_self, bytes_eq→eq}
use bind.Manifest.Passes.{bind_passes, ok_injective}
use bind.Manifest.Ids.{
  Json, member, insert, add_ids, add_categories, declared_ids, put, find, map_ids, map_categories,
  category_of, is_none_left,
}
use bind.Manifest.Ids.Found.{inserted}

abbrev pub listed : List ℕ → List (Option (List ℕ)) → Bool
listed id [] = false
listed id (none ∷ vs) = listed id vs
listed id (some j ∷ vs) = let later = listed id vs in bytes_eq j id || later

abbrev listed_any : List ℕ → List (List ℕ × Option (List (Option (List ℕ)))) → Bool
listed_any id [] = false
listed_any id ((c, none) ∷ cs) = listed_any id cs
listed_any id ((c, some vs) ∷ cs) = let later = listed_any id cs in listed id vs || later

-- A category with this name has a vector with this id.
abbrev pub HasVector : List ℕ → List ℕ → List (List ℕ × Option (List (Option (List ℕ)))) → Type 0
HasVector category id [] = ⊥
HasVector category id ((c, none) ∷ cs) = HasVector category id cs
HasVector category id ((c, some vs) ∷ cs) =
    ((category ≡ c) × (listed id vs ≡ true)) ⊎ HasVector category id cs

abbrev pub IsIn : Json → List ℕ → List ℕ → Type 0
IsIn none category id = ⊥
IsIn (some categories) category id = HasVector category id categories

other_texts : (i k j : List ℕ) → bytes_eq i k ≡ false → bytes_eq i j ≡ true → bytes_eq k j ≡ false
other_texts i k j apart same = elim (Bool-cases (bytes_eq k j)) [
  | inr other ↦ other
  | inl equal ↦
      let i_is_k : i ≡ k = bytes_eq→eq i j same ∙ sym (bytes_eq→eq k j equal) in
      absurd (cc (rw i_is_k at apart, bytes_eq_self k))
]

find-put :
    (k v j : List ℕ) (m : List (List ℕ × List ℕ))
    → find j (put k v m) ≡ (if bytes_eq k j then v else find j m)
find-put k v j [] = refl
find-put k v j ((i, w) ∷ m) = elim (Bool-cases (bytes_eq i k)) [
  | inl same ↦
      rw (same, bytes_eq→eq i k same)
        (elim (Bool-cases (bytes_eq k j)) [ inl here ↦ rw here refl | inr there ↦ rw there refl ])
  | inr other ↦ elim (Bool-cases (bytes_eq i j)) [
    | inl here ↦ rw (other, here, other_texts i k j other here) refl
    | inr there ↦ rw (other, there) (find-put k v j m)
  ]
]

find-map_ids :
    (category id : List ℕ) (vs : List (Option (List ℕ))) (out : List (List ℕ × List ℕ))
    → find id (map_ids category vs out) ≡ (if listed id vs then category else find id out)
find-map_ids category id [] out = refl
find-map_ids category id (none ∷ vs) out = find-map_ids category id vs out
find-map_ids category id (some j ∷ vs) out =
    find-map_ids category id vs (put j category out) ∙ elim (Bool-cases (listed id vs)) [
      | inl later ↦ elim (Bool-cases (bytes_eq j id)) [
        | inl here ↦ rw (later, here) refl
        | inr other ↦ rw (later, other) refl
      ]
      | inr last ↦ elim (Bool-cases (bytes_eq j id)) [
        | inl here ↦ rw (last, here) (find-put j category id out ∙ rw here refl)
        | inr other ↦ rw (last, other) (find-put j category id out ∙ rw other refl)
      ]
    ]

map_categories_lem :
    (id : List ℕ) (cs : List (List ℕ × Option (List (Option (List ℕ)))))
    (out : List (List ℕ × List ℕ))
    → HasVector (find id (map_categories cs out)) id cs
      ⊎ ((find id (map_categories cs out) ≡ find id out) × (listed_any id cs ≡ false))
map_categories_lem id [] out = inr (refl, refl)
map_categories_lem id ((c, none) ∷ cs) out = map_categories_lem id cs out
map_categories_lem id ((c, some vs) ∷ cs) out = elim (map_categories_lem id cs (map_ids c vs out)) [
  | inl later ↦ inl (inr later)
  | inr (kept, none_later) ↦
      let found = kept ∙ find-map_ids c id vs out in
      elim (Bool-cases (listed id vs)) [
        | inl here ↦ inl (inl (found ∙ rw here refl, here))
        | inr absent ↦ inr (found ∙ rw absent refl, rw (absent, none_later) refl)
      ]
]

add_ids_lem :
    (id : List ℕ) (vs : List (Option (List ℕ))) (out out' : List (List ℕ))
    → add_ids vs out ≡ ok out'
    → member id out' ≡ true
    → (member id out ≡ true) ⊎ (listed id vs ≡ true)
add_ids_lem id [] out out' e h = inl (ap (member id) (ok_injective out out' e) ∙ h)
add_ids_lem id (none ∷ vs) out out' e h = cc
add_ids_lem id (some j ∷ vs) out out' e h = elim (add_ids_lem id vs (insert j out) out' e h) [
  | inr later ↦ inr (ground arith)
  | inl m ↦ elim (inserted id j out m) [
    | inl earlier ↦ inl earlier
    | inr same ↦ inr (rw (same, bytes_eq_self j) refl)
  ]
]

add_categories_lem :
    (id : List ℕ) (cs : List (List ℕ × Option (List (Option (List ℕ))))) (out out' : List (List ℕ))
    → add_categories cs out ≡ ok out'
    → member id out' ≡ true
    → (member id out ≡ true) ⊎ (listed_any id cs ≡ true)
add_categories_lem id [] out out' e h = inl (ap (member id) (ok_injective out out' e) ∙ h)
add_categories_lem id ((c, none) ∷ cs) out out' e h = cc
add_categories_lem id ((c, some vs) ∷ cs) out out' e h =
    let (mid, is_mid, rest) = bind_passes (add_ids vs out) _ out' e in
    elim (add_categories_lem id cs mid out' rest h) [
      | inr later ↦ inr (ground arith)
      | inl m ↦ elim (add_ids_lem id vs out mid is_mid m) [
        | inl earlier ↦ inl earlier
        | inr here ↦ inr (ground arith)
      ]
    ]

pub category_of-IsIn :
    (json : Json) (declared : List (List ℕ)) (id : List ℕ)
    → declared_ids json ≡ ok declared
    → member id declared ≡ true
    → IsIn json (category_of json id) id
unfolding declared_ids category_of
category_of-IsIn none declared id e h = cc
category_of-IsIn (some cs) declared id e h =
    let (out, is_out, e1) = bind_passes (add_categories cs []) _ declared e in
    let (u, some_left, e2) = bind_passes (assert (not (is_none_left out))) _ declared e1 in
    let m = ap (member id) (ok_injective out declared e2) ∙ h in
    elim (map_categories_lem id cs []) [
      | inl there ↦ there
      | inr (kept, absent) ↦ elim (add_categories_lem id cs [] out is_out m) [
        | inl before ↦ absurd (cc)
        | inr found ↦ absurd (cc)
      ]
    ]
