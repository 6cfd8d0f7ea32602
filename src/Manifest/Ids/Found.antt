-- ===== src/Manifest/Ids/Found.antt =====
-- `referenced_ids` and `declared_categories` of tests/vector_manifest.rs find nothing that is not there.
use bind.Common.{
  ℕ, ◌≡◌, ◌⊎◌, refl, sym, ap, ◌∙◌, arith, true, Option, none, some, List, [], ◌∷◌, ◌++◌, All, ◌==◌,
  if◌then◌else◌, Bool-cases, Option-cases, inl, inr, ==_iff,
}
use bind.Common.Bytes.{bytes_eq, bytes_eq→eq}
use bind.Config.{codes}
use bind.Manifest.Text.{
  is_empty, trim, before, split_where, split_once, lines, starts_with, contains, strip_prefix,
}
use bind.Manifest.Ids.{
  member, insert, all_lower, ends_with, is_id, add_tokens, referenced_ids, vectors, category_lines,
  declared_categories,
}
use bind.Manifest.Ids.Tokens.{member-append}
use bind.Manifest.Ids.Sources.{
  id_char, IsWordIn, spaced, IsIdText, SomeSource, SomeLine, Categorizes, IsLoader, lower-id_char,
  separates, words_lem,
}

-- What is in a set after a text has been put into it.
pub inserted :
    (s t : List ℕ) (out : List (List ℕ))
    → member s (insert t out) ≡ true
    → (member s out ≡ true) ⊎ (s ≡ t)
inserted s t out h = elim (Bool-cases (member s out)) [
  | inl there ↦ inl there
  | inr absent ↦ elim (Bool-cases (bytes_eq s t)) [
    | inl same ↦ inr (bytes_eq→eq s t same)
    | inr other ↦ absurd (ground (arith, member-append s out (t ∷ [])))
  ]
]

tokens_found :
    (P : List ℕ → Type 0) (id : List ℕ) (ts out : List (List ℕ))
    → All P ts
    → member id (add_tokens ts out) ≡ true
    → (member id out ≡ true) ⊎ (P id × (is_id id ≡ true))
tokens_found P id [] out ps h = inl h
tokens_found P id (t ∷ ts) out (p, ps) h = elim (Bool-cases (is_id t)) [
  | inr left ↦ tokens_found P id ts out ps (rw left at h)
  | inl put ↦ elim (tokens_found P id ts (insert t out) ps (rw put at h)) [
    | inr later ↦ inr later
    | inl m ↦ elim (inserted id t out m) [
      | inl earlier ↦ inl earlier
      | inr same ↦ inr (rw same (p, put))
    ]
  ]
]

abbrev pub IsNamedIn : List ℕ → List ℕ → Type 0
IsNamedIn id text = IsWordIn id (spaced text)

ids_found :
    (id : List ℕ) (sources : List (Option (List ℕ))) (out : List (List ℕ))
    → member id (referenced_ids sources out) ≡ true
    → (member id out ≡ true) ⊎ (SomeSource (IsNamedIn id) sources × (is_id id ≡ true))
unfolding referenced_ids
ids_found id [] out h = inl h
ids_found id (none ∷ sources) out h = ids_found id sources out h
ids_found id (some text ∷ sources) out h =
    elim (ids_found id sources (add_tokens (split_where separates text) out) h) [
      | inr (later, form) ↦ inr (inr later, form)
      | inl m ↦ elim (tokens_found (λ t. IsNamedIn t text) id _ out (words_lem text) m) [
        | inl earlier ↦ inl earlier
        | inr (here, form) ↦ inr (inl here, form)
      ]
    ]

ends_with-snoc : (d : ℕ) (s : List ℕ) → ends_with d (s ++ (d ∷ [])) ≡ true
ends_with-snoc d [] = ground arith
ends_with-snoc d (c ∷ s) = rw (ends_with-snoc d s) (go s)
  where
    go : (t : List ℕ) → (if is_empty (t ++ (d ∷ [])) then c == d else true) ≡ true
    go [] = refl
    go (e ∷ t) = refl

abbrev or_empty : Option (List ℕ × List ℕ) → List ℕ × List ℕ
or_empty none = ([], [])
or_empty (some s) = s

split_once_lem : (d : ℕ) (s a b : List ℕ) → split_once d s ≡ some (a, b) → s ≡ a ++ (d ∷ b)
split_once_lem d [] a b h = cc
split_once_lem d (c ∷ s) a b h = elim (Bool-cases (c == d)) [
  | inl here ↦
      let e = ap or_empty (rw here at h) in
      let is_d = (==_iff c d).0 here in λ i. (e i).0 ++ (is_d i ∷ (e i).1)
  | inr other ↦ elim (Option-cases (split_once d s)) [
    | inl absent ↦ absurd (cc (rw (other, absent) at h))
    | inr ((head, tail), later) ↦
        let e = ap or_empty (rw (other, later) at h) in
        ap (λ t. c ∷ t) (split_once_lem d s head tail later) ∙ λ i. (e i).0 ++ (d ∷ (e i).1)
  ]
]

lower_lem : (s : List ℕ) → all_lower s ≡ true → All (λ c. id_char c ≡ true) s
lower_lem [] h = tt
lower_lem (c ∷ s) h = (lower-id_char c (ground arith), lower_lem s (ground arith))

is_id_lem : (id : List ℕ) → is_id id ≡ true → IsIdText id
is_id_lem id h = elim (Option-cases (split_once b'-' id)) [
  | inl absent ↦ absurd (cc (rw absent at h))
  | inr ((head, tail), split) ↦
      let sides = rw split at h in
      record {
        head = head;
        tail = tail;
        parts = split_once_lem b'-' id head tail split;
        head_there = ground arith;
        tail_there = ground arith;
        no_last_dash = λ s e. ground (arith, ap (ends_with b'-') e ∙ ends_with-snoc b'-' s);
        chars = lower_lem id (ground arith);
      }
]

starts_with_lem : (p s : List ℕ) → starts_with p s ≡ true → (rest : List ℕ) × (s ≡ p ++ rest)
starts_with_lem [] s h = (s, refl)
starts_with_lem (a ∷ p) [] h = cc
starts_with_lem (a ∷ p) (c ∷ s) h =
    let (rest, e) = starts_with_lem p s (ground arith) in
    let same : c ≡ a = ground arith in (rest, λ i. same i ∷ e i)

contains_lem :
    (p s : List ℕ) → contains p s ≡ true → (a : List ℕ) × ((b : List ℕ) × (s ≡ a ++ (p ++ b)))
contains_lem p [] h = let (rest, e) = starts_with_lem p [] h in ([], (rest, e))
contains_lem p (c ∷ s) h = elim (Bool-cases (starts_with p (c ∷ s))) [
  | inl here ↦ let (rest, e) = starts_with_lem p (c ∷ s) here in ([], (rest, e))
  | inr other ↦
      let (a, (b, e)) = contains_lem p s (rw other at h) in (c ∷ a, (b, ap (λ t. c ∷ t) e))
]

strip_prefix_lem : (p s rest : List ℕ) → strip_prefix p s ≡ some rest → s ≡ p ++ rest
strip_prefix_lem [] s rest h = cc
strip_prefix_lem (a ∷ p) [] rest h = cc
strip_prefix_lem (a ∷ p) (c ∷ s) rest h = elim (Bool-cases (a == c)) [
  | inr other ↦ absurd (cc (rw other at h))
  | inl same ↦
      let e = strip_prefix_lem p s rest (rw same at h) in
      let is_a : c ≡ a = ground arith in λ i. is_a i ∷ e i
]

lines_found :
    (category : List ℕ) (ls out : List (List ℕ))
    → member category (category_lines ls out) ≡ true
    → (member category out ≡ true) ⊎ SomeLine (Categorizes category) ls
lines_found category [] out h = inl h
lines_found category (l ∷ ls) out h =
    elim (Option-cases (strip_prefix (codes "//! vector-category:") (trim l))) [
      | inl absent ↦ elim (lines_found category ls out (rw absent at h)) [
        | inl earlier ↦ inl earlier
        | inr later ↦ inr (inr later)
      ]
      | inr (rest, read) ↦ elim (Bool-cases (is_empty (trim rest))) [
        | inl nameless ↦ elim (lines_found category ls out (rw (read, nameless) at h)) [
          | inl earlier ↦ inl earlier
          | inr later ↦ inr (inr later)
        ]
        | inr named ↦
            elim (lines_found category ls (insert (trim rest) out) (rw (read, named) at h)) [
              | inr later ↦ inr (inr later)
              | inl m ↦ elim (inserted category (trim rest) out m) [
                | inl earlier ↦ inl earlier
                | inr same ↦ inr (
                    inl (record {
                      rest = rest;
                      parts = strip_prefix_lem (codes "//! vector-category:") (trim l) rest read;
                      name = sym same;
                      there = rw same named;
                    }))
              ]
            ]
      ]
    ]

categories_found :
    (category : List ℕ) (sources : List (Option (List ℕ))) (out : List (List ℕ))
    → member category (declared_categories sources out) ≡ true
    → (member category out ≡ true) ⊎ SomeSource (IsLoader category) sources
unfolding declared_categories
categories_found category [] out h = inl h
categories_found category (none ∷ sources) out h = categories_found category sources out h
categories_found category (some text ∷ sources) out h = elim (Bool-cases (contains vectors text)) [
  | inr other ↦ elim (categories_found category sources out (rw other at h)) [
    | inl earlier ↦ inl earlier
    | inr later ↦ inr (inr later)
  ]
  | inl loads ↦
      elim (categories_found category sources (category_lines (lines text) out) (rw loads at h)) [
        | inr later ↦ inr (inr later)
        | inl m ↦ elim (lines_found category (lines text) out m) [
          | inl earlier ↦ inl earlier
          | inr line ↦
              let (a, (b, e)) = contains_lem vectors text loads in
              inr (inl (record { before = a; after = b; has_path = e; line = line }))
        ]
      ]
]

-- An id that the sources are found to name is a word of one of them and has the form of an id.
pub named_lem :
    (id : List ℕ) (sources : List (Option (List ℕ)))
    → member id (referenced_ids sources []) ≡ true
    → SomeSource (IsNamedIn id) sources × IsIdText id
named_lem id sources h = elim (ids_found id sources [] h) [
  | inl before ↦ absurd (cc)
  | inr (there, form) ↦ (there, is_id_lem id form)
]

-- A category that the sources are found to declare has a loader among them.
pub loaded_lem :
    (category : List ℕ) (sources : List (Option (List ℕ)))
    → member category (declared_categories sources []) ≡ true
    → SomeSource (IsLoader category) sources
loaded_lem category sources h = elim (categories_found category sources [] h) [
  | inl before ↦ absurd (cc)
  | inr there ↦ there
]
