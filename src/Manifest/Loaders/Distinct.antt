-- ===== src/Manifest/Loaders/Distinct.antt =====
-- What `the_category_has_five_distinct_vectors` of tests/vector_pfp_codec.rs shows when it passes.
use bind.Common.{
  ℕ, ◌+◌, ◌≤◌, ◌≡◌, refl, arith, true, false, List, [], ◌∷◌, ◌++◌, map, length, length-append, ◌==◌,
  ==_iff, ok, Bool-cases, inl, inr,
}
use bind.Common.Bytes.{bytes_eq, bytes_eq→eq}
use bind.Manifest.Ids.{member, insert}
use bind.Manifest.Ids.Tokens.{member_self-insert, member-insert}
use bind.Manifest.Passes.{assert_passes, assert_last, bind_passes, ok_injective}
use bind.Manifest.Loaders.{collect}
use bind.Manifest.Loaders.Pfp.{Vector, encode_vector, encodings, five_distinct}

-- No text is there twice.
abbrev pub Distinct : List (List ℕ) → Type 0
Distinct [] = Unit {0}
Distinct (x ∷ xs) = (member x xs ≡ false) × Distinct xs

collect_small : (xs out : List (List ℕ)) → length (collect xs out) ≤ length out + length xs
collect_small [] out = omega arith
collect_small (x ∷ xs) out = elim (Bool-cases (member x out)) [
  | inl there ↦ rw there (omega (arith, collect_small xs out))
  | inr absent ↦
      rw absent (omega (arith, collect_small xs (out ++ (x ∷ [])), length-append out (x ∷ [])))
]

-- A set that is as large as the texts that are put into it has each of them once.
collect-Distinct :
    (xs out : List (List ℕ))
    → length (collect xs out) ≡ length out + length xs
    → Distinct xs × ((y : List ℕ) → member y xs ≡ true → member y out ≡ false)
collect-Distinct [] out h = (tt, λ y there. absurd (cc there))
collect-Distinct (x ∷ xs) out h = elim (Bool-cases (member x out)) [
  | inl there ↦ absurd (omega (arith, collect_small xs out, rw there at h))
  | inr absent ↦
      let new = insert x out in
      let grown : length new ≡ length out + 1 = rw absent (length-append out (x ∷ [])) in
      let (distinct, apart) = collect-Distinct xs new (omega (arith, h, grown)) in
      (
        (
          elim (Bool-cases (member x xs)) [
            | inl again ↦ absurd (cc (apart x again, member_self-insert x out))
            | inr once ↦ once
          ],
          distinct,
        ),
        λ y there. elim (Bool-cases (bytes_eq y x)) [
          | inl same ↦ rw (bytes_eq→eq y x same) absent
          | inr other ↦ elim (Bool-cases (member y out)) [
            | inl before ↦ absurd (cc (apart y (rw other at there), member-insert y x out before))
            | inr not_before ↦ not_before
          ]
        ],
      )
]

length-encodings :
    (vs : List Vector) (bytes : List (List ℕ)) → encodings vs ≡ ok bytes → length bytes ≡ length vs
length-encodings [] bytes h = rw (← ok_injective [] bytes h) refl
length-encodings (v ∷ vs) bytes h =
    let (got, one, e) = bind_passes (encode_vector v) _ bytes h in
    let (rest, others, f) = bind_passes (encodings vs) _ bytes e in
    rw (← ok_injective (got ∷ rest) bytes f) (omega (arith, length-encodings vs rest others))

as_large :
    (xs : List (List ℕ)) (n : ℕ)
    → length xs ≡ n
    → (length (collect xs []) == n) ≡ true
    → Distinct xs
as_large xs n len h =
    (collect-Distinct xs [] (omega (arith, len, (==_iff (length (collect xs [])) n).0 h))).0

-- If the test passes, then no two vectors have the same id, and no two the same encoding.
pub five_distinct_lem :
    (vs : List Vector)
    → five_distinct vs ≡ ok tt
    → Distinct (map (λ v. v.id) vs)
      × ((bytes : List (List ℕ)) × (encodings vs ≡ ok bytes) × Distinct bytes)
unfolding five_distinct
five_distinct_lem vs e =
    let ids : List (List ℕ) = map (λ v. v.id) vs in
    let (distinct, e1) = assert_passes (length (collect ids []) == length vs) _ e in
    let (bytes, encoded, e2) = bind_passes (encodings vs) _ tt e1 in
    (
      as_large ids (length vs) (length-map vs) distinct,
      (
        bytes,
        encoded,
        as_large bytes (length vs) (length-encodings vs bytes encoded)
            (assert_last (length (collect bytes []) == length vs) e2),
      ),
    )
  where
    length-map : (ws : List Vector) → length (map (λ (v : Vector). v.id) ws) ≡ length ws
    length-map [] = refl
    length-map (w ∷ ws) = omega (arith, length-map ws)
