-- ===== src/Manifest/Loaders/Golden.antt =====
-- What the comparison with a golden file shows when it passes.
use bind.Common.{
  ℕ, ◌≡◌, refl, sym, ap, ◌∙◌, Bool, true, false, ◌&&◌, some, List, [], ◌∷◌, map, All, ok, or_panic,
  Bool-cases, inl, inr,
}
use bind.Common.Bytes.{bytes_eq, bytes_eq→eq}
use bind.Manifest.Ids.{member}
use bind.Manifest.Passes.{Run, each, assert_last, bind_passes, or_panic_passes, each_passes}
use bind.Manifest.Loaders.{get, keys, subset, check_golden, matches_golden}

both_true : (a b : Bool) → a && b ≡ true → (a ≡ true) × (b ≡ true)
both_true true b h = (refl, h)
both_true false b h = cc

-- Every member of the smaller set is one of the larger.
subset_lem :
    (s t : List (List ℕ)) (x : List ℕ) → subset s t ≡ true → member x s ≡ true → member x t ≡ true
subset_lem [] t x h there = cc
subset_lem (y ∷ s) t x h there =
    let (first, rest) = both_true (member y t) (subset s t) h in
    elim (Bool-cases (bytes_eq x y)) [
      | inl same ↦ rw (bytes_eq→eq x y same) first
      | inr other ↦ subset_lem s t x rest (rw other at there)
    ]

module _ {ℓ} {V : Type ℓ} (id : V → List ℕ) (encoded_hex : V → Run (List ℕ)) where
  -- The golden file has an entry for the vector, which is the text of its encoding.
  pub record IsGolden (golden : List (List ℕ × List ℕ)) (v : V) : Type 0 where
    pub hex : List ℕ
    pub encoded : encoded_hex v ≡ ok hex
    pub entry : get (id v) golden ≡ some hex

  is_golden :
      (golden : List (List ℕ × List ℕ)) (v : V)
      → check_golden id encoded_hex golden v ≡ ok tt
      → IsGolden golden v
  is_golden golden v e =
      let (hex, encoded, e1) = bind_passes (encoded_hex v) _ tt e in
      let (want, found, e2) = bind_passes (or_panic (get (id v) golden)) _ tt e1 in
      record {
        hex = hex;
        encoded = encoded;
        entry =
            or_panic_passes (get (id v) golden) want found
            ∙ ap some (sym (bytes_eq→eq hex want (assert_last (bytes_eq hex want) e2)));
      }

  IsGolden-All :
      (golden : List (List ℕ × List ℕ)) (vs : List V)
      → All (λ v. check_golden id encoded_hex golden v ≡ ok tt) vs
      → All (IsGolden golden) vs
  IsGolden-All golden [] h = tt
  IsGolden-All golden (v ∷ vs) (e, h) = (is_golden golden v e, IsGolden-All golden vs h)

  -- If the comparison passes, the golden file has for every vector the text of its encoding, and it has
  -- an entry for an id exactly if there is a vector with that id.
  pub matches_golden_lem :
      (golden : List (List ℕ × List ℕ)) (vs : List V) (k : List ℕ)
      → matches_golden id encoded_hex golden vs ≡ ok tt
      → All (IsGolden golden) vs × (member k (keys golden) ≡ member k (map id vs))
  unfolding matches_golden
  matches_golden_lem golden vs k e =
      let (u, all_pass, last) = bind_passes (each (check_golden id encoded_hex golden) vs) _ tt e in
      let (to, from) =
        both_true (subset (map id vs) (keys golden)) (subset (keys golden) (map id vs)) (
          assert_last (subset (map id vs) (keys golden) && subset (keys golden) (map id vs))
            last) in
      (
        IsGolden-All golden vs (each_passes (check_golden id encoded_hex golden) vs all_pass),
        same_members (keys golden) (map id vs) from to,
      )
    where
      same_members :
          (s t : List (List ℕ)) → subset s t ≡ true → subset t s ≡ true → member k s ≡ member k t
      same_members s t h g = elim (Bool-cases (member k s)) [
        | inl there ↦ there ∙ sym (subset_lem s t k h there)
        | inr absent ↦ elim (Bool-cases (member k t)) [
          | inl here ↦ absurd (cc (absent, subset_lem t s k g here))
          | inr gone ↦ absent ∙ sym gone
        ]
      ]
