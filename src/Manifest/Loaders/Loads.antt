-- ===== src/Manifest/Loaders/Loads.antt =====
-- What the five-vector assertion of tests/vector_pfp_codec.rs and tests/vector_sap_codec.rs shows, and the
-- loops over the vectors that are loaded.
use bind.Common.{
  ◌≡◌, refl, sym, ap, ◌∙◌, Option, none, some, List, [], ◌∷◌, map, length, ◌==◌, ==_iff, All, ok,
  ◌>>=◌, assert, or_panic,
}
use bind.Manifest.Passes.{
  Run, each, assert_last, bind_passes, ok_injective, or_panic_passes, each_passes, passes_each,
}
use bind.Manifest.Loaders.{deserialized, load}

deserialized-map : {V : Type 0} (vs : List V) → deserialized (map some vs) ≡ ok vs
deserialized-map [] = refl
deserialized-map (v ∷ vs) = rw (deserialized-map vs) refl

deserialized_passes :
    {V : Type 0} (list : List (Option V)) (vs : List V)
    → deserialized list ≡ ok vs
    → list ≡ map some vs
deserialized_passes [] vs e = ap (map some) (ok_injective [] vs e)
deserialized_passes (o ∷ list) vs e =
    let (v, is_v, e1) = bind_passes (or_panic o) _ vs e in
    let (rest, is_rest, e2) = bind_passes (deserialized list) _ vs e1 in
    (λ i. or_panic_passes o v is_v i ∷ deserialized_passes list rest is_rest i)
    ∙ ap (map some) (ok_injective (v ∷ rest) vs e2)

-- Five vectors are loaded, and nothing else is.
pub load_five : {V : Type 0} (vs : List V) → length vs ≡ 5 → load (some (map some vs)) ≡ ok vs
unfolding load
load_five vs five = rw (deserialized-map vs, five) refl

pub load_passes :
    {V : Type 0} (json : Option (List (Option V))) (vs : List V)
    → load json ≡ ok vs
    → (json ≡ some (map some vs)) × (length vs ≡ 5)
unfolding load
load_passes none vs e = cc
load_passes (some list) vs e =
    let (out, is_out, e1) = bind_passes (deserialized list) _ vs e in
    let (u, five, e2) = bind_passes (assert (length out == 5)) _ vs e1 in
    let same_vectors = ok_injective out vs e2 in
    (
      ap some (deserialized_passes list out is_out ∙ ap (map some) same_vectors),
      ap length (sym same_vectors) ∙ (==_iff (length out) 5).0 (assert_last (length out == 5) five),
    )

module _ {V : Type 0} (check : V → Run (Unit {0})) where
  -- A test that loads the vectors and checks each passes for five vectors that pass, and only then.
  pub loaded_pass :
      (vs : List V)
      → length vs ≡ 5
      → All (λ v. check v ≡ ok tt) vs
      → (load (some (map some vs)) >>= each check) ≡ ok tt
  loaded_pass vs five h = rw (load_five vs five) (passes_each check vs h)

  pub pass_loaded :
      (json : Option (List (Option V)))
      → (load json >>= each check) ≡ ok tt
      → (vs : List V) × (json ≡ some (map some vs))
        × (length vs ≡ 5)
        × All (λ v. check v ≡ ok tt) vs
  pass_loaded json e =
      let (vs, is_vs, rest) = bind_passes (load json) (each check) tt e in
      let (json_is, five) = load_passes json vs is_vs in
      (vs, json_is, five, each_passes check vs rest)
