-- ===== src/ReplayCache/Map.antt =====
-- What src/replay_cache.rs relies on of the concurrent map of the `dashmap` crate, which is not part
-- of the repository: its operations, and their documented behaviour between concurrent calls.
use bind.Common.{ℕ, suc, ◌≤◌, ◌≡◌, Bool, Option, none, some, is_some, ◌==◌, if◌then◌else◌}

abbrev pub keep_if {ℓ κ} : {K : Type ℓ} {V : Type κ} → (K → V → Bool) → K → Option V → Option V
keep_if p k none = none
keep_if p k (some v) = if p k v then some v else none

-- `M` is the type of the maps from `K` to `V`, and `eq` the equality of keys.
pub record DashMap (M K V : Type 0) (eq : K → K → Bool) : Type 0 where
  pub empty : M
  pub get : M → K → Option V
  -- The map after the insertion, and the value that the key had.
  pub insert : K → V → M → M × Option V
  pub remove : K → M → M × Option V
  pub retain : (K → V → Bool) → M → M
  pub clear : M → M
  pub len : M → ℕ
  pub is_empty : M → Bool
  pub get-empty : (k : K) → get empty k ≡ none
  pub len-empty : len empty ≡ 0
  pub insert_old : (k : K) (v : V) (m : M) → (insert k v m).1 ≡ get m k
  pub get-insert :
      (k : K) (v : V) (m : M) (j : K)
      → get (insert k v m).0 j ≡ (if eq k j then some v else get m j)
  pub len-insert :
      (k : K) (v : V) (m : M)
      → len (insert k v m).0 ≡ (if is_some (get m k) then len m else suc (len m))
  pub remove_old : (k : K) (m : M) → (remove k m).1 ≡ get m k
  pub get-remove :
      (k : K) (m : M) (j : K) → get (remove k m).0 j ≡ (if eq k j then none else get m j)
  pub len-remove : (k : K) (m : M) → len (remove k m).0 ≤ len m
  pub get-retain : (p : K → V → Bool) (m : M) (j : K) → get (retain p m) j ≡ keep_if p j (get m j)
  pub len-retain : (p : K → V → Bool) (m : M) → len (retain p m) ≤ len m
  pub get-clear : (m : M) (j : K) → get (clear m) j ≡ none
  pub len-clear : (m : M) → len (clear m) ≡ 0
  pub is_empty_lem : (m : M) → is_empty m ≡ (len m == 0)
