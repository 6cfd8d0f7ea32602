-- ===== src/ReplayCache/AssocMap.antt =====
-- A list of pairs as a map: it satisfies the laws of ReplayCache/Map, for runs and examples.
use bind.Common.{
  suc, ◌≤◌, ◌≡◌, refl, arith, Bool, true, Option, none, some, is_some, List, [], ◌∷◌, length, ◌==◌,
  if◌then◌else◌, Bool-cases, inl, inr,
}
use bind.ReplayCache.{ReplayKey, ReplayEntry, ReplayMap, key_eq}
use bind.ReplayCache.Trace.{key_eq→eq}
use bind.ReplayCache.Map.{keep_if}

abbrev pub Pairs : Type 0
Pairs = List (ReplayKey × ReplayEntry)

abbrev pub get : Pairs → ReplayKey → Option ReplayEntry
get [] k = none
get ((j, v) ∷ m) k = if key_eq j k then some v else get m k

abbrev pub put : ReplayKey → ReplayEntry → Pairs → Pairs
put k v [] = (k, v) ∷ []
put k v ((j, w) ∷ m) = if key_eq j k then (k, v) ∷ m else (j, w) ∷ put k v m

abbrev pub delete : ReplayKey → Pairs → Pairs
delete k [] = []
delete k ((j, w) ∷ m) = let rest = delete k m in if key_eq j k then rest else (j, w) ∷ rest

-- Dropping a pair drops any later pair of its key as well; a list that `put` built has none.
abbrev pub retain : (ReplayKey → ReplayEntry → Bool) → Pairs → Pairs
retain p [] = []
retain p ((j, w) ∷ m) = let rest = retain p m in if p j w then (j, w) ∷ rest else delete j rest

pub get-put :
    (k : ReplayKey) (v : ReplayEntry) (m : Pairs) (j : ReplayKey)
    → get (put k v m) j ≡ (if key_eq k j then some v else get m j)
get-put k v [] j = refl
get-put k v ((i, w) ∷ m) j = ground (arith, get-put k v m j)

pub length-put :
    (k : ReplayKey) (v : ReplayEntry) (m : Pairs)
    → length (put k v m) ≡ (if is_some (get m k) then length m else suc (length m))
length-put k v [] = refl
length-put k v ((i, w) ∷ m) = ground (arith, length-put k v m)

pub get-delete :
    (k : ReplayKey) (m : Pairs) (j : ReplayKey)
    → get (delete k m) j ≡ (if key_eq k j then none else get m j)
get-delete k [] j = ground arith
get-delete k ((i, w) ∷ m) j = ground (arith, get-delete k m j)

pub length-delete : (k : ReplayKey) (m : Pairs) → length (delete k m) ≤ length m
length-delete k [] = omega arith
length-delete k ((i, w) ∷ m) = ground (arith, length-delete k m)

same_key :
    (p : ReplayKey → ReplayEntry → Bool) (i j : ReplayKey) (w : ReplayEntry) (m : Pairs)
    → i ≡ j
    → key_eq i j ≡ true
    → get (retain p ((i, w) ∷ m)) j ≡ keep_if p j (get ((i, w) ∷ m) j)
same_key p i j w m e same = elim (Bool-cases (p i w)) [
  | inl kept ↦ rw (kept, same) (rw (← e, kept))
  | inr gone ↦ rw (gone, get-delete i (retain p m) j, same) (rw (← e, gone))
]

pub get-retain :
    (p : ReplayKey → ReplayEntry → Bool) (m : Pairs) (j : ReplayKey)
    → get (retain p m) j ≡ keep_if p j (get m j)
get-retain p [] j = refl
get-retain p ((i, w) ∷ m) j = elim (Bool-cases (key_eq i j)) [
  | inl same ↦ same_key p i j w m (key_eq→eq i j same) same
  | inr other ↦ ground (arith, get-retain p m j, get-delete i (retain p m) j)
]

pub length-retain :
    (p : ReplayKey → ReplayEntry → Bool) (m : Pairs) → length (retain p m) ≤ length m
length-retain p [] = omega arith
length-retain p ((i, w) ∷ m) = ground (arith, length-retain p m, length-delete i (retain p m))

pub pair_is_empty_lem : (m : Pairs) → (length m == 0) ≡ (length m == 0)
pair_is_empty_lem m = refl

abbrev pub assoc_map : ReplayMap Pairs
assoc_map = record {
  empty = [];
  get = get;
  insert = λ k v m. (put k v m, get m k);
  remove = λ k m. (delete k m, get m k);
  retain = retain;
  clear = λ m. [];
  len = length;
  is_empty = λ m. length m == 0;
  get-empty = λ k. refl;
  len-empty = refl;
  insert_old = λ k v m. refl;
  get-insert = get-put;
  len-insert = length-put;
  remove_old = λ k m. refl;
  get-remove = get-delete;
  len-remove = length-delete;
  get-retain = get-retain;
  len-retain = length-retain;
  get-clear = λ m j. refl;
  len-clear = λ m. refl;
  is_empty_lem = pair_is_empty_lem;
}
