-- ===== src/ReplayCache/Trace.antt =====
-- Sequences of calls of `check_and_update` of src/replay_cache.rs.
use bind.Common.{
  ℕ, ◌≤◌, ◌<◌, ◌≡◌, refl, sym, ◌∙◌, arith, true, ◌&&◌, Option, none, some, List, [], ◌∷◌,
  if◌then◌else◌, Bool-cases, inl, inr,
}
use bind.ReplayCache.{
  ReplayKey, ReplayCache, ReplayMap, ReplayCheckResult, allowed, rejected, cache_full, key_eq,
  replay_cache_max_capacity, check_and_update, last_seq, len,
}
use bind.ReplayCache.Check.{verdict, is_allowed, check_and_update_lem, len-check_and_update}

pub record Request : Type 0 where
  pub key : ReplayKey
  pub seq : ℕ
  pub now : ℕ

-- The first counter is above `last`, and each later one above the one before it.
abbrev pub Ascends : Option ℕ → List ℕ → Type 0
Ascends last [] = Unit
Ascends none (x ∷ xs) = Ascends (some x) xs
Ascends (some last) (x ∷ xs) = (last < x) × Ascends (some x) xs

-- The counter is above the last one, if there is one.
abbrev pub IsAbove : Option ℕ → ℕ → Type 0
IsAbove none x = Unit
IsAbove (some last) x = last < x

Ascends-cons :
    (last : Option ℕ) (x : ℕ) (xs : List ℕ)
    → IsAbove last x
    → Ascends (some x) xs
    → Ascends last (x ∷ xs)
Ascends-cons none x xs a h = h
Ascends-cons (some last) x xs a h = (a, h)

pub verdict-IsAbove :
    (last : Option ℕ) (size seq : ℕ) → verdict last size seq ≡ allowed → IsAbove last seq
verdict-IsAbove none size seq h = tt
verdict-IsAbove (some last) size seq h = ground arith

pub is_allowed→eq : (r : ReplayCheckResult) → is_allowed r ≡ true → r ≡ allowed
is_allowed→eq allowed h = refl
is_allowed→eq rejected h = cc
is_allowed→eq cache_full h = cc

pub key_eq→eq : (a b : ReplayKey) → key_eq a b ≡ true → a ≡ b
key_eq→eq a b h = ground arith

len_step :
    {M : Type 0} (map : ReplayMap M) (key : ReplayKey) (seq now : ℕ) (c : ReplayCache M)
    → len map c ≤ replay_cache_max_capacity
    → len map (check_and_update map key seq now c).0 ≤ replay_cache_max_capacity
len_step map key seq now c h =
    ground
      (arith, len-check_and_update map key seq now c, check_and_update_lem map key seq now c key)

module _ {M : Type 0} (map : ReplayMap M) where
  -- The cache after the requests, in their order.
  unfoldable pub run : ReplayCache M → List Request → ReplayCache M
  run c [] = c
  run c (r ∷ rs) = run (check_and_update map r.key r.seq r.now c).0 rs

  -- The counters of one source that the cache allows, in their order.
  unfoldable pub allowed_seqs : ReplayKey → ReplayCache M → List Request → List ℕ
  allowed_seqs key c [] = []
  allowed_seqs key c (r ∷ rs) =
      let (c', answer) = check_and_update map r.key r.seq r.now c in
      let rest = allowed_seqs key c' rs in
      if is_allowed answer && key_eq r.key key then r.seq ∷ rest else rest

  -- Over any requests of any sources, the counters that the cache allows for one source ascend
  -- strictly, from above the last one that the cache held for it; so none is allowed twice.
  pub allowed_seqs-Ascends :
      (key : ReplayKey) (c : ReplayCache M) (rs : List Request)
      → Ascends (last_seq map key c) (allowed_seqs key c rs)
  unfolding allowed_seqs
  allowed_seqs-Ascends key c [] = tt
  allowed_seqs-Ascends key c (r ∷ rs) =
      let c' = (check_and_update map r.key r.seq r.now c).0 in
      let answer = (check_and_update map r.key r.seq r.now c).1 in
      let (answered, kept) = check_and_update_lem map r.key r.seq r.now c key in
      let later = allowed_seqs-Ascends key c' rs in
      elim (Bool-cases (is_allowed answer && key_eq r.key key)) [
        | inl mine ↦
            let same = key_eq→eq r.key key (ground arith) in
            rw mine (
              Ascends-cons (last_seq map key c) r.seq (allowed_seqs key c' rs)
                (verdict-IsAbove (last_seq map key c) (len map c) r.seq
                  (rw (← same) (sym answered ∙ is_allowed→eq answer (ground arith))))
                (rw (kept, mine) at later))
        | inr other ↦ rw other (rw (kept, other) at later)
      ]

  -- No requests make a cache that is within its capacity pass it.
  pub run_capacity :
      (c : ReplayCache M) (rs : List Request)
      → len map c ≤ replay_cache_max_capacity
      → len map (run c rs) ≤ replay_cache_max_capacity
  unfolding run
  run_capacity c [] h = h
  run_capacity c (r ∷ rs) h =
      run_capacity (check_and_update map r.key r.seq r.now c).0 rs
        (len_step map r.key r.seq r.now c h)
