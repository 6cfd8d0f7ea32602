-- ===== src/ReplayCache/Honest.antt =====
-- Honest traffic at the replay cache of src/replay_cache.rs: every source counts upwards.
use bind.Common.{
  ℕ, ◌+◌, ◌≤◌, ◌<◌, ◌≡◌, ◌↔◌, refl, sym, ap, ◌∙◌, arith, Option, none, some, List, [], ◌∷◌, length,
  replicate, if◌then◌else◌,
}
use mathlib.Core.Path.{subst}
use bind.ReplayCache.{
  ReplayKey, ReplayCache, ReplayMap, ReplayCheckResult, allowed, rejected, key_eq,
  replay_cache_max_capacity, check_and_update, last_seq, len,
}
use bind.ReplayCache.Check.{verdict, check_and_update_lem, len-check_and_update}
use bind.ReplayCache.Trace.{Request, IsAbove, verdict-IsAbove}

-- Each request's counter is above the last one of its source, whether the cache had it or an earlier
-- request did.
abbrev pub IsHonest : (ReplayKey → Option ℕ) → List Request → Type 0
IsHonest last [] = Unit
IsHonest last (r ∷ rs) =
    IsAbove (last r.key) r.seq × IsHonest (λ j. if key_eq r.key j then some r.seq else last j) rs

above-allowed :
    (last : Option ℕ) (size seq : ℕ)
    → size < replay_cache_max_capacity
    → IsAbove last seq
    → verdict last size seq ≡ allowed
above-allowed none size seq room a = ground arith
above-allowed (some last) size seq room a = ground arith

abbrev first : List ReplayCheckResult → ReplayCheckResult
first [] = rejected
first (r ∷ rs) = r

abbrev others : List ReplayCheckResult → List ReplayCheckResult
others [] = []
others (r ∷ rs) = rs

module _ {M : Type 0} (map : ReplayMap M) where
  -- The answers to the requests, in their order.
  unfoldable pub results : ReplayCache M → List Request → List ReplayCheckResult
  results c [] = []
  results c (r ∷ rs) =
      let (c', answer) = check_and_update map r.key r.seq r.now c in answer ∷ results c' rs

  abbrev pub lasts : ReplayCache M → ReplayKey → Option ℕ
  lasts c j = last_seq map j c

  step_lasts :
      (r : Request) (c : ReplayCache M)
      → (check_and_update map r.key r.seq r.now c).1 ≡ allowed
      → lasts (check_and_update map r.key r.seq r.now c).0
        ≡ (λ j. if key_eq r.key j then some r.seq else lasts c j)
  step_lasts r c ok i j = kept j i
    where
      kept :
          (j : ReplayKey)
          → last_seq map j (check_and_update map r.key r.seq r.now c).0
            ≡ (if key_eq r.key j then some r.seq else last_seq map j c)
      kept j = (check_and_update_lem map r.key r.seq r.now c j).1 ∙ rw ok refl

  pub step_len :
      (r : Request) (c : ReplayCache M)
      → len map (check_and_update map r.key r.seq r.now c).0 ≤ len map c + 1
  step_len r c = ground (arith, len-check_and_update map r.key r.seq r.now c)

  IsHonest-allowed :
      (c : ReplayCache M) (rs : List Request)
      → len map c + length rs ≤ replay_cache_max_capacity
      → IsHonest (lasts c) rs
      → results c rs ≡ replicate (length rs) allowed
  unfolding results
  IsHonest-allowed c [] room h = refl
  IsHonest-allowed c (r ∷ rs) room (above, later) =
      let c' = (check_and_update map r.key r.seq r.now c).0 in
      let ok : (check_and_update map r.key r.seq r.now c).1 ≡ allowed =
        (check_and_update_lem map r.key r.seq r.now c r.key).0
        ∙ above-allowed (last_seq map r.key c) (len map c) r.seq (omega arith) above in
      let rest =
        IsHonest-allowed c' rs (omega (arith, step_len r c))
          (subst (λ l. IsHonest l rs) (sym (step_lasts r c ok)) later) in
      λ i. ok i ∷ rest i

  allowed-IsHonest :
      (c : ReplayCache M) (rs : List Request)
      → results c rs ≡ replicate (length rs) allowed
      → IsHonest (lasts c) rs
  unfolding results
  allowed-IsHonest c [] h = tt
  allowed-IsHonest c (r ∷ rs) h =
      let c' = (check_and_update map r.key r.seq r.now c).0 in
      let ok : (check_and_update map r.key r.seq r.now c).1 ≡ allowed = ap first h in
      (
        verdict-IsAbove (last_seq map r.key c) (len map c) r.seq
            (sym (check_and_update_lem map r.key r.seq r.now c r.key).0 ∙ ok),
        subst (λ l. IsHonest l rs) (step_lasts r c ok) (allowed-IsHonest c' rs (ap others h)),
      )

  -- Over requests of any sources that cannot fill the cache up, all are allowed exactly if each one's
  -- counter is above the last one of its source before it.
  pub results-IsHonest :
      (c : ReplayCache M) (rs : List Request)
      → len map c + length rs ≤ replay_cache_max_capacity
      → (results c rs ≡ replicate (length rs) allowed) ↔ IsHonest (lasts c) rs
  results-IsHonest c rs room = (allowed-IsHonest c rs, IsHonest-allowed c rs room)
