-- ===== src/ReplayCache/Isolation.antt =====
-- Tenants of the replay cache of src/replay_cache.rs do not see each other.
use bind.Common.{
  ℕ, ◌+◌, ◌≤◌, ◌<◌, ◌≡◌, refl, sym, ap, ◌∙◌, arith, false, ◌==◌, Option, none, some, List, [], ◌∷◌,
  length, if◌then◌else◌, Bool-cases, inl, inr,
}
use bind.ReplayCache.{
  ReplayKey, ReplayCache, ReplayMap, ReplayCheckResult, key_eq, replay_cache_max_capacity,
  check_and_update, last_seq, len,
}
use bind.ReplayCache.Check.{verdict, check_and_update_lem}
use bind.ReplayCache.Trace.{Request}
use bind.ReplayCache.Honest.{results, step_len}

-- The requests of one tenant.
abbrev pub only : ℕ → List Request → List Request
only tenant [] = []
only tenant (r ∷ rs) =
    let rest = only tenant rs in if r.key.tenant_id == tenant then r ∷ rest else rest

length-only : (tenant : ℕ) (rs : List Request) → length (only tenant rs) ≤ length rs
length-only tenant [] = omega arith
length-only tenant (r ∷ rs) = ground (arith, length-only tenant rs)

same_verdict :
    (last : Option ℕ) (m n seq : ℕ)
    → m < replay_cache_max_capacity
    → n < replay_cache_max_capacity
    → verdict last m seq ≡ verdict last n seq
same_verdict none m n seq a b = ground arith
same_verdict (some last) m n seq a b = refl

other_key :
    (k j : ReplayKey) (tenant : ℕ)
    → k.tenant_id == tenant ≡ false
    → j.tenant_id ≡ tenant
    → key_eq k j ≡ false
other_key k j tenant other mine = ground arith

module _ {M : Type 0} (map : ReplayMap M) (tenant : ℕ) where
  -- The answers that the tenant gets among requests of all.
  unfoldable pub own_results : ReplayCache M → List Request → List ReplayCheckResult
  own_results c [] = []
  own_results c (r ∷ rs) =
      let (c', answer) = check_and_update map r.key r.seq r.now c in
      let rest = own_results c' rs in if r.key.tenant_id == tenant then answer ∷ rest else rest

  abbrev Agree : ReplayCache M → ReplayCache M → Type 0
  Agree c d = (j : ReplayKey) → j.tenant_id ≡ tenant → last_seq map j c ≡ last_seq map j d

  same_answer :
      (r : Request) (c d : ReplayCache M)
      → Agree c d
      → r.key.tenant_id ≡ tenant
      → len map c < replay_cache_max_capacity
      → len map d < replay_cache_max_capacity
      → (check_and_update map r.key r.seq r.now c).1 ≡ (check_and_update map r.key r.seq r.now d).1
  same_answer r c d agree mine room room' =
      (check_and_update_lem map r.key r.seq r.now c r.key).0
      ∙ same_verdict _ (len map c) (len map d) r.seq room room'
      ∙ ap (λ l. verdict l (len map d) r.seq) (agree r.key mine)
      ∙ sym (check_and_update_lem map r.key r.seq r.now d r.key).0

  step-Agree :
      (r : Request) (c d : ReplayCache M)
      → Agree c d
      → (check_and_update map r.key r.seq r.now c).1 ≡ (check_and_update map r.key r.seq r.now d).1
      → Agree
          (check_and_update map r.key r.seq r.now c).0
          (check_and_update map r.key r.seq r.now d).0
  step-Agree r c d agree same j mine =
      (check_and_update_lem map r.key r.seq r.now c j).1
      ∙ rw (same, agree j mine) refl
      ∙ sym (check_and_update_lem map r.key r.seq r.now d j).1

  step_other-Agree :
      (r : Request) (c d : ReplayCache M)
      → Agree c d
      → r.key.tenant_id == tenant ≡ false
      → Agree (check_and_update map r.key r.seq r.now c).0 d
  step_other-Agree r c d agree other j mine =
      (check_and_update_lem map r.key r.seq r.now c j).1
      ∙ rw (other_key r.key j tenant other mine) (ground arith)
      ∙ agree j mine

  isolated :
      (rs : List Request) (c d : ReplayCache M)
      → Agree c d
      → len map c + length rs ≤ replay_cache_max_capacity
      → len map d + length (only tenant rs) ≤ replay_cache_max_capacity
      → own_results c rs ≡ results map d (only tenant rs)
  unfolding own_results results
  isolated [] c d agree room room' = refl
  isolated (r ∷ rs) c d agree room room' = elim (Bool-cases (r.key.tenant_id == tenant)) [
    | inl mine ↦
        let answer = same_answer r c d agree (ground arith) (omega arith) (ground arith) in
        let rest =
          isolated rs (check_and_update map r.key r.seq r.now c).0
            (check_and_update map r.key r.seq r.now d).0 (step-Agree r c d agree answer)
            (omega (arith, step_len map r c)) (ground (arith, step_len map r d)) in
        rw mine (λ i. answer i ∷ rest i)
    | inr other ↦
        let rest =
          isolated rs (check_and_update map r.key r.seq r.now c).0 d
            (step_other-Agree r c d agree other) (omega (arith, step_len map r c)) (ground arith) in
        rw other rest
  ]

  -- In any requests of any tenants that cannot fill the cache up, a tenant gets the answers that it
  -- would get if its requests were the only ones.
  pub own_results_lem :
      (rs : List Request) (c : ReplayCache M)
      → len map c + length rs ≤ replay_cache_max_capacity
      → own_results c rs ≡ results map c (only tenant rs)
  own_results_lem rs c room =
      isolated rs c c (λ j mine. refl) room (omega (arith, length-only tenant rs))
