-- ===== src/ReplayCache/Refine.antt =====
-- The replay cache of src/replay_cache.rs refines a table: a function from sources to their entries,
-- which has no capacity.
use bind.Common.{
  ltb, ◌-◌, ℕ, ◌+◌, ◌≤◌, ◌<◌, ◌≡◌, refl, ap, ◌∙◌, arith, Bool, false, not, Option, none, some,
  is_some, List, [], ◌∷◌, length, leb, if◌then◌else◌, Option-cases, Bool-cases, inl, inr, gt→leb,
}
use bind.ReplayCache.{
  ReplayCache, ReplayKey, ReplayEntry, ReplayMap, ReplayCheckResult, allowed, rejected, key_eq,
  new_entry, update_seq, is_expired, replay_cache_max_capacity, check_and_update, remove, clear,
  cleanup_expired, len, check_only, last_seq,
}
use bind.ReplayCache.Map.{keep_if}
use bind.ReplayCache.Check.{known, fresh}

pub data Op : Type 0 where
  check : (key : ReplayKey) (seq now : ℕ) → Op
  forget : (key : ReplayKey) → Op
  forget_all : Op
  clean : (now : ℕ) → Op
  peek : (key : ReplayKey) (seq : ℕ) → Op
  look : (key : ReplayKey) → Op

pub data Answer : Type 0 where
  checked : ReplayCheckResult → Answer
  forgot : Bool → Answer
  silent : Answer
  cleaned : ℕ → Answer
  last : Option ℕ → Answer

abbrev pub Table : Type 0
Table = ReplayKey → Option ReplayEntry

abbrev pub update : ReplayKey → Option ReplayEntry → Table → Table
update key entry t j = if key_eq key j then entry else t j

-- What the table answers to a check, by the entry of the source.
abbrev pub spec_check : ReplayKey → ℕ → ℕ → Option ReplayEntry → Table → Table × Answer
spec_check key seq now none t = (update key (some (new_entry seq now)) t, checked allowed)
spec_check key seq now (some e) t =
    if leb seq e.last_seq
    then (t, checked rejected)
    else (update key (some (new_entry seq now)) t, checked allowed)

abbrev pub spec_peek : ℕ → Option ReplayEntry → ReplayCheckResult
spec_peek seq none = allowed
spec_peek seq (some e) = if ltb e.last_seq seq then allowed else rejected

abbrev pub spec_look : Option ReplayEntry → Option ℕ
spec_look none = none
spec_look (some e) = some e.last_seq

-- An entry lives up to the time of its last update plus the time to live, that time included.
abbrev pub spec_clean : ℕ → ℕ → Option ReplayEntry → Option ReplayEntry
spec_clean ttl now none = none
spec_clean ttl now (some e) = if leb now (e.last_update + ttl) then some e else none

-- The same operations on the table. `gone` is how many sources the operation forgets, which a cleanup
-- tells.
abbrev pub spec : ℕ → Op → ℕ → Table → Table × Answer
spec ttl (check key seq now) gone t = spec_check key seq now (t key) t
spec ttl (forget key) gone t = (update key none t, forgot (is_some (t key)))
spec ttl forget_all gone t = (λ j. none, silent)
spec ttl (clean now) gone t = (λ j. spec_clean ttl now (t j), cleaned gone)
spec ttl (peek key seq) gone t = (t, checked (spec_peek seq (t key)))
spec ttl (look key) gone t = (t, last (spec_look (t key)))

-- `gone` has an item for each operation.
abbrev pub first_of : List ℕ → ℕ
first_of [] = 0
first_of (n ∷ ns) = n

abbrev pub rest_of : List ℕ → List ℕ
rest_of [] = []
rest_of (n ∷ ns) = ns

unfoldable pub spec_run : ℕ → List Op → List ℕ → Table → Table
spec_run ttl [] gone t = t
spec_run ttl (o ∷ os) gone t = spec_run ttl os (rest_of gone) (spec ttl o (first_of gone) t).0

unfoldable pub spec_answers : ℕ → List Op → List ℕ → Table → List Answer
spec_answers ttl [] gone t = []
spec_answers ttl (o ∷ os) gone t =
    (spec ttl o (first_of gone) t).1
    ∷ spec_answers ttl os (rest_of gone) (spec ttl o (first_of gone) t).0

keep_young :
    (ttl now : ℕ) (j : ReplayKey) (o : Option ReplayEntry)
    → keep_if (λ k e. not (is_expired ttl now e)) j o ≡ spec_clean ttl now o
keep_young ttl now j none = refl
keep_young ttl now j (some e) = ground arith

module _ {M : Type 0} (map : ReplayMap M) where
  unfoldable pub apply : Op → ReplayCache M → ReplayCache M × Answer
  apply (check key seq now) c =
      let (c', answer) = check_and_update map key seq now c in (c', checked answer)
  apply (forget key) c = let (c', was) = remove map key c in (c', forgot was)
  apply forget_all c = (clear map c, silent)
  apply (clean now) c = let (c', count) = cleanup_expired map now c in (c', cleaned count)
  apply (peek key seq) c = (c, checked (check_only map key seq c))
  apply (look key) c = (c, last (last_seq map key c))

  unfoldable pub run_ops : List Op → ReplayCache M → ReplayCache M
  run_ops [] c = c
  run_ops (o ∷ os) c = run_ops os (apply o c).0

  unfoldable pub answers : List Op → ReplayCache M → List Answer
  answers [] c = []
  answers (o ∷ os) c = (apply o c).1 ∷ answers os (apply o c).0

  -- By how many sources the cache shrinks in each operation.
  abbrev pub shrinks : List Op → ReplayCache M → List ℕ
  shrinks [] c = []
  shrinks (o ∷ os) c = (len map c - len map (apply o c).0) ∷ shrinks os (apply o c).0

  -- The table that a cache stands for.
  abbrev pub view : ReplayCache M → Table
  view c j = map.get c.entries j

  -- One step of the cache is the step of its table, with the same answer; the time to live stays, and
  -- the cache grows by at most one source.
  abbrev Refined : Op → ReplayCache M → ReplayCache M × Answer → Type 0
  Refined o c out =
      let gone = len map c - len map out.0 in
      (view out.0 ≡ (spec c.ttl o gone (view c)).0)
      × (out.1 ≡ (spec c.ttl o gone (view c)).1)
      × (out.0.ttl ≡ c.ttl)
      × (len map out.0 ≤ len map c + 1)

  Refined-check :
      (key : ReplayKey) (seq now : ℕ) (c : ReplayCache M)
      → len map c < replay_cache_max_capacity
      → Refined (check key seq now) c (apply (check key seq now) c)
  unfolding apply
  Refined-check key seq now c room = elim (Option-cases (map.get c.entries key)) [
    | inl h ↦
        rw (fresh map key seq now c h, h, full)
          (
            λ i j. map.get-insert key (new_entry seq now) c.entries j i,
            refl,
            refl,
            grown (new_entry seq now),
          )
    | inr (e, h) ↦ elim (Bool-cases (leb seq e.last_seq)) [
      | inl old ↦ rw (known map key seq now c e h, h, old) (refl, refl, refl, omega arith)
      | inr newer ↦
          rw (known map key seq now c e h, h, newer)
            (
              λ i j. map.get-insert key (update_seq seq now e) c.entries j i,
              refl,
              refl,
              grown (update_seq seq now e),
            )
    ]
  ]
    where
      full : leb replay_cache_max_capacity (map.len c.entries) ≡ false
      full = gt→leb replay_cache_max_capacity (map.len c.entries) (unfold len in room)

      grown :
          (v : ReplayEntry)
          → len map (record c { entries = (map.insert key v c.entries).0 }) ≤ len map c + 1
      grown v = unfold len in ground (arith, map.len-insert key v c.entries)

  peeks :
      (key : ReplayKey) (seq : ℕ) (c : ReplayCache M)
      → len map c < replay_cache_max_capacity
      → check_only map key seq c ≡ spec_peek seq (view c key)
  unfolding check_only len
  peeks key seq c room = elim (Option-cases (map.get c.entries key)) [
    | inl h ↦ rw (h, gt→leb replay_cache_max_capacity (map.len c.entries) room, check_only) refl
    | inr (e, h) ↦ rw h (elim (Bool-cases (leb seq e.last_seq)) [
      | inl old ↦ ground arith
      | inr newer ↦ ground arith
    ])
  ]

  looks : (key : ReplayKey) (c : ReplayCache M) → last_seq map key c ≡ spec_look (view c key)
  unfolding last_seq
  looks key c = elim (Option-cases (map.get c.entries key)) [
    | inl h ↦ rw h refl
    | inr (e, h) ↦ rw h refl
  ]

  apply-Refined :
      (o : Op) (c : ReplayCache M) → len map c < replay_cache_max_capacity → Refined o c (apply o c)
  unfolding apply remove clear cleanup_expired len check_only last_seq
  apply-Refined (check key seq now) c room = Refined-check key seq now c room
  apply-Refined (forget key) c room = (
    λ i j. map.get-remove key c.entries j i,
    ap (λ o. forgot (is_some o)) (map.remove_old key c.entries),
    refl,
    omega (arith, map.len-remove key c.entries),
  )
  apply-Refined forget_all c room =
      (λ i j. map.get-clear c.entries j i, refl, refl, omega (arith, map.len-clear c.entries))
  apply-Refined (clean now) c room = (
    λ i j.
        (map.get-retain (λ k e. not (is_expired c.ttl now e)) c.entries j
            ∙ keep_young c.ttl now j (map.get c.entries j))
          i,
    refl,
    refl,
    omega (arith, map.len-retain (λ k e. not (is_expired c.ttl now e)) c.entries),
  )
  apply-Refined (peek key seq) c room = (refl, ap checked (peeks key seq c room), refl, omega arith)
  apply-Refined (look key) c room = (refl, ap last (looks key c), refl, omega arith)

  -- Over any operations that cannot fill it up, the cache answers as the table does, and ends as the
  -- table ends; the answer to a cleanup is by how many sources the cache has shrunk.
  pub cache_refines_table :
      (os : List Op) (c : ReplayCache M)
      → len map c + length os ≤ replay_cache_max_capacity
      → (view (run_ops os c) ≡ spec_run c.ttl os (shrinks os c) (view c))
        × (answers os c ≡ spec_answers c.ttl os (shrinks os c) (view c))
  unfolding run_ops answers spec_run spec_answers
  cache_refines_table [] c h = (refl, refl)
  cache_refines_table (o ∷ os) c h =
      let next = (apply o c).0 in
      let (table, told, ttl, grown) = apply-Refined o c (omega arith) in
      let (end, rest) = cache_refines_table os next (omega arith) in
      (
        end ∙ λ i. spec_run (ttl i) os (shrinks os next) (table i),
        λ i. told i ∷ (rest ∙ λ j. spec_answers (ttl j) os (shrinks os next) (table j)) i,
      )
