-- ===== src/ReplayCache/Crowd.antt =====
-- Any number of threads inside `check_and_update` of src/replay_cache.rs, for any sources. A thread that
-- finds no entry for its source and room in the cache inserts its entry in a later step, and the others
-- can come between. What a thread does for a known source is one step here; ReplayCache/Race parts it.
use bind.Common.{
  ℕ, zero, suc, ◌+◌, ◌<◌, ◌≡◌, refl, ◌∙◌, arith, false, none, some, List, [], ◌∷◌, leb,
  if◌then◌else◌, gt→leb,
}
use bind.ReplayCache.{
  ReplayCache, ReplayMap, ReplayCheckResult, allowed, cache_full, replay_cache_max_capacity,
  check_and_update, insert_new, new_entry, key_eq, len,
}
use bind.ReplayCache.Trace.{Request}
use bind.ReplayCache.Check.{inserted}

-- A call before its look at the map, after it has found no entry and room, and after its answer.
pub data Newcomer : Type 0 where
  arriving admitted : Request → Newcomer
  answered : ReplayCheckResult → Newcomer

abbrev pub all_arriving : List Request → List Newcomer
all_arriving [] = []
all_arriving (r ∷ rs) = arriving r ∷ all_arriving rs

module _ {M : Type 0} (map : ReplayMap M) where
  -- The next step of a call.
  unfoldable pub act : Newcomer → ReplayCache M → Newcomer × ReplayCache M
  act (arriving r) c = elim (map.get c.entries r.key) [
    | some entry ↦
        let (c', answer) = check_and_update map r.key r.seq r.now c in (answered answer, c')
    | none ↦
        if leb replay_cache_max_capacity (map.len c.entries)
        then (answered cache_full, c)
        else (admitted r, c)
  ]
  act (admitted r) c =
      let (c', answer) = insert_new map r.key r.seq r.now c in (answered answer, c')
  act (answered answer) c = (answered answer, c)

  -- The next step of the call at a place of the list.
  unfoldable pub act_at : ℕ → List Newcomer → ReplayCache M → List Newcomer × ReplayCache M
  act_at i [] c = ([], c)
  act_at zero (t ∷ ts) c = let (t', c') = act t c in (t' ∷ ts, c')
  act_at (suc i) (t ∷ ts) c = let (ts', c') = act_at i ts c in (t ∷ ts', c')

  unfoldable pub crowd : List ℕ → List Newcomer → ReplayCache M → List Newcomer × ReplayCache M
  crowd [] ts c = (ts, c)
  crowd (i ∷ is) ts c = let (ts', c') = act_at i ts c in crowd is ts' c'

  arrives_new :
      (r : Request) (c : ReplayCache M)
      → map.get c.entries r.key ≡ none
      → len map c < replay_cache_max_capacity
      → act (arriving r) c ≡ (admitted r, c)
  unfolding act len
  arrives_new r c new room = rw (new, act) (rw (gt→leb replay_cache_max_capacity _ room) refl)

  abbrev registered : Request → ReplayCache M → ReplayCache M
  registered r c = record c { entries = (map.insert r.key (new_entry r.seq r.now) c.entries).0 }

  inserts_new :
      (r : Request) (c : ReplayCache M)
      → map.get c.entries r.key ≡ none
      → act (admitted r) c ≡ (answered allowed, registered r c)
  unfolding act
  inserts_new r c new = rw (inserted map r.key r.seq r.now c new) refl

  len-registered :
      (r : Request) (c : ReplayCache M)
      → map.get c.entries r.key ≡ none
      → len map (registered r c) ≡ len map c + 1
  unfolding len
  len-registered r c new = ground (arith, map.len-insert r.key (new_entry r.seq r.now) c.entries)

  -- Two calls at once for two new sources, at a cache with one place left, are both
  -- allowed when both look before either inserts, and the cache holds one source more than its capacity.
  pub crowd_overflow :
      (a b : Request) (c : ReplayCache M)
      → map.get c.entries a.key ≡ none
      → map.get c.entries b.key ≡ none
      → key_eq a.key b.key ≡ false
      → len map c + 1 ≡ replay_cache_max_capacity
      → let out = crowd (0 ∷ 1 ∷ 0 ∷ 1 ∷ []) (all_arriving (a ∷ b ∷ [])) c in
        (out.0 ≡ answered allowed ∷ answered allowed ∷ [])
        × (len map out.1 ≡ replay_cache_max_capacity + 1)
  unfolding crowd act_at
  crowd_overflow a b c new_a new_b other room =
      let later : map.get (registered a c).entries b.key ≡ none =
        map.get-insert a.key (new_entry a.seq a.now) c.entries b.key ∙ rw other new_b in
      rw
        (
          arrives_new a c new_a (omega arith),
          arrives_new b c new_b (omega arith),
          inserts_new a c new_a,
          inserts_new b (registered a c) later,
        )
        (refl, omega (arith, len-registered a c new_a, len-registered b (registered a c) later))
