-- ===== src/ReplayCache/UnitTests.antt =====
-- The unit tests of src/replay_cache.rs, but the one of four threads. The calls of a test are at one time,
-- but for the cleanup, one after another.
use bind.Common.{zero, suc, ℕ, ◌+◌, ◌*◌, ◌≡◌, refl, true, false, none, some, List, [], ◌∷◌}
use bind.ReplayCache.{
  replay_cache_max_capacity, replay_cache_default_ttl, ReplayKey, ReplayCache, ReplayCheckResult,
  new_key, key_eq, allowed, rejected, with_ttl, check_and_update, insert_new, check_only, last_seq,
  cleanup_expired, remove, clear, len, is_empty,
}
use bind.ReplayCache as Cache
use bind.ReplayCache.AssocMap.{Pairs, assoc_map}

abbrev new : ReplayCache Pairs
new = Cache.new assoc_map

abbrev TestConstants : Type 0
TestConstants = (replay_cache_max_capacity ≡ 100000) × (replay_cache_default_ttl ≡ 60 * 1000000000)

abbrev TestNewCacheEmpty : Type 0
TestNewCacheEmpty =
    (is_empty assoc_map new ≡ true)
    × (len assoc_map new ≡ 0)
    × (new.ttl ≡ replay_cache_default_ttl)
    × (replay_cache_max_capacity ≡ 100000)

abbrev key : ReplayKey
key = new_key 1 100

-- The answers of `check_and_update`, call after call, and the cache at the end.
abbrev checks :
    ℕ → List (ReplayKey × ℕ) → ReplayCache Pairs → ReplayCache Pairs × List ReplayCheckResult
checks now [] c = (c, [])
checks now ((k, seq) ∷ calls) c =
    let (c', answer) = check_and_update assoc_map k seq now c in
    let (out, answers) = checks now calls c' in (out, answer ∷ answers)

module _ (now : ℕ) where
  abbrev TestFirstSeenAllowed : Type 0
  TestFirstSeenAllowed =
      let (cache, answers) = checks now ((key, 42) ∷ []) new in
      (answers ≡ allowed ∷ [])
      × (len assoc_map cache ≡ 1)
      × (last_seq assoc_map key cache ≡ some 42)

  abbrev TestReplaySameSeqRejected : Type 0
  TestReplaySameSeqRejected =
      let (cache, answers) = checks now ((key, 42) ∷ (key, 42) ∷ []) new in
      (answers ≡ allowed ∷ rejected ∷ []) × (last_seq assoc_map key cache ≡ some 42)

  abbrev TestOldSeqRejected : Type 0
  TestOldSeqRejected =
      (checks now ((key, 42) ∷ (key, 40) ∷ (key, 0) ∷ []) new).1
      ≡ allowed ∷ rejected ∷ rejected ∷ []

  abbrev TestNewerSeqAllowed : Type 0
  TestNewerSeqAllowed =
      let (cache, answers) = checks now ((key, 42) ∷ (key, 43) ∷ (key, 100) ∷ []) new in
      (answers ≡ allowed ∷ allowed ∷ allowed ∷ []) × (last_seq assoc_map key cache ≡ some 100)

  abbrev TestSeqCounterWrapping : Type 0
  TestSeqCounterWrapping =
      (checks now ((key, 65535) ∷ (key, 0) ∷ []) new).1 ≡ allowed ∷ rejected ∷ []

  abbrev TestMultipleTenantsIsolated : Type 0
  TestMultipleTenantsIsolated =
      let key2 = new_key 2 100 in
      let (cache, answers) = checks now ((key, 42) ∷ (key2, 42) ∷ []) new in
      (answers ≡ allowed ∷ allowed ∷ [])
      × (len assoc_map cache ≡ 2)
      × ((checks now ((key, 42) ∷ (key2, 42) ∷ []) cache).1 ≡ rejected ∷ rejected ∷ [])

  abbrev TestMultipleSourcesIsolated : Type 0
  TestMultipleSourcesIsolated =
      let key2 = new_key 1 200 in
      let (cache, answers) = checks now ((key, 42) ∷ (key2, 42) ∷ []) new in
      (answers ≡ allowed ∷ allowed ∷ [])
      × (len assoc_map cache ≡ 2)
      × ((checks now ((key, 42) ∷ (key2, 42) ∷ []) cache).1 ≡ rejected ∷ rejected ∷ [])

  abbrev TestCheckOnlyDoesNotUpdate : Type 0
  TestCheckOnlyDoesNotUpdate =
      let (cache, answers) = checks now ((key, 42) ∷ []) new in
      (check_only assoc_map key 42 new ≡ allowed)
      × (is_empty assoc_map new ≡ true)
      × (answers ≡ allowed ∷ [])
      × (len assoc_map cache ≡ 1)
      × (check_only assoc_map key 40 cache ≡ rejected)
      × (last_seq assoc_map key cache ≡ some 42)

  abbrev TestRemoveEntry : Type 0
  TestRemoveEntry =
      let (cache, _) = checks now ((key, 42) ∷ []) new in
      let (removed, known) = remove assoc_map key cache in
      (len assoc_map cache ≡ 1)
      × (known ≡ true)
      × (is_empty assoc_map removed ≡ true)
      × (last_seq assoc_map key removed ≡ none)
      × ((checks now ((key, 42) ∷ []) removed).1 ≡ allowed ∷ [])

  -- The sources from `i` on, `n` of them.
  abbrev sources : ℕ → ℕ → List (ReplayKey × ℕ)
  sources zero i = []
  sources (suc n) i = (new_key 1 i, i) ∷ sources n (i + 1)

  abbrev TestClearCache : Type 0
  TestClearCache =
      let (cache, _) = checks now (sources 10 0) new in
      (len assoc_map cache ≡ 10) × (is_empty assoc_map (clear assoc_map cache) ≡ true)

  tests_hold_at :
      TestFirstSeenAllowed × TestReplaySameSeqRejected × TestOldSeqRejected × TestNewerSeqAllowed
      × TestSeqCounterWrapping × TestMultipleTenantsIsolated × TestMultipleSourcesIsolated
      × TestCheckOnlyDoesNotUpdate × TestRemoveEntry × TestClearCache
  unfolding check_and_update insert_new check_only last_seq cleanup_expired remove clear len
      is_empty
  tests_hold_at = (
    (refl, refl, refl),
    (refl, refl),
    refl,
    (refl, refl),
    refl,
    (refl, refl, refl),
    (refl, refl, refl),
    (refl, refl, refl, refl, refl, refl),
    (refl, refl, refl, refl, refl),
    (refl, refl),
  )

-- `Duration::from_millis`
abbrev millis : ℕ → ℕ
millis n = n * 1000000

abbrev TestCleanupExpired : Type 0
TestCleanupExpired =
    let key2 = new_key 1 200 in
    let (cache, _) = checks 0 ((key, 42) ∷ (key2, 43) ∷ []) (with_ttl assoc_map (millis 10)) in
    let (cache', _) = checks (millis 20) ((key2, 44) ∷ []) cache in
    let (left, cleaned) = cleanup_expired assoc_map (millis 20) cache' in
    (len assoc_map cache ≡ 2)
    × (cleaned ≡ 1)
    × (len assoc_map left ≡ 1)
    × (last_seq assoc_map key2 left ≡ some 44)

abbrev TestReplayKeyEquality : Type 0
TestReplayKeyEquality =
    (key_eq key (new_key 1 100) ≡ true)
    × (key_eq key (new_key 2 100) ≡ false)
    × (key_eq key (new_key 1 200) ≡ false)
    × (key.tenant_id ≡ 1)
    × (key.source_id ≡ 100)

abbrev TestWithCustomTtl : Type 0
TestWithCustomTtl = let ttl = 120 * 1000000000 in (with_ttl assoc_map ttl).ttl ≡ ttl

tests_hold :
    TestConstants × TestNewCacheEmpty × TestCleanupExpired × TestReplayKeyEquality
    × TestWithCustomTtl
unfolding check_and_update insert_new check_only last_seq cleanup_expired remove clear len is_empty
tests_hold = (
  (refl, refl),
  (refl, refl, refl, refl),
  (refl, refl, refl, refl),
  (refl, refl, refl, refl, refl),
  refl,
)
