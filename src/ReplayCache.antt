-- ===== src/ReplayCache.antt =====
-- src/replay_cache.rs: the last accepted sequence counter of each source, with expiry.
-- `Instant::now()` is the argument `now`, in nanoseconds; `elapsed` stops at 0, as `-` does. The map
-- is `dashmap`'s, an argument (ReplayCache/Map). A change through a reference that `get` returned is
-- an insertion of the changed entry under its key. No lock is poisoned, since no holder panics.
pub mod Map
pub mod Check
pub mod Trace
pub mod Expiry
pub mod AssocMap
pub mod Race
pub mod Refine
pub mod Honest
pub mod Crowd
pub mod Threads
pub mod Isolation
mod Examples
mod UnitTests
use bind.Common.{
  ℕ, ◌-◌, ◌*◌, ◌≡◌, Bool, true, false, not, ◌&&◌, Option, none, some, is_some, leb, ltb, ◌==◌,
  if◌then◌else◌,
}
use Map.{DashMap}

abbrev pub replay_cache_max_capacity : ℕ
replay_cache_max_capacity = 100000

-- 60 seconds
abbrev pub replay_cache_default_ttl : ℕ
replay_cache_default_ttl = 60 * 1000000000

pub record ReplayKey : Type 0 where
  pub tenant_id : ℕ
  pub source_id : ℕ

-- The derived `PartialEq` of `ReplayKey`.
abbrev pub key_eq : ReplayKey → ReplayKey → Bool
key_eq a b = a.tenant_id == b.tenant_id && a.source_id == b.source_id

-- `ReplayKey::new`
abbrev pub new_key : ℕ → ℕ → ReplayKey
new_key t s = record { tenant_id = t; source_id = s }

pub record ReplayEntry : Type 0 where
  pub last_seq : ℕ
  pub last_update : ℕ

-- `ReplayEntry::new`
abbrev pub new_entry : ℕ → ℕ → ReplayEntry
new_entry seq now = record { last_seq = seq; last_update = now }

-- `ReplayEntry::update_seq`
abbrev pub update_seq : ℕ → ℕ → ReplayEntry → ReplayEntry
update_seq seq now e = record e { last_seq = seq; last_update = now }

-- `ReplayEntry::is_expired`
abbrev pub is_expired : ℕ → ℕ → ReplayEntry → Bool
is_expired ttl now e = ltb ttl (now - e.last_update)

pub data ReplayCheckResult : Type 0 where
  allowed rejected cache_full : ReplayCheckResult

pub record ReplayCache (M : Type 0) : Type 0 where
  pub entries : M
  pub ttl : ℕ

abbrev pub seq_of : Option ReplayEntry → Option ℕ
seq_of none = none
seq_of (some e) = some e.last_seq

abbrev pub ReplayMap : Type 0 → Type 0
ReplayMap M = DashMap M ReplayKey ReplayEntry key_eq

module _ {M : Type 0} (map : ReplayMap M) where
  -- `ReplayCache::with_ttl`
  abbrev pub with_ttl : ℕ → ReplayCache M
  with_ttl ttl = record { entries = map.empty; ttl = ttl }

  -- `ReplayCache::new`
  abbrev pub new : ReplayCache M
  new = with_ttl replay_cache_default_ttl

  -- The third phase of `check_and_update`: the insertion, and its answer to an entry that another
  -- thread has put there since the first phase.
  unfoldable pub insert_new : ReplayKey → ℕ → ℕ → ReplayCache M → ReplayCache M × ReplayCheckResult
  insert_new key seq now c =
      let (inserted, old) = map.insert key (new_entry seq now) c.entries in
      let c' : ReplayCache M = record c { entries = inserted } in
      elim old [
        | none ↦ (c', allowed)
        | some old_entry ↦
            if leb seq old_entry.last_seq
            then (record c { entries = (map.insert key old_entry inserted).0 }, rejected)
            else (c', allowed)
      ]

  -- `ReplayCache::check_and_update`
  unfoldable pub check_and_update :
      ReplayKey → ℕ → ℕ → ReplayCache M → ReplayCache M × ReplayCheckResult
  check_and_update key seq now c = elim (map.get c.entries key) [
    | some entry ↦ if leb seq entry.last_seq then (c, rejected) else (
      record c { entries = (map.insert key (update_seq seq now entry) c.entries).0 },
      allowed,
    )
    | none ↦
        if leb replay_cache_max_capacity (map.len c.entries)
        then (c, cache_full)
        else insert_new key seq now c
  ]

  -- `ReplayCache::check_only`
  unfoldable pub check_only : ReplayKey → ℕ → ReplayCache M → ReplayCheckResult
  check_only key seq c = elim (map.get c.entries key) [
    | some entry ↦ if leb seq entry.last_seq then rejected else allowed
    | none ↦ if leb replay_cache_max_capacity (map.len c.entries) then cache_full else allowed
  ]

  -- `ReplayCache::last_seq`
  unfoldable pub last_seq : ReplayKey → ReplayCache M → Option ℕ
  last_seq key c = seq_of (map.get c.entries key)

  -- `ReplayCache::cleanup_expired`: the cache, and the number of entries that went.
  unfoldable pub cleanup_expired : ℕ → ReplayCache M → ReplayCache M × ℕ
  cleanup_expired now c =
      let kept = map.retain (λ key entry. not (is_expired c.ttl now entry)) c.entries in
      (record c { entries = kept }, map.len c.entries - map.len kept)

  -- `ReplayCache::remove`
  unfoldable pub remove : ReplayKey → ReplayCache M → ReplayCache M × Bool
  remove key c =
      let (left, old) = map.remove key c.entries in (record c { entries = left }, is_some old)

  -- `ReplayCache::clear`
  unfoldable pub clear : ReplayCache M → ReplayCache M
  clear c = record c { entries = map.clear c.entries }

  -- `ReplayCache::len`
  unfoldable pub len : ReplayCache M → ℕ
  len c = map.len c.entries

  -- `ReplayCache::is_empty`
  unfoldable pub is_empty : ReplayCache M → Bool
  is_empty c = map.is_empty c.entries
