-- ===== src/ReplayCache/Expiry.antt =====
-- Removal, expiry and clearing in src/replay_cache.rs.
use bind.Common.{
  ℕ, ◌+◌, ◌-◌, ◌≤◌, ◌<◌, ◌≡◌, refl, sym, ◌∙◌, Bool-cases, inl, inr, ltb→lt, arith, false, not, none,
  some, is_some, leb, ltb, if◌then◌else◌, le→leb, le→ltb, gt→leb, lt→ltb,
}
use bind.ReplayCache.{
  ReplayKey, ReplayEntry, ReplayCache, ReplayMap, allowed, rejected, key_eq,
  replay_cache_max_capacity, is_expired, check_and_update, cleanup_expired, remove, clear, last_seq,
  len,
}
use bind.ReplayCache.Check.{check_and_update_lem}

module _ {M : Type 0} (map : ReplayMap M) (c : ReplayCache M) (now : ℕ) (key : ReplayKey) where
  -- Of an entry in the cache: `cleanup_expired` keeps its counter if it was updated at most `ttl`
  -- ago, and forgets its source otherwise. It returns the number of sources by which the cache
  -- shrank.
  pub cleanup_expired_lem :
      (e : ReplayEntry)
      → map.get c.entries key ≡ some e
      → (last_seq map key (cleanup_expired map now c).0
          ≡ (if ltb c.ttl (now - e.last_update) then none else some e.last_seq))
        × (len map (cleanup_expired map now c).0 + (cleanup_expired map now c).1 ≡ len map c)
  unfolding cleanup_expired last_seq len
  cleanup_expired_lem e h = (
    rw (map.get-retain (λ k entry. not (is_expired c.ttl now entry)) c.entries key, h)
        (ground arith),
    omega (arith, map.len-retain (λ k entry. not (is_expired c.ttl now entry)) c.entries),
  )

  abbrev cleaned : ReplayCache M
  cleaned = (cleanup_expired map now c).0

  -- The replay window: once the entry of a source has expired and a cleanup has run, the cache allows
  -- any counter of that source again, also one that it has allowed before, unless it is full.
  pub expired_replay :
      (e : ReplayEntry) (seq : ℕ)
      → map.get c.entries key ≡ some e
      → c.ttl < now - e.last_update
      → len map c < replay_cache_max_capacity
      → (check_and_update map key seq now (cleanup_expired map now c).0).1 ≡ allowed
  expired_replay e seq h old room =
      let (gone, shrunk) = cleanup_expired_lem e h in
      let below : leb replay_cache_max_capacity (len map cleaned) ≡ false =
        gt→leb replay_cache_max_capacity (len map cleaned) (omega arith) in
      (check_and_update_lem map key seq now cleaned key).0
      ∙ rw (gone, lt→ltb c.ttl (now - e.last_update) old, below)

  -- Within the time to live of its source's entry, a counter that is not above the last one is
  -- refused, also after a cleanup.
  pub unexpired_rejected :
      (e : ReplayEntry) (seq : ℕ)
      → map.get c.entries key ≡ some e
      → now - e.last_update ≤ c.ttl
      → seq ≤ e.last_seq
      → (check_and_update map key seq now (cleanup_expired map now c).0).1 ≡ rejected
  unexpired_rejected e seq h young low =
      let (kept, shrunk) = cleanup_expired_lem e h in
      (check_and_update_lem map key seq now cleaned key).0
      ∙ rw (kept, le→ltb c.ttl (now - e.last_update) young, le→leb seq e.last_seq low)

  -- The replay window: a counter that is not above the last one of its source passes after a cleanup,
  -- in a cache that is not full, exactly if the entry of its source is older than the time to live.
  pub replay_window :
      (e : ReplayEntry) (seq : ℕ)
      → map.get c.entries key ≡ some e
      → seq ≤ e.last_seq
      → len map c < replay_cache_max_capacity
      → (check_and_update map key seq now (cleanup_expired map now c).0).1
        ≡ (if ltb c.ttl (now - e.last_update) then allowed else rejected)
  replay_window e seq h low room = elim (Bool-cases (ltb c.ttl (now - e.last_update))) [
    | inl old ↦
        expired_replay e seq h (ltb→lt c.ttl (now - e.last_update) old) room ∙ sym (rw old refl)
    | inr young ↦ unexpired_rejected e seq h (ground arith) low ∙ sym (rw young refl)
  ]

-- After `remove` the source is unknown, the answer says whether it was known, and no other source
-- changes; after `clear` no source is known and the cache has length 0.
pub remove_clear_lem :
    {M : Type 0} (map : ReplayMap M) (c : ReplayCache M) (key j : ReplayKey)
    → (last_seq map j (remove map key c).0 ≡ (if key_eq key j then none else last_seq map j c))
      × ((remove map key c).1 ≡ is_some (last_seq map key c))
      × (last_seq map j (clear map c) ≡ none)
      × (len map (clear map c) ≡ 0)
unfolding last_seq remove clear len
remove_clear_lem map c key j = (
  rw (map.get-remove key c.entries j) (ground arith),
  rw (map.remove_old key c.entries) (ground arith),
  rw (map.get-clear c.entries j),
  map.len-clear c.entries,
)
