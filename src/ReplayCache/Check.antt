-- ===== src/ReplayCache/Check.antt =====
-- `check_and_update` of src/replay_cache.rs against its description: a map from sources to the last
-- accepted counter, and a capacity.
use bind.Common.{
  ℕ, suc, ◌≡◌, refl, ◌∙◌, arith, Bool, true, false, not, ◌&&◌, Option, none, some, is_some, leb,
  if◌then◌else◌, Option-cases, Bool-cases, inl, inr,
}
use bind.ReplayCache.{
  ReplayKey, ReplayEntry, ReplayCache, ReplayMap, ReplayCheckResult, allowed, rejected, cache_full,
  key_eq, replay_cache_max_capacity, new_entry, update_seq, insert_new, check_and_update,
  check_only, last_seq, seq_of, len,
}

-- The answer for a source whose last accepted counter is `last`, in a cache of `size` sources.
abbrev pub verdict : Option ℕ → ℕ → ℕ → ReplayCheckResult
verdict (some last) size seq = if leb seq last then rejected else allowed
verdict none size seq = if leb replay_cache_max_capacity size then cache_full else allowed

abbrev pub is_allowed : ReplayCheckResult → Bool
is_allowed allowed = true
is_allowed _ = false

module _ {M : Type 0} (map : ReplayMap M) (key : ReplayKey) (seq now : ℕ) (c : ReplayCache M) where
  read_insert :
      (v : ReplayEntry) (j : ReplayKey)
      → seq_of (map.get (map.insert key v c.entries).0 j)
        ≡ (if key_eq key j then some v.last_seq else seq_of (map.get c.entries j))
  read_insert v j = rw (map.get-insert key v c.entries j) (ground arith)

  abbrev pub after : ReplayCache M × ReplayCheckResult
  after = check_and_update map key seq now c

  pub known :
      (e : ReplayEntry)
      → map.get c.entries key ≡ some e
      → after ≡ (
          if leb seq e.last_seq then (c, rejected) else (
            record c { entries = (map.insert key (update_seq seq now e) c.entries).0 },
            allowed,
          ))
  unfolding check_and_update
  known e h = rw (h, check_and_update)

  pub inserted :
      map.get c.entries key ≡ none
      → insert_new map key seq now c
        ≡ (record c { entries = (map.insert key (new_entry seq now) c.entries).0 }, allowed)
  unfolding insert_new
  inserted h = rw (map.insert_old key (new_entry seq now) c.entries ∙ h, insert_new)

  pub fresh :
      map.get c.entries key ≡ none
      → after ≡ (
          if leb replay_cache_max_capacity (map.len c.entries)
          then (c, cache_full)
          else (record c { entries = (map.insert key (new_entry seq now) c.entries).0 }, allowed))
  unfolding check_and_update
  fresh h = rw (h, check_and_update) (rw (inserted h))

  -- `check_and_update` answers by the last counter of the source and the size of the cache alone: a
  -- known source is allowed exactly above its last counter, a new one exactly below the capacity.
  -- An allowed counter becomes the last one of its source, and the last counters of the other
  -- sources do not change, nor does any when the call is refused.
  pub check_and_update_lem :
      (j : ReplayKey)
      → ((check_and_update map key seq now c).1 ≡ verdict (last_seq map key c) (len map c) seq)
        × (last_seq map j (check_and_update map key seq now c).0 ≡ (
            if is_allowed (check_and_update map key seq now c).1 && key_eq key j
            then some seq
            else last_seq map j c))
  unfolding last_seq len
  check_and_update_lem j = elim (Option-cases (map.get c.entries key)) [
    | inl h ↦ elim (Bool-cases (leb replay_cache_max_capacity (map.len c.entries))) [
      | inl full ↦ rw (fresh h, h, full) (refl, refl)
      | inr room ↦ rw (fresh h, h, room) (refl, read_insert (new_entry seq now) j)
    ]
    | inr (e, h) ↦ elim (Bool-cases (leb seq e.last_seq)) [
      | inl old ↦ rw (known e h, h, old) (refl, refl)
      | inr newer ↦ rw (known e h, h, newer) (refl, read_insert (update_seq seq now e) j)
    ]
  ]

  -- `check_only` answers as `check_and_update` would.
  pub check_only_lem : check_only map key seq c ≡ (check_and_update map key seq now c).1
  unfolding check_only
  check_only_lem = elim (Option-cases (map.get c.entries key)) [
    | inl h ↦ rw (fresh h, h, check_only) (ground arith)
    | inr (e, h) ↦ rw (known e h, h, check_only) (ground arith)
  ]

  -- The number of sources never passes the capacity by a check, and grows exactly by a new source that
  -- is allowed.
  pub len-check_and_update : len map (check_and_update map key seq now c).0 ≡ (
      if is_allowed (check_and_update map key seq now c).1 && not (is_some (last_seq map key c))
      then suc (len map c)
      else len map c)
  unfolding last_seq len
  len-check_and_update = elim (Option-cases (map.get c.entries key)) [
    | inl h ↦ elim (Bool-cases (leb replay_cache_max_capacity (map.len c.entries))) [
      | inl full ↦ rw (fresh h, h, full)
      | inr room ↦ rw (fresh h, h, room) (rw (map.len-insert key (new_entry seq now) c.entries, h))
    ]
    | inr (e, h) ↦ elim (Bool-cases (leb seq e.last_seq)) [
      | inl old ↦ rw (known e h, h, old)
      | inr newer ↦
          rw (known e h, h, newer) (rw (map.len-insert key (update_seq seq now e) c.entries, h))
    ]
  ]
