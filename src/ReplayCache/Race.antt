-- ===== src/ReplayCache/Race.antt =====
-- Two threads inside `check_and_update` of src/replay_cache.rs, for one source. A known entry is shared
-- under a read guard: `last_seq` loads its counter, and `update_seq` stores the new one, in two steps
-- that the other thread can come between. A thread that finds no entry inserts one, and puts back the
-- one that it replaced if its own counter is not above; the cache is below its capacity. The time of
-- the update is left out.
use bind.Common.{
  ℕ, ◌≤◌, ◌<◌, ◌≡◌, refl, sym, ap, ◌∙◌, arith, true, Option, none, some, List, [], ◌∷◌, leb,
  if◌then◌else◌, Bool-cases, inl, inr,
}
use bind.ReplayCache.{
  ReplayCache, ReplayKey, ReplayMap, ReplayCheckResult, allowed, rejected, check_and_update,
  last_seq, key_eq,
}
use bind.ReplayCache.Check.{check_and_update_lem}

-- A call before its look at the map, between its load and its store, after it has found no entry,
-- before it puts the replaced entry back, and after its answer.
pub data Thread : Type 0 where
  waiting : (seq : ℕ) → Thread
  loaded : (seq seen : ℕ) → Thread
  unknown : (seq : ℕ) → Thread
  restoring : (seq old : ℕ) → Thread
  finished : (seq : ℕ) → ReplayCheckResult → Thread

-- The next step of a thread, over the counter of the entry, if there is one.
unfoldable pub advance : Thread → Option ℕ → Thread × Option ℕ
advance (waiting seq) none = (unknown seq, none)
advance (waiting seq) (some last) = (loaded seq last, some last)
advance (loaded seq seen) entry =
    if leb seq seen then (finished seq rejected, entry) else (finished seq allowed, some seq)
advance (unknown seq) none = (finished seq allowed, some seq)
advance (unknown seq) (some old) =
    if leb seq old then (restoring seq old, some seq) else (finished seq allowed, some seq)
advance (restoring seq old) entry = (finished seq rejected, some old)
advance (finished seq answer) entry = (finished seq answer, entry)

pub record Race : Type 0 where
  pub first : Thread
  pub second : Thread
  pub entry : Option ℕ

-- Two calls that have not begun.
abbrev pub begin : ℕ → ℕ → Option ℕ → Race
begin a b entry = record { first = waiting a; second = waiting b; entry = entry }

pub data Turn : Type 0 where
  one two : Turn

unfoldable pub turn : Turn → Race → Race
turn one r = let (t, entry) = advance r.first r.entry in record r { first = t; entry = entry }
turn two r = let (t, entry) = advance r.second r.entry in record r { second = t; entry = entry }

unfoldable pub interleave : List Turn → Race → Race
interleave [] r = r
interleave (t ∷ ts) r = interleave ts (turn t r)

-- Two calls for a known source with counters above its last one, also with the same counter, are both
-- allowed when both load before either stores, and the counter of the later store stays, also when it
-- is the lower one.
pub race_allows_twice :
    (last a b : ℕ)
    → last < a
    → last < b
    → interleave (one ∷ two ∷ one ∷ two ∷ []) (begin a b (some last))
      ≡ record { first = finished a allowed; second = finished b allowed; entry = some b }
unfolding interleave turn advance
race_allows_twice last a b ha hb = ground arith

-- Two calls that both find no entry for their source do not allow a counter twice: the one that
-- inserts first is allowed, the other is allowed just if its counter is above, and the higher counter
-- stays.
pub registration_race :
    (a b : ℕ)
    → interleave (one ∷ two ∷ one ∷ two ∷ two ∷ []) (begin a b none) ≡ record {
      first = finished a allowed;
      second = finished b (if leb b a then rejected else allowed);
      entry = some (if leb b a then a else b);
    }
unfolding interleave turn advance
registration_race a b = elim (Bool-cases (leb b a)) [
  | inl low ↦ rw low refl
  | inr high ↦ rw high refl
]

-- With a third call a counter is allowed twice while a source is registered: the first call registers
-- the source with `a`, the second, with a lower counter, has replaced the entry and not yet put it
-- back, and a replay of `a` passes then, before the entry is put back.
pub registration_replay :
    (a b : ℕ)
    → b < a
    → let r = interleave (one ∷ two ∷ one ∷ two ∷ []) (begin a b none) in
      (r.first ≡ finished a allowed)
      × (interleave (one ∷ one ∷ two ∷ []) (record r { first = waiting a })
          ≡ record { first = finished a allowed; second = finished b rejected; entry = some a })
unfolding interleave turn advance
registration_replay a b low = ground arith

-- What a thread and the entry show of the counter that the entry had at the start.
abbrev pub IsOver : ℕ → Thread → Type 0
IsOver floor (waiting seq) = Unit
IsOver floor (loaded seq seen) = floor ≤ seen
IsOver floor (finished seq allowed) = floor < seq
IsOver floor (finished seq _) = Unit
IsOver floor _ = ⊥

abbrev pub IsFrom : ℕ → Option ℕ → Type 0
IsFrom floor none = ⊥
IsFrom floor (some last) = floor ≤ last

advance-IsOver :
    (floor : ℕ) (t : Thread) (entry : Option ℕ)
    → IsFrom floor entry
    → IsOver floor t
    → IsOver floor (advance t entry).0 × IsFrom floor (advance t entry).1
unfolding advance
advance-IsOver floor (waiting seq) none h over = absurd h
advance-IsOver floor (waiting seq) (some last) h over = (h, h)
advance-IsOver floor (loaded seq seen) entry h over = elim (Bool-cases (leb seq seen)) [
  | inl old ↦ rw old (tt, h)
  | inr newer ↦ rw newer (ground arith)
]
advance-IsOver floor (unknown seq) entry h over = absurd over
advance-IsOver floor (restoring seq old) entry h over = absurd over
advance-IsOver floor (finished seq answer) entry h over = (over, h)

interleave-IsOver :
    (floor : ℕ) (ts : List Turn) (r : Race)
    → IsFrom floor r.entry
    → IsOver floor r.first
    → IsOver floor r.second
    → IsFrom floor (interleave ts r).entry
      × IsOver floor (interleave ts r).first
      × IsOver floor (interleave ts r).second
unfolding interleave turn
interleave-IsOver floor [] r h x y = (h, x, y)
interleave-IsOver floor (one ∷ ts) r h x y =
    let (x', h') = advance-IsOver floor r.first r.entry h x in
    interleave-IsOver floor ts (turn one r) h' x' y
interleave-IsOver floor (two ∷ ts) r h x y =
    let (y', h') = advance-IsOver floor r.second r.entry h y in
    interleave-IsOver floor ts (turn two r) h' x y'

-- Whatever the order of their steps, two calls for a known source that have not begun leave its
-- counter at or above the one that it was at the start, and neither is allowed with a counter that
-- was not above that one.
pub race_floor :
    (a b last : ℕ) (ts : List Turn)
    → let r = interleave ts (begin a b (some last)) in
      IsFrom last r.entry × IsOver last r.first × IsOver last r.second
race_floor a b last ts = interleave-IsOver last ts (begin a b (some last)) (omega arith) tt tt

key_eq_self : (k : ReplayKey) → key_eq k k ≡ true
key_eq_self k = ground arith

-- A thread that nothing comes between does what `check_and_update` does for a known source: its two
-- steps end in that answer, and in the counter that the cache holds afterwards.
pub advance_lem :
    {M : Type 0} (map : ReplayMap M) (key : ReplayKey) (seq now last : ℕ) (c : ReplayCache M)
    → last_seq map key c ≡ some last
    → let (loaded_thread, seen) = advance (waiting seq) (some last) in
      let (ended, entry) = advance loaded_thread seen in
      let (c', answer) = check_and_update map key seq now c in
      (ended ≡ finished seq answer) × (last_seq map key c' ≡ entry)
unfolding advance
advance_lem map key seq now last c known =
    let (answered, kept) = check_and_update_lem map key seq now c key in
    elim (Bool-cases (leb seq last)) [
      | inl old ↦
          let refused = answered ∙ rw known (rw old refl) in
          rw old (ap (finished seq) (sym refused), kept ∙ rw (refused, known))
      | inr newer ↦
          let passes = answered ∙ rw known (rw newer refl) in
          rw newer (ap (finished seq) (sym passes), kept ∙ rw (passes, key_eq_self key))
    ]
