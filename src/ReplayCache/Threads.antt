-- ===== src/ReplayCache/Threads.antt =====
-- Any number of threads that call `check_and_update` of src/replay_cache.rs, each one again and again, in
-- the steps of ReplayCache/Crowd.
use bind.Common.{
  ℕ, zero, suc, ◌+◌, ◌≤◌, ◌<◌, ◌≡◌, refl, ◌∙◌, arith, true, List, [], ◌∷◌, length, leb,
  Option-cases, Bool-cases, inl, inr,
}
use bind.ReplayCache.{
  ReplayCache, ReplayKey, ReplayMap, replay_cache_max_capacity, insert_new, new_entry, key_eq, len,
  last_seq,
}
use bind.ReplayCache.Trace.{Request}
use bind.ReplayCache.Check.{len-check_and_update}
use bind.ReplayCache.Crowd.{Newcomer, arriving, admitted, answered, act}

-- A thread between its calls, or inside of a call, with the calls that it has still to make.
pub data Worker : Type 0 where
  idle : List Request → Worker
  busy : Newcomer → List Request → Worker

abbrev pub all_idle : List (List Request) → List Worker
all_idle [] = []
all_idle (rs ∷ rss) = idle rs ∷ all_idle rss

abbrev weight : Newcomer → ℕ
weight (admitted r) = 1
weight _ = 0

abbrev worker_weight : Worker → ℕ
worker_weight (idle rs) = 0
worker_weight (busy t rs) = weight t

-- The number of threads that are about to insert.
abbrev admitted_count : List Worker → ℕ
admitted_count [] = 0
admitted_count (t ∷ ts) = worker_weight t + admitted_count ts

nobody_admitted : (rss : List (List Request)) → admitted_count (all_idle rss) ≡ 0
nobody_admitted [] = refl
nobody_admitted (rs ∷ rss) = omega (arith, nobody_admitted rss)

length-all_idle : (rss : List (List Request)) → length (all_idle rss) ≡ length rss
length-all_idle [] = refl
length-all_idle (rs ∷ rss) = omega (arith, length-all_idle rss)

weight_small : (t : Newcomer) → weight t ≤ 1
weight_small (arriving r) = omega arith
weight_small (admitted r) = omega arith
weight_small (answered a) = omega arith

worker_weight_small : (t : Worker) → worker_weight t ≤ 1
worker_weight_small (idle rs) = omega arith
worker_weight_small (busy t rs) = weight_small t

count_bound : (ts : List Worker) → admitted_count ts ≤ length ts
count_bound [] = omega arith
count_bound (t ∷ ts) = omega (arith, count_bound ts, worker_weight_small t)

key_eq_self : (k : ReplayKey) → key_eq k k ≡ true
key_eq_self k = ground arith

module _ {M : Type 0} (map : ReplayMap M) where
  -- The next step of a thread: it begins its next call, goes on inside of a call, or leaves it.
  unfoldable pub work : Worker → ReplayCache M → Worker × ReplayCache M
  work (idle []) c = (idle [], c)
  work (idle (r ∷ rs)) c = (busy (arriving r) rs, c)
  work (busy (answered answer) rs) c = (idle rs, c)
  work (busy t rs) c = let (t', c') = act map t c in (busy t' rs, c')

  unfoldable pub work_at : ℕ → List Worker → ReplayCache M → List Worker × ReplayCache M
  work_at i [] c = ([], c)
  work_at zero (t ∷ ts) c = let (t', c') = work t c in (t' ∷ ts, c')
  work_at (suc i) (t ∷ ts) c = let (ts', c') = work_at i ts c in (t ∷ ts', c')

  -- The threads take steps in any order, told by their places in the list.
  unfoldable pub work_all : List ℕ → List Worker → ReplayCache M → List Worker × ReplayCache M
  work_all [] ts c = (ts, c)
  work_all (i ∷ is) ts c = let (ts', c') = work_at i ts c in work_all is ts' c'

  len-insert_new :
      (r : Request) (c : ReplayCache M)
      → len map (insert_new map r.key r.seq r.now c).0 ≤ len map c + 1
  unfolding insert_new len
  len-insert_new r c =
      let inserted = (map.insert r.key (new_entry r.seq r.now) c.entries).0 in
      elim (Option-cases (map.get c.entries r.key)) [
        | inl h ↦
            rw (map.insert_old r.key (new_entry r.seq r.now) c.entries ∙ h, insert_new)
              (ground (arith, map.len-insert r.key (new_entry r.seq r.now) c.entries))
        | inr (e, h) ↦
            rw (map.insert_old r.key (new_entry r.seq r.now) c.entries ∙ h, insert_new)
              (ground (
                arith,
                map.len-insert r.key (new_entry r.seq r.now) c.entries,
                map.len-insert r.key e inserted,
                map.get-insert r.key (new_entry r.seq r.now) c.entries r.key,
                key_eq_self r.key,
              ))
      ]

  act_bound :
      (t : Newcomer) (c : ReplayCache M) (n w : ℕ)
      → w < n
      → len map c + weight t + w < replay_cache_max_capacity + n
      → len map (act map t c).1 + weight (act map t c).0 + w < replay_cache_max_capacity + n
  unfolding act len last_seq
  act_bound (arriving r) c n w few h = elim (Option-cases (map.get c.entries r.key)) [
    | inl new ↦
        rw (new, act)
          (elim (Bool-cases (leb replay_cache_max_capacity (map.len c.entries))) [
            | inl full ↦ rw full (omega arith)
            | inr room ↦ rw room (ground arith)
          ])
    | inr (e, known) ↦
        rw (known, act) (ground (arith, len-check_and_update map r.key r.seq r.now c, known))
  ]
  act_bound (admitted r) c n w few h = omega (arith, len-insert_new r c)
  act_bound (answered a) c n w few h = h

  work_bound :
      (t : Worker) (c : ReplayCache M) (n w : ℕ)
      → w < n
      → len map c + worker_weight t + w < replay_cache_max_capacity + n
      → len map (work t c).1 + worker_weight (work t c).0 + w < replay_cache_max_capacity + n
  unfolding work
  work_bound (idle []) c n w few h = h
  work_bound (idle (r ∷ rs)) c n w few h = h
  work_bound (busy (answered a) rs) c n w few h = h
  work_bound (busy (arriving r) rs) c n w few h = act_bound (arriving r) c n w few h
  work_bound (busy (admitted r) rs) c n w few h = act_bound (admitted r) c n w few h

  work_at_bound :
      (i : ℕ) (ts : List Worker) (c : ReplayCache M) (n w : ℕ)
      → w + length ts ≤ n
      → len map c + admitted_count ts + w < replay_cache_max_capacity + n
      → (len map (work_at i ts c).1 + admitted_count (work_at i ts c).0 + w
          < replay_cache_max_capacity + n)
        × (length (work_at i ts c).0 ≡ length ts)
  unfolding work_at
  work_at_bound i [] c n w few h = (h, refl)
  work_at_bound zero (t ∷ ts) c n w few h = (
    omega (
      arith,
      work_bound t c n (admitted_count ts + w) (omega (arith, count_bound ts)) (omega arith),
    ),
    omega arith,
  )
  work_at_bound (suc i) (t ∷ ts) c n w few h =
      let (bound, same) =
        work_at_bound i ts c n (worker_weight t + w) (omega (arith, worker_weight_small t))
          (omega arith) in
      (omega (arith, bound), omega (arith, same))

  work_all_bound :
      (is : List ℕ) (ts : List Worker) (c : ReplayCache M)
      → len map c + admitted_count ts < replay_cache_max_capacity + length ts
      → len map (work_all is ts c).1 < replay_cache_max_capacity + length ts
  unfolding work_all
  work_all_bound [] ts c h = omega arith
  work_all_bound (i ∷ is) ts c h =
      let (bound, same) = work_at_bound i ts c (length ts) 0 (omega arith) (omega arith) in
      omega (
        arith,
        same,
        work_all_bound is (work_at i ts c).0 (work_at i ts c).1 (omega (arith, bound, same)),
      )

  -- However many calls some threads make, one after another in each thread, for any sources, and
  -- whatever the order of their steps, a cache within its capacity stays below its capacity plus the
  -- number of the threads.
  pub crowd_bound :
      (calls : List (List Request)) (is : List ℕ) (c : ReplayCache M)
      → 0 < length calls
      → len map c ≤ replay_cache_max_capacity
      → len map (work_all is (all_idle calls) c).1 < replay_cache_max_capacity + length calls
  crowd_bound calls is c some_thread h = omega (
    arith,
    length-all_idle calls,
    work_all_bound is (all_idle calls) c
        (omega (arith, length-all_idle calls, nobody_admitted calls)),
  )
