-- ===== src/ReplayCache/Examples.antt =====
-- Runs of src/replay_cache.rs over a list of pairs: the tests of the source, and the theorems at
-- concrete inputs.
use bind.Common.{
  ltb, ◌-◌, ◌+◌, ℕ, zero, suc, ◌<◌, length-replicate, ◌↔◌, replicate, ◌≡◌, refl, arith, ◌&&◌, none,
  some, true, List, [], ◌∷◌, if◌then◌else◌,
}
use bind.ReplayCache.{
  ReplayEntry, ReplayKey, ReplayCache, allowed, rejected, key_eq, new_key, new_entry, new, with_ttl,
  insert_new, check_and_update, last_seq, len, cleanup_expired, replay_cache_max_capacity,
  check_only, remove, clear,
}
use bind.ReplayCache.AssocMap.{Pairs, assoc_map, get}
use bind.ReplayCache.Check.{verdict, is_allowed, check_and_update_lem}
use bind.ReplayCache.Trace.{Request, Ascends, allowed_seqs, allowed_seqs-Ascends}
use bind.ReplayCache.Crowd.{all_arriving, answered, crowd, crowd_overflow}
use bind.ReplayCache.Threads.{all_idle, work_all, crowd_bound}
use bind.ReplayCache.Isolation.{only, own_results, own_results_lem}
use bind.ReplayCache.Race.{one, two, finished, interleave, begin, race_allows_twice}
use bind.ReplayCache.Refine.{
  Op, check, forget, forget_all, clean, peek, look, Answer, checked, forgot, cleaned, last, silent,
  apply, run_ops, answers, shrinks, view, spec_run, spec_answers, cache_refines_table,
}
use bind.ReplayCache.Honest.{IsHonest, results, lasts, results-IsHonest}
use bind.ReplayCache.Expiry.{replay_window}

abbrev key : ReplayKey
key = new_key 1 100

abbrev other_key : ReplayKey
other_key = new_key 2 100

-- A cache that has seen the counter 42 of `key` at time 5, with a time to live of 10.
abbrev seen : ReplayCache Pairs
seen = record { entries = (key, new_entry 42 5) ∷ []; ttl = 10 }

seen_lem : (check_and_update assoc_map key 42 5 (with_ttl assoc_map 10)).0 ≡ seen
unfolding check_and_update insert_new
seen_lem = refl

-- The example of the module's documentation: 42, 42, 40 and 43 of one source.
abbrev requests : List Request
requests =
    record { key = key; seq = 42; now = 1 }
    ∷ record { key = key; seq = 42; now = 2 }
    ∷ record { key = other_key; seq = 42; now = 2 }
    ∷ record { key = key; seq = 40; now = 3 }
    ∷ record { key = key; seq = 43; now = 4 }
    ∷ []

documented : allowed_seqs assoc_map key (new assoc_map) requests ≡ 42 ∷ 43 ∷ []
unfolding allowed_seqs check_and_update insert_new
documented = refl

check_and_update_lem_example :
    ((check_and_update assoc_map key 43 6 seen).1
      ≡ verdict (last_seq assoc_map key seen) (len assoc_map seen) 43)
    × (last_seq assoc_map other_key (check_and_update assoc_map key 43 6 seen).0 ≡ (
        if is_allowed (check_and_update assoc_map key 43 6 seen).1 && key_eq key other_key
        then some 43
        else last_seq assoc_map other_key seen))
check_and_update_lem_example = check_and_update_lem assoc_map key 43 6 seen other_key

allowed_seqs-Ascends_example :
    Ascends (last_seq assoc_map key seen) (allowed_seqs assoc_map key seen requests)
allowed_seqs-Ascends_example = allowed_seqs-Ascends assoc_map key seen requests

replay_window_example :
    (check_and_update assoc_map key 42 16 (cleanup_expired assoc_map 16 seen).0).1
    ≡ (if ltb seen.ttl (16 - 5) then allowed else rejected)
replay_window_example =
    replay_window assoc_map seen 16 key (new_entry 42 5) 42 refl (omega arith)
      (unfold len in omega arith)

race_allows_twice_example :
    interleave (one ∷ two ∷ one ∷ two ∷ []) (begin 43 43 (some 42))
    ≡ record { first = finished 43 allowed; second = finished 43 allowed; entry = some 43 }
race_allows_twice_example = race_allows_twice 42 43 43 (omega arith) (omega arith)

abbrev ops : List Op
ops =
    peek key 43
    ∷ check key 43 6
    ∷ check key 43 7
    ∷ look key
    ∷ clean 16
    ∷ clean 17
    ∷ check key 43 21
    ∷ forget key
    ∷ forget_all
    ∷ []

cache_refines_table_example :
    (view assoc_map (run_ops assoc_map ops seen)
      ≡ spec_run 10 ops (shrinks assoc_map ops seen) (view assoc_map seen))
    × (answers assoc_map ops seen
        ≡ spec_answers 10 ops (shrinks assoc_map ops seen) (view assoc_map seen))
cache_refines_table_example = cache_refines_table assoc_map ops seen (unfold len in omega arith)

-- The entry of time 6 is still there at the time 16, and not at 17.
abbrev ops_told : List Answer
ops_told =
    checked allowed
    ∷ checked allowed
    ∷ checked rejected
    ∷ last (some 43)
    ∷ cleaned 0
    ∷ cleaned 1
    ∷ checked allowed
    ∷ forgot true
    ∷ silent
    ∷ []

cache_tells : answers assoc_map ops seen ≡ ops_told
unfolding answers apply check_and_update insert_new check_only last_seq cleanup_expired remove clear
cache_tells = refl

table_tells : spec_answers 10 ops (0 ∷ 0 ∷ 0 ∷ 0 ∷ 0 ∷ 1 ∷ []) (view assoc_map seen) ≡ ops_told
unfolding spec_answers
table_tells = refl

abbrev upwards : List Request
upwards =
    record { key = key; seq = 43; now = 6 }
    ∷ record { key = other_key; seq = 1; now = 6 }
    ∷ record { key = key; seq = 50; now = 7 }
    ∷ []

results-IsHonest_example :
    (results assoc_map seen upwards ≡ replicate 3 allowed) ↔ IsHonest (lasts assoc_map seen) upwards
results-IsHonest_example = results-IsHonest assoc_map seen upwards (unfold len in omega arith)

upwards_allowed : results assoc_map seen upwards ≡ replicate 3 allowed
upwards_allowed =
    (results-IsHonest assoc_map seen upwards (unfold len in omega arith)).1
      (unfold last_seq in omega arith)

-- Two threads, the first of which makes two calls.
abbrev two_threads : List (List Request)
two_threads =
    (record { key = key; seq = 43; now = 6 } ∷ record { key = key; seq = 50; now = 7 } ∷ [])
    ∷ (record { key = other_key; seq = 1; now = 6 } ∷ [])
    ∷ []

crowd_bound_example :
    len assoc_map
      (work_all assoc_map (0 ∷ 1 ∷ 0 ∷ 1 ∷ 0 ∷ 1 ∷ 0 ∷ 0 ∷ 1 ∷ []) (all_idle two_threads) seen).1
    < replay_cache_max_capacity + 2
crowd_bound_example =
    crowd_bound assoc_map two_threads (0 ∷ 1 ∷ 0 ∷ 1 ∷ 0 ∷ 1 ∷ 0 ∷ 0 ∷ 1 ∷ []) seen (omega arith)
      (unfold len in omega arith)

get-replicate : (n : ℕ) → get (replicate n (new_key 9 9, new_entry 1 1)) key ≡ none
get-replicate zero = refl
get-replicate (suc n) = get-replicate n

get_other-replicate : (n : ℕ) → get (replicate n (new_key 9 9, new_entry 1 1)) other_key ≡ none
get_other-replicate zero = refl
get_other-replicate (suc n) = get_other-replicate n

-- A cache with one place left.
abbrev nearly_full : ReplayCache Pairs
nearly_full = record { entries = replicate 99999 (new_key 9 9, new_entry 1 1); ttl = 10 }

crowd_overflow_example :
    let out =
      crowd assoc_map
        (0 ∷ 1 ∷ 0 ∷ 1 ∷ [])
        (all_arriving (
          record { key = key; seq = 1; now = 1 }
          ∷ record { key = other_key; seq = 1; now = 1 }
          ∷ []))
        nearly_full in
    (out.0 ≡ answered allowed ∷ answered allowed ∷ [])
    × (len assoc_map out.1 ≡ replay_cache_max_capacity + 1)
crowd_overflow_example =
    crowd_overflow assoc_map (record { key = key; seq = 1; now = 1 })
      (record { key = other_key; seq = 1; now = 1 }) nearly_full (get-replicate 99999)
      (get_other-replicate 99999) refl
      (unfold len in
        omega (
          arith,
          length-replicate {A = ReplayKey × ReplayEntry} 99999 (new_key 9 9, new_entry 1 1),
        ))

-- `requests` has the source 100 of the tenants 1 and 2.
own_results_lem_example :
    own_results assoc_map 1 seen requests ≡ results assoc_map seen (only 1 requests)
own_results_lem_example = own_results_lem assoc_map 1 requests seen (unfold len in omega arith)
