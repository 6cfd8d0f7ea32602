-- ===== src/Demo/ReplayProtection.antt =====
-- examples/replay_protection.rs: the replay cache by itself, under a processor, of two tenants, and
-- frames whose replay bit is off. `now` is the time of all the calls.
use bind.Common.{
  ℕ, ◌>>=◌, ◌>>◌, Bool, true, false, some, List, [], ◌∷◌, replicate, Result, ok, unwrap, assert,
  ◌==◌,
}
use bind.Pfp
use bind.Pfp.{PfpHeader}
use bind.Pfp.Enums.{
  executive, low, medium, catastrophic, moving, safe, critical_edge, internal, external, normal,
  risk_level_to_bits,
}
use bind.Sap
use bind.Frame
use bind.Frame.{BindFrame, FrameError}
use bind.Frame.Header.{frame_data}
use bind.ReplayCache
use bind.ReplayCache.{
  ReplayMap, ReplayCheckResult, allowed, rejected, cache_full, new_key, check_and_update,
}
use bind.Processor
use bind.Processor.{FrameProcessor, is_allowed, is_rejected, process_frame}

-- `make_frame`
abbrev pub make_frame : ℕ → Result FrameError BindFrame
make_frame seq = unwrap (
    Frame.new frame_data 1 0 (some (Pfp.new executive low moving safe internal normal true))
      (some (Sap.new seq (replicate 14 0xAB) (replicate 8 0xCD))) [])

-- `assert_eq!` of an answer of the cache
abbrev same_answer : ReplayCheckResult → ReplayCheckResult → Bool
same_answer allowed allowed = true
same_answer rejected rejected = true
same_answer cache_full cache_full = true
same_answer _ _ = false

abbrev pub pfp_eco : PfpHeader
pfp_eco = Pfp.new executive catastrophic moving critical_edge external normal false

module _ {M : Type 0} (map : ReplayMap M) (now : ℕ) where
  -- The first part of `main`: the replay cache by itself.
  unfoldable pub direct_use : Result FrameError (Unit {0})
  direct_use = do
    let key = new_key 1 100
    let (cache1, result1) = check_and_update map key 100 now (ReplayCache.new map)
    assert (same_answer result1 allowed)
    let (cache2, result2) = check_and_update map key 101 now cache1
    assert (same_answer result2 allowed)
    let (cache3, result3) = check_and_update map key 100 now cache2
    assert (same_answer result3 rejected)
    let (cache4, result4) = check_and_update map key 50 now cache3
    assert (same_answer result4 rejected)
    let (cache5, result5) = check_and_update map (new_key 1 200) 1 now cache4
    assert (same_answer result5 allowed)

  -- The loop of the second part.
  unfoldable pub pass_all : List ℕ → FrameProcessor M → Result FrameError (FrameProcessor M)
  pass_all [] p = ok p
  pass_all (seq ∷ seqs) p = do
    frame ← make_frame seq
    let (p', result) = process_frame map frame 100 now p
    assert (is_allowed result)
    pass_all seqs p'

  -- The second part: a processor.
  unfoldable pub processor_use : Result FrameError (Unit {0})
  processor_use = do
    p ← pass_all (1 ∷ 2 ∷ 3 ∷ 4 ∷ 5 ∷ []) (Processor.new map 1)
    replay_frame ← make_frame 3
    let (p', result) = process_frame map replay_frame 100 now p
    assert (is_rejected result)

  -- The third part: two tenants.
  unfoldable pub tenants : Result FrameError (Unit {0})
  tenants = do
    frame ← make_frame 100
    let (p1, result1) = process_frame map frame 100 now (Processor.new map 1)
    let (p2, result2) = process_frame map frame 100 now (Processor.new map 2)
    assert (is_allowed result2)
    let (p1', again) = process_frame map frame 100 now p1
    assert (is_rejected again)

  -- The fourth part: the replay bit is off.
  unfoldable pub eco : Result FrameError (Unit {0})
  eco = do
    eco_frame ← unwrap (
        Frame.new frame_data 1 0 (some pfp_eco)
          (some (Sap.new 1 (replicate 14 0xAB) (replicate 8 0xCD))) [])
    let (p, result) = process_frame map eco_frame 100 now (Processor.new map 1)
    assert (is_allowed result)
    assert (risk_level_to_bits (Pfp.effective_risk_level pfp_eco) == risk_level_to_bits medium)
    let (p', again) = process_frame map eco_frame 100 now p
    assert (is_allowed again)

  -- `main`
  unfoldable pub main : Result FrameError (Unit {0})
  main = direct_use >> (processor_use >> (tenants >> eco))
