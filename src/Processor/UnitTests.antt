-- ===== src/Processor/UnitTests.antt =====
-- The unit tests of src/processor.rs. The calls of a test are at one time, but for the cleanup.
use bind.Common.{
  ℕ, ◌*◌, ◌≡◌, refl, Bool, true, false, none, some, List, [], ◌∷◌, replicate, Result, Unwraps,
}
use bind.Pfp
use bind.Pfp.{PfpHeader}
use bind.Pfp.Enums.{cognitive, low, unknown, safe, internal, normal}
use bind.Sap
use bind.Frame
use bind.Frame.{BindFrame, FrameError, is_replay_disabled}
use bind.Frame.Header.{frame_data}
use bind.ReplayCache
use bind.ReplayCache.{check_and_update, insert_new, check_only}
use bind.ReplayCache.AssocMap.{Pairs, assoc_map}
use bind.Processor.{
  FrameProcessResult, passed, rejected_replay, rejected_cache_full, no_sap, is_allowed, is_rejected,
  FrameProcessor, new, with_ttl, process_frame, check_frame, cleanup_expired, last_seq,
  remove_source,
}

abbrev low_pfp : Bool → PfpHeader
low_pfp replay_enable = Pfp.new cognitive low unknown safe internal normal replay_enable

abbrev make_frame_with_sap : ℕ → Bool → Result FrameError BindFrame
make_frame_with_sap seq replay_enable =
    Frame.new frame_data 0 0 (some (low_pfp replay_enable))
      (some (Sap.new seq (replicate 14 0) (replicate 8 0))) []

abbrev make_frame_without_sap : Result FrameError BindFrame
make_frame_without_sap = Frame.new frame_data 0 0 (some (low_pfp true)) none []

abbrev start : FrameProcessor Pairs
start = new assoc_map 1

-- The answers of `process_frame`, call after call, and the processor at the end.
abbrev processes :
    ℕ → List (BindFrame × ℕ) → FrameProcessor Pairs → FrameProcessor Pairs × List FrameProcessResult
processes now [] p = (p, [])
processes now ((frame, source) ∷ calls) p =
    let (p', answer) = process_frame assoc_map frame source now p in
    let (out, answers) = processes now calls p' in (out, answer ∷ answers)

abbrev TestProcessorNew : Type 0
TestProcessorNew =
    (start.tenant_id ≡ 1) × (ReplayCache.is_empty assoc_map start.replay_cache ≡ true)

module _ (now : ℕ) where
  abbrev TestProcessFrameFirstSeenAllowed : Type 0
  TestProcessFrameFirstSeenAllowed = Unwraps (make_frame_with_sap 42 true) (λ frame.
      let (p, result) = process_frame assoc_map frame 100 now start in
      (result ≡ passed) × (is_allowed result ≡ true) × (last_seq assoc_map 100 p ≡ some 42))

  abbrev TestProcessFrameReplayRejected : Type 0
  TestProcessFrameReplayRejected = Unwraps (make_frame_with_sap 42 true) (λ frame.
      let (p, results) = processes now ((frame, 100) ∷ (frame, 100) ∷ []) start in
      (results ≡ passed ∷ rejected_replay ∷ [])
      × (is_rejected (process_frame assoc_map frame 100 now p).1 ≡ true))

  abbrev TestProcessFrameOldSeqRejected : Type 0
  TestProcessFrameOldSeqRejected = Unwraps (make_frame_with_sap 50 true) (λ frame1.
      Unwraps (make_frame_with_sap 40 true) (λ frame2.
        (processes now ((frame1, 100) ∷ (frame2, 100) ∷ []) start).1
        ≡ passed ∷ rejected_replay ∷ []))

  abbrev TestProcessFrameNewerSeqAllowed : Type 0
  TestProcessFrameNewerSeqAllowed = Unwraps (make_frame_with_sap 42 true) (λ frame1.
      Unwraps (make_frame_with_sap 43 true) (λ frame2.
        Unwraps (make_frame_with_sap 100 true) (λ frame3.
          let (p, results) =
            processes now ((frame1, 100) ∷ (frame2, 100) ∷ (frame3, 100) ∷ []) start in
          (results ≡ passed ∷ passed ∷ passed ∷ []) × (last_seq assoc_map 100 p ≡ some 100))))

  abbrev TestProcessFrameReplayDisabledSkipsCheck : Type 0
  TestProcessFrameReplayDisabledSkipsCheck = Unwraps (make_frame_with_sap 42 false) (λ frame.
      let (p, results) = processes now ((frame, 100) ∷ (frame, 100) ∷ []) start in
      (results ≡ passed ∷ passed ∷ []) × (last_seq assoc_map 100 p ≡ none))

  abbrev TestProcessFrameNoSap : Type 0
  TestProcessFrameNoSap = Unwraps make_frame_without_sap (λ frame.
      let result = (process_frame assoc_map frame 100 now start).1 in
      (result ≡ no_sap) × (is_allowed result ≡ true))

  abbrev TestProcessFrameMultipleSourcesIsolated : Type 0
  TestProcessFrameMultipleSourcesIsolated = Unwraps (make_frame_with_sap 42 true) (λ frame.
      let (p, results) = processes now ((frame, 100) ∷ (frame, 200) ∷ []) start in
      (results ≡ passed ∷ passed ∷ []) × (ReplayCache.len assoc_map p.replay_cache ≡ 2))

  abbrev TestProcessFrameMultipleTenantsIsolated : Type 0
  TestProcessFrameMultipleTenantsIsolated = Unwraps (make_frame_with_sap 42 true) (λ frame.
      ((process_frame assoc_map frame 100 now start).1 ≡ passed)
      × ((process_frame assoc_map frame 100 now (new assoc_map 2)).1 ≡ passed))

  abbrev TestCheckFrameDoesNotUpdate : Type 0
  TestCheckFrameDoesNotUpdate = Unwraps (make_frame_with_sap 42 true) (λ frame.
      let (p, result) = process_frame assoc_map frame 100 now start in
      (check_frame assoc_map frame 100 start ≡ passed)
      × (ReplayCache.is_empty assoc_map start.replay_cache ≡ true)
      × (result ≡ passed)
      × (ReplayCache.len assoc_map p.replay_cache ≡ 1))

  abbrev TestRemoveSourceAfterKeyRotation : Type 0
  TestRemoveSourceAfterKeyRotation = Unwraps (make_frame_with_sap 42 true) (λ frame.
      let (p, _) = process_frame assoc_map frame 100 now start in
      let (p', known) = remove_source assoc_map 100 p in
      (last_seq assoc_map 100 p ≡ some 42)
      × (known ≡ true)
      × (last_seq assoc_map 100 p' ≡ none)
      × ((process_frame assoc_map frame 100 now p').1 ≡ passed))

  tests_hold_at :
      TestProcessFrameFirstSeenAllowed × TestProcessFrameReplayRejected
      × TestProcessFrameOldSeqRejected × TestProcessFrameNewerSeqAllowed
      × TestProcessFrameReplayDisabledSkipsCheck × TestProcessFrameNoSap
      × TestProcessFrameMultipleSourcesIsolated × TestProcessFrameMultipleTenantsIsolated
      × TestCheckFrameDoesNotUpdate × TestRemoveSourceAfterKeyRotation
  unfolding Frame.new is_replay_disabled process_frame check_frame cleanup_expired last_seq
      remove_source is_allowed is_rejected check_and_update insert_new check_only
      ReplayCache.last_seq ReplayCache.cleanup_expired ReplayCache.remove ReplayCache.len
      ReplayCache.is_empty
  tests_hold_at = (
    (refl, refl, refl),
    (refl, refl),
    refl,
    (refl, refl),
    (refl, refl),
    (refl, refl),
    (refl, refl),
    (refl, refl),
    (refl, refl, refl, refl),
    (refl, refl, refl, refl),
  )

abbrev TestCleanupExpired : Type 0
TestCleanupExpired = Unwraps (make_frame_with_sap 42 true) (λ frame1.
    Unwraps (make_frame_with_sap 43 true) (λ frame2.
      let (p, _) =
        processes 0 ((frame1, 100) ∷ (frame2, 200) ∷ []) (with_ttl assoc_map 1 (10 * 1000000)) in
      let (left, cleaned) = cleanup_expired assoc_map (20 * 1000000) p in
      (ReplayCache.len assoc_map p.replay_cache ≡ 2)
      × (cleaned ≡ 2)
      × (ReplayCache.is_empty assoc_map left.replay_cache ≡ true)))

abbrev TestFrameProcessResultIsAllowed : Type 0
TestFrameProcessResultIsAllowed =
    (is_allowed passed ≡ true)
    × (is_allowed no_sap ≡ true)
    × (is_allowed rejected_replay ≡ false)
    × (is_allowed rejected_cache_full ≡ false)

abbrev TestFrameProcessResultIsRejected : Type 0
TestFrameProcessResultIsRejected =
    (is_rejected passed ≡ false)
    × (is_rejected no_sap ≡ false)
    × (is_rejected rejected_replay ≡ true)
    × (is_rejected rejected_cache_full ≡ true)

tests_hold :
    TestProcessorNew × TestCleanupExpired × TestFrameProcessResultIsAllowed
    × TestFrameProcessResultIsRejected
unfolding Frame.new is_replay_disabled process_frame check_frame cleanup_expired last_seq
    remove_source is_allowed is_rejected check_and_update insert_new check_only ReplayCache.last_seq
    ReplayCache.cleanup_expired ReplayCache.remove ReplayCache.len ReplayCache.is_empty
tests_hold = ((refl, refl), (refl, refl, refl), (refl, refl, refl, refl), (refl, refl, refl, refl))
