-- ===== src/Tuck/Scenarios.antt =====
-- The scenarios of `main` of examples/tuck_integration.rs: a failed `assert_eq!` is the outcome panic.
-- `now` and `clock` are the times of all the calls.
use bind.Common.{ℕ, ◌>>=◌, ◌>>◌, Bool, true, false, none, List, Result, unwrap, assert}
use bind.Config.{codes}
use bind.Pfp.Enums.{medium, catastrophic, normal, hard_override}
use bind.Frame
use bind.Frame.{FrameError}
use bind.Frame.Header.{frame_data}
use bind.ReplayCache.{ReplayMap}
use bind.Tuck
use bind.Tuck.{
  TuckDecision, TuckGate, allow, reject, catastrophic_override, no_sap, make_frame, decide,
}

-- `assert_eq!` of a decision
abbrev same_decision : TuckDecision → TuckDecision → Bool
same_decision allow allow = true
same_decision reject reject = true
same_decision catastrophic_override catastrophic_override = true
same_decision no_sap no_sap = true
same_decision _ _ = false

module _ {M : Type 0} (map : ReplayMap M) (sha256 : List ℕ → List ℕ) (now : ℕ) (clock : ℕ × ℕ) where
  -- `main`
  unfoldable pub main : Result FrameError (Unit {0})
  main = do
    frame1 ← make_frame medium normal true 1
    let (tuck1, decision1) = decide map sha256 frame1 100 now clock (Tuck.new map 1)
    assert (same_decision decision1 allow)
    frame2 ← make_frame medium normal true 1
    let (tuck2, decision2) = decide map sha256 frame2 100 now clock tuck1
    assert (same_decision decision2 reject)
    frame3 ← make_frame catastrophic hard_override true 2
    let (tuck3, decision3) = decide map sha256 frame3 100 now clock tuck2
    assert (same_decision decision3 catastrophic_override)
    frame4 ← make_frame catastrophic normal false 3
    let (tuck4, decision4) = decide map sha256 frame4 100 now clock tuck3
    assert (same_decision decision4 allow)
    v1_frame ← unwrap (Frame.new frame_data 1 0 none none (codes "v1.0 frame"))
    let (tuck5, decision5) = decide map sha256 v1_frame 100 now clock tuck4
    assert (same_decision decision5 no_sap)
