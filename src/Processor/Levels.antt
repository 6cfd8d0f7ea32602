-- ===== src/Processor/Levels.antt =====
-- Rules 4 and 6 of src/processor.rs and src/frame.rs together: the effective risk level of a frame and its
-- replay check.
use bind.Common.{ℕ, ◌≤◌, ◌≡◌, ◌≢◌, arith, false, some, List}
use bind.Config.{rule6_enabled}
use bind.Pfp
use bind.Pfp.Enums.{RiskLevel, medium}
use bind.Sap.{SapHeader}
use bind.Frame.{BindFrame, effective_risk_level_with_config, is_replay_disabled}
use bind.ReplayCache.{ReplayMap}
use bind.Processor.{FrameProcessor, passed, rejected_replay, process_frame}
use bind.Processor.Replay.{Delivery, run_frames, accepted_once}

-- In production, a frame whose level is not MEDIUM has its replay bit on.
level_checked :
    (f : BindFrame) (r : RiskLevel)
    → effective_risk_level_with_config f (record { debug_mode = false }) ≡ some r
    → r ≢ medium
    → is_replay_disabled f ≡ false
unfolding effective_risk_level_with_config is_replay_disabled Pfp.effective_risk_level rule6_enabled
level_checked f r e other = ground arith

module _ {M : Type 0} (map : ReplayMap M) where
  -- In production, no counter serves twice for a level other than MEDIUM: once a frame with a SAP whose
  -- effective level is not MEDIUM has passed, then after any further frames from any sources, at any
  -- times, every frame of the same source whose effective level is not MEDIUM and whose counter is not
  -- above is rejected as a replay.
  pub levels_checked_once :
      (f g : BindFrame) (s t : SapHeader) (r q : RiskLevel) (source now later : ℕ)
      (p : FrameProcessor M) (ds : List Delivery)
      → f.sap ≡ some s
      → effective_risk_level_with_config f (record { debug_mode = false }) ≡ some r
      → r ≢ medium
      → (process_frame map f source now p).1 ≡ passed
      → g.sap ≡ some t
      → effective_risk_level_with_config g (record { debug_mode = false }) ≡ some q
      → q ≢ medium
      → t.seq_counter ≤ s.seq_counter
      → (process_frame map g source later
          (run_frames map (process_frame map f source now p).0 ds)).1
        ≡ rejected_replay
  levels_checked_once f g s t r q source now later p ds fs fr fm ok gs gr gm low =
      accepted_once map f g s t source now later p ds fs (level_checked f r fr fm) ok gs
        (level_checked g q gr gm) low
