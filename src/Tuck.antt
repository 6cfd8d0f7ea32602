-- ===== src/Tuck.antt =====
-- examples/tuck_integration.rs: the Tuck gate, which puts the CATASTROPHIC manager before a tenant's
-- frame processor. `now` is the time of the replay cache and `clock` that of the audit log; the map and
-- the hash are arguments as in ReplayCache and Catastrophic. The text printed by `main` is left out.
pub mod Decide
pub mod Override
pub mod Replay
pub mod Wire
pub mod Scenarios
mod Examples
use bind.Common.{unwrap, ℕ, Bool, Option, none, some, List, if◌then◌else◌, map}
use bind.Config.{codes}
use bind.Pfp
use bind.Pfp.Enums.{executive, moving, critical_edge, external, RiskLevel, OverrideFlag}
use bind.Sap
use bind.Sap.{SapHeader}
use bind.Frame
use bind.Frame.{BindFrame, FrameError}
use bind.Frame.Header.{frame_data}
use bind.Common.{replicate, [], Result}
use bind.ReplayCache.{ReplayMap}
use bind.Processor
use bind.Processor.{FrameProcessor, is_rejected, process_frame}
use bind.Catastrophic.{CatastrophicManager, new_manager, handle_frame}
use bind.Catastrophic.Channel.{drop_receiver}

pub data TuckDecision : Type 0 where
  allow reject catastrophic_override no_sap : TuckDecision

pub record TuckGate (M : Type 0) : Type 0 where
  pub processor : FrameProcessor M
  pub catastrophic : CatastrophicManager

-- "Tuck hard-real-time decision"
abbrev pub tuck_source : List ℕ
tuck_source = codes "Tuck hard-real-time decision"

-- `frame.sap.as_ref().map(|s| s.seq_counter)`
abbrev pub sap_seq : Option SapHeader → Option ℕ
sap_seq none = none
sap_seq (some s) = some s.seq_counter

module _ {M : Type 0} (map : ReplayMap M) where
  -- `TuckGate::new`: the receiver is dropped on return.
  abbrev pub new : ℕ → TuckGate M
  new tenant = record {
    processor = Processor.new map tenant;
    catastrophic = record new_manager { event_bus = drop_receiver (new_manager.event_bus) };
  }

  module _ (sha256 : List ℕ → List ℕ) where
    -- `TuckGate::decide`
    unfoldable pub decide : BindFrame → ℕ → ℕ → ℕ × ℕ → TuckGate M → TuckGate M × TuckDecision
    decide frame source now clock g = elim (frame.pfp) [
      | none ↦ (g, no_sap)
      | some pfp ↦
          let (manager, triggered) =
            handle_frame sha256 (Pfp.encode pfp) (sap_seq frame.sap) none tuck_source clock
              g.catastrophic in
          if triggered
          then (record g { catastrophic = manager }, catastrophic_override)
          else (let (processor, result) = process_frame map frame source now g.processor in
              (
                record { processor = processor; catastrophic = manager },
                if is_rejected result then reject else allow,
              ))
    ]

-- `make_frame`
abbrev pub make_frame : RiskLevel → OverrideFlag → Bool → ℕ → Result FrameError BindFrame
make_frame risk override_flag replay_enable seq = unwrap (
    Frame.new frame_data 1 0
      (some (Pfp.new executive risk moving critical_edge external override_flag replay_enable))
      (some (Sap.new seq (replicate 14 0xAB) (replicate 8 0xCD))) [])
