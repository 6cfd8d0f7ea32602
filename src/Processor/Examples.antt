-- ===== src/Processor/Examples.antt =====
-- Runs of src/processor.rs over a list of pairs.
use bind.Common.{
  is_some, leb, none, ℕ, ◌≡◌, ◌≢◌, refl, arith, Bool, true, false, not, ◌&&◌, some, List, [], ◌∷◌,
  ◌==◌, replicate, if◌then◌else◌,
}
use bind.Pfp
use bind.Pfp.Enums.{executive, medium, catastrophic, moving, critical_edge, external, hard_override}
use bind.Sap
use bind.Sap.{SapHeader, needs_key_rotation, increment_seq}
use bind.Config.{rule6_enabled}
use bind.Frame.{BindFrame, is_replay_disabled, effective_risk_level_with_config}
use bind.Frame.Header.{frame_data}
use bind.ReplayCache.{check_and_update, insert_new}
use bind.ReplayCache.AssocMap.{Pairs, assoc_map}
use bind.ReplayCache
use bind.ReplayCache.{replay_cache_max_capacity}
use bind.Processor.{
  remove_source, last_seq, rejected_cache_full, FrameProcessor, passed, rejected_replay,
  is_rejected, new, process_frame,
}
use bind.Processor.Renew.{remove_source_lem}
use bind.Processor.Levels.{levels_checked_once}
use bind.Processor.Replay.{Delivery, run_frames, accepted_once, next_frame}

abbrev sap : ℕ → SapHeader
sap n = Sap.new n (replicate 14 0) (replicate 8 0)

abbrev signed : ℕ → Bool → BindFrame
signed n replay_enable = record {
  header = record {
    frame_type = frame_data;
    channel_id = 1;
    flags = 24;
    sequence_id = 0;
    payload_length = 1;
  };
  pfp = some (Pfp.new executive medium moving critical_edge external hard_override replay_enable);
  sap = some (sap n);
  payload = 1 ∷ [];
}

abbrev start : FrameProcessor Pairs
start = new assoc_map 1

first_passes : (n : ℕ) → (process_frame assoc_map (signed n true) 100 5 start).1 ≡ passed
unfolding process_frame check_and_update insert_new
first_passes n = refl

-- Frames of the same source and of another one that arrive in between.
abbrev between : List Delivery
between =
    record { frame = signed 50 true; source = 100; now = 6 }
    ∷ record { frame = signed 42 true; source = 200; now = 7 }
    ∷ record { frame = signed 3 false; source = 100; now = 7 }
    ∷ []

accepted_once_example :
    (process_frame assoc_map
      (signed 42 true)
      100
      8
      (run_frames assoc_map (process_frame assoc_map (signed 42 true) 100 5 start).0 between)).1
    ≡ rejected_replay
accepted_once_example =
    accepted_once assoc_map (signed 42 true) (signed 42 true) (sap 42) (sap 42) 100 5 8 start
      between refl (unfold is_replay_disabled in refl) (first_passes 42) refl
      (unfold is_replay_disabled in refl) (omega arith)

-- A frame with the highest level.
abbrev graded : ℕ → BindFrame
graded n = record (signed n true) {
  pfp = some (Pfp.new executive catastrophic moving critical_edge external hard_override true);
}

level_other : catastrophic ≢ medium
level_other e = cc

graded_passes : (n : ℕ) → (process_frame assoc_map (graded n) 100 5 start).1 ≡ passed
unfolding process_frame check_and_update insert_new
graded_passes n = refl

graded_level :
    (n : ℕ)
    → effective_risk_level_with_config (graded n) (record { debug_mode = false })
      ≡ some catastrophic
unfolding effective_risk_level_with_config Pfp.effective_risk_level rule6_enabled
graded_level n = refl

levels_checked_once_example :
    (process_frame assoc_map
      (graded 42)
      100
      8
      (run_frames assoc_map (process_frame assoc_map (graded 42) 100 5 start).0 between)).1
    ≡ rejected_replay
levels_checked_once_example =
    levels_checked_once assoc_map (graded 42) (graded 42) (sap 42) (sap 42) catastrophic
      catastrophic 100 5 8 start between refl (graded_level 42) level_other (graded_passes 42) refl
      (graded_level 42) level_other (omega arith)

next_frame_example :
    let answer =
      (process_frame assoc_map
        (signed 0 true)
        100
        6
        (process_frame assoc_map (signed 65535 true) 100 5 start).0).1 in
    (answer ≡ (if (sap 65535).seq_counter == 65535 then rejected_replay else passed))
    × (is_rejected answer && not (needs_key_rotation (sap 65535)) ≡ false)
next_frame_example =
    next_frame assoc_map (signed 65535 true) (signed 0 true) (sap 65535) (sap 0) 100 5 6 start refl
      (unfold is_replay_disabled in refl) (first_passes 65535) refl
      (unfold is_replay_disabled in refl) (omega arith) (unfold increment_seq in refl)

abbrev accepted : FrameProcessor Pairs
accepted = (process_frame assoc_map (signed 42 true) 100 5 start).0

remove_source_lem_example :
    let (p', known) = remove_source assoc_map 100 accepted in
    (known ≡ is_some (last_seq assoc_map 100 accepted))
    × (last_seq assoc_map 200 p' ≡ (if 100 == 200 then none else last_seq assoc_map 200 accepted))
    × ((process_frame assoc_map (signed 42 true) 100 8 p').1 ≡ (
        if leb replay_cache_max_capacity (ReplayCache.len assoc_map p'.replay_cache)
        then rejected_cache_full
        else passed))
remove_source_lem_example =
    remove_source_lem assoc_map (signed 42 true) (sap 42) 100 200 8 accepted refl
      (unfold is_replay_disabled in refl)
