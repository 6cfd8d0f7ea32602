-- ===== src/Tuck/Examples.antt =====
-- Runs of examples/tuck_integration.rs: the scenarios of its `main`, and the theorems at concrete inputs.
use bind.Common.{
  ℕ, ◌+◌, ◌++◌, ◌≡◌, refl, arith, Bool, true, false, some, List, [], ◌∷◌, length, replicate, ok,
  if◌then◌else◌,
}
use bind.Pfp
use bind.Pfp.{PfpHeader}
use bind.Pfp.Enums.{
  executive, medium, catastrophic, moving, critical_edge, external, normal, hard_override,
  RiskLevel, OverrideFlag, is_catastrophic, is_hard_override,
}
use bind.Sap
use bind.Frame
use bind.Frame.{BindFrame, is_replay_disabled, effective_risk_level_with_config}
use bind.Frame.Header.{from_byte, to_byte, has_pfp, has_sap, frame_data}
use bind.Config.{rule6_enabled}
use bind.ReplayCache.{check_and_update, insert_new}
use bind.ReplayCache.AssocMap.{Pairs, assoc_map}
use bind.Processor.{process_frame, is_rejected, check_frame}
use bind.Catastrophic.{is_catastrophic_override, handle_frame, new_log}
use bind.Catastrophic.Channel.{drop_receiver, new_channel}
use bind.Catastrophic.Chain.{appends}
use bind.Tuck.{TuckGate, allow, reject, catastrophic_override, new, decide, make_frame}
use bind.Tuck.Decide.{table, is_processed, events_of, decide_lem}
use bind.Tuck.Override.{
  Visit, visit, run, decisions, all_events, events_logged_not_sent, override_repeats,
}
use bind.Frame.WellFormed.{IsWellFormed}
use bind.Tuck.Scenarios
use bind.Tuck.Wire.{decide-decode}
use bind.Tuck.Replay.{IsGuarded, gate_accepts_once}

abbrev length_hash : List ℕ → List ℕ
length_hash x = length x ∷ replicate 31 1

abbrev header : RiskLevel → OverrideFlag → Bool → PfpHeader
header risk override_flag replay_enable =
    Pfp.new executive risk moving critical_edge external override_flag replay_enable

abbrev frame : RiskLevel → OverrideFlag → Bool → ℕ → BindFrame
frame risk override_flag replay_enable seq = record {
  header = record {
    frame_type = frame_data;
    channel_id = 1;
    flags = 24;
    sequence_id = 0;
    payload_length = 0;
  };
  pfp = some (header risk override_flag replay_enable);
  sap = some (Sap.new seq (replicate 14 0xAB) (replicate 8 0xCD));
  payload = [];
}

frame_made : make_frame medium normal true 1 ≡ ok (frame medium normal true 1)
unfolding Frame.new
frame_made = refl

abbrev at : BindFrame → Visit
at f = record { frame = f; source = 100; now = 5; clock = (1000, 0) }

abbrev gate : TuckGate Pairs
gate = new assoc_map 1

-- The four scenarios of `main` with a PFP, and one that it does not have: the override with the replay
-- bit off, sent twice.
scenarios :
    decisions assoc_map length_hash gate (
      at (frame medium normal true 1)
      ∷ at (frame medium normal true 1)
      ∷ at (frame catastrophic hard_override true 2)
      ∷ at (frame catastrophic normal false 3)
      ∷ at (frame catastrophic hard_override false 3)
      ∷ at (frame catastrophic hard_override false 3)
      ∷ [])
    ≡ allow ∷ reject ∷ catastrophic_override ∷ allow ∷ catastrophic_override ∷ catastrophic_override
      ∷ []
unfolding decisions decide handle_frame process_frame check_and_update insert_new is_rejected
    is_catastrophic_override Pfp.encode Pfp.encode_byte2 Pfp.encode_byte3
scenarios = refl

decide_lem_example :
    let v = frame medium normal true 1 in
    let (g', decision) = decide assoc_map length_hash v 100 5 (1000, 0) gate in
    (decision ≡ table v.pfp (check_frame assoc_map v 100 gate.processor))
    × (g'.processor ≡ (
        if is_processed v.pfp
        then (process_frame assoc_map v 100 5 gate.processor).0
        else gate.processor))
    × (g'.catastrophic.audit_log
        ≡ appends length_hash gate.catastrophic.audit_log (events_of v.pfp v.sap (1000, 0)))
    × (g'.catastrophic.event_bus.queue
        ≡ gate.catastrophic.event_bus.queue
          ++ (if gate.catastrophic.event_bus.receiver_alive
              then events_of v.pfp v.sap (1000, 0)
              else []))
decide_lem_example =
    decide_lem assoc_map length_hash (frame medium normal true 1) 100 5 (1000, 0) gate

abbrev alarm : Visit
alarm = at (frame catastrophic hard_override false 3)

events_logged_not_sent_example :
    let g = run assoc_map length_hash gate (alarm ∷ alarm ∷ []) in
    (g.catastrophic.audit_log ≡ appends length_hash new_log (all_events (alarm ∷ alarm ∷ [])))
    × (g.catastrophic.event_bus ≡ drop_receiver new_channel)
events_logged_not_sent_example = events_logged_not_sent assoc_map length_hash 1 (alarm ∷ alarm ∷ [])

-- The alarm has the effective level `medium`, and is answered with the override all the same.
alarm_is_medium :
    effective_risk_level_with_config alarm.frame (record { debug_mode = false }) ≡ some medium
unfolding effective_risk_level_with_config rule6_enabled Pfp.effective_risk_level
alarm_is_medium = refl

override_repeats_example :
    (decisions assoc_map length_hash gate (replicate 3 alarm) ≡ replicate 3 catastrophic_override)
    × ((run assoc_map length_hash gate (replicate 3 alarm)).processor ≡ gate.processor)
    × ((run assoc_map length_hash gate (replicate 3 alarm)).catastrophic.audit_log.total_triggers
        ≡ gate.catastrophic.audit_log.total_triggers + 3)
override_repeats_example = override_repeats assoc_map length_hash 3 alarm gate (
    unfold Frame.is_catastrophic_override Pfp.is_catastrophic_override is_catastrophic
      is_hard_override in
    refl)

guarded :
    (seq : ℕ)
    → IsGuarded
        (frame medium normal true seq)
        (header medium normal true)
        (Sap.new seq (replicate 14 0xAB) (replicate 8 0xCD))
unfolding Pfp.is_catastrophic_override is_catastrophic is_hard_override is_replay_disabled
guarded seq = record { has_pfp = refl; quiet = refl; has_sap = refl; enabled = refl }

first_allowed : (visit assoc_map length_hash gate (at (frame medium normal true 7))).1 ≡ allow
unfolding decide handle_frame process_frame check_and_update insert_new is_rejected
    is_catastrophic_override Pfp.encode Pfp.encode_byte2 Pfp.encode_byte3
first_allowed = refl

gate_accepts_once_example :
    (visit assoc_map length_hash
      (run assoc_map length_hash
        (visit assoc_map length_hash gate (at (frame medium normal true 7))).0
        (alarm ∷ []))
      (at (frame medium normal true 7))).1
    ≡ reject
gate_accepts_once_example =
    gate_accepts_once assoc_map length_hash (at (frame medium normal true 7))
      (at (frame medium normal true 7)) (header medium normal true) (header medium normal true)
      (Sap.new 7 (replicate 14 0xAB) (replicate 8 0xCD))
      (Sap.new 7 (replicate 14 0xAB) (replicate 8 0xCD)) gate (alarm ∷ []) (guarded 7) (guarded 7)
      refl (omega arith) first_allowed

-- No assertion of the example fails over a list of pairs.
main_runs : Scenarios.main assoc_map (λ x. length x ∷ replicate 31 1) 5 (1000, 0) ≡ ok tt
unfolding Scenarios.main decide handle_frame process_frame check_and_update insert_new is_rejected
    is_catastrophic_override Frame.new Pfp.encode Pfp.encode_byte2 Pfp.encode_byte3
main_runs = refl

alarm-IsWellFormed : IsWellFormed alarm.frame
unfolding from_byte to_byte has_pfp has_sap
alarm-IsWellFormed = record {
  frame_type = record { byte = omega arith; same = refl };
  channel = omega arith;
  flags = omega arith;
  sequence = omega arith;
  pfp_present = refl;
  sap_present = refl;
  sap_valid = omega arith;
  payload_length = refl;
  payload_fits = omega arith;
}

decide-decode_example :
    (received : BindFrame) × (Frame.decode (Frame.encode alarm.frame ++ (1 ∷ [])) ≡ ok received)
    × (decide assoc_map length_hash received 100 5 (1000, 0) gate
        ≡ decide assoc_map length_hash alarm.frame 100 5 (1000, 0) gate)
decide-decode_example =
    decide-decode assoc_map length_hash 100 5 (1000, 0) gate alarm.frame (1 ∷ []) alarm-IsWellFormed
