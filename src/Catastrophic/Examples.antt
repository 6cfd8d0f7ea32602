-- ===== src/Catastrophic/Examples.antt =====
-- Runs of src/catastrophic.rs, with stand-ins for the hash function.
use bind.Common.{
  ltb, ◌⊎◌, refl, err, ℕ, ◌≡◌, arith, true, false, none, some, List, [], ◌∷◌, length, replicate,
  length-replicate,
}
use bind.Pfp
use bind.Frame.{BindFrame}
use bind.Frame.Header.{frame_data}
use bind.Pfp.{PfpHeader}
use bind.Pfp.Enums.{executive, catastrophic, moving, critical_edge, external, hard_override}
use bind.Catastrophic.{
  CatastrophicAuditLog, append, CatastrophicEvent, new_event, new_log, new_manager, event_hash,
  new_audit_entry, verify_hash, verify_chain, is_catastrophic_override, append, zero_hash,
}
use bind.Catastrophic.Channel.{
  default_channel, queue_empty, timed_out, send, try_recv, recv, recv_timeout, quiet, has_receivers,
  EventChannel, ended, iter, drop_sender,
}
use bind.Catastrophic.Bus.{Arrival, triggered, handle_all}
use bind.Catastrophic.Iter.{loop_sees_all}
use bind.Catastrophic.Clones.{count_if, logged, one, two, begin, IsDone, interleave, turn, advance}
use bind.Catastrophic.Clones.Agree.{clones_agree}
use bind.Catastrophic.Tamper.{Agree, Collision, tamper_evident}
use bind.Catastrophic.Chain.{end_of, appends}
use bind.Catastrophic.Rotate.{log_verifies, rotated_log_fails}
use bind.Catastrophic.Hash.{event_hash_ambiguous}

-- A stand-in for SHA-256 with 32 bytes, the first of them the length of its argument.
abbrev length_hash : List ℕ → List ℕ
length_hash x = length x ∷ replicate 31 1

abbrev header : PfpHeader
header = Pfp.new executive catastrophic moving critical_edge external hard_override true

abbrev trigger : List ℕ
trigger = 0xCF ∷ 0x14 ∷ 0x0C ∷ 0x02 ∷ []

abbrev event : CatastrophicEvent
event = new_event trigger (some 7) none (1 ∷ 2 ∷ []) (1000, 5)

rotated_log_fails_example :
    (verify_chain length_hash (appends length_hash new_log (replicate 10001 event)) ≡ false)
    ⊎ ((x : List ℕ) × (length_hash x ≡ zero_hash))
rotated_log_fails_example =
    rotated_log_fails length_hash (replicate 10001 event)
      (omega (arith, length-replicate 10001 event))

-- Two logs of one event each; the events are as long, so this hash does not tell them apart.
abbrev log_of : CatastrophicEvent → CatastrophicAuditLog
log_of e = appends length_hash new_log (e ∷ [])

abbrev other_event : CatastrophicEvent
other_event = record event { timestamp = 1001 }

same_end : end_of zero_hash (log_of event).entries ≡ end_of zero_hash (log_of other_event).entries
unfolding appends append new_audit_entry event_hash
same_end = refl

same_length : length (log_of event).entries ≡ length (log_of other_event).entries
unfolding appends append new_audit_entry event_hash
same_length = refl

tamper_evident_example :
    Agree length_hash (log_of event).entries (log_of other_event).entries ⊎ Collision length_hash
tamper_evident_example =
    tamper_evident length_hash (log_of event) (log_of other_event) (λ x. refl)
      (log_verifies length_hash (event ∷ []) (omega arith))
      (log_verifies length_hash (other_event ∷ []) (omega arith)) same_length same_end

abbrev frame : BindFrame
frame = record {
  header = record {
    frame_type = frame_data;
    channel_id = 1;
    flags = 8;
    sequence_id = 0;
    payload_length = 1;
  };
  pfp = some header;
  sap = none;
  payload = 1 ∷ [];
}

-- Two frames, the first without the override.
abbrev frames : List Arrival
frames =
    record { pfp = 0xCF ∷ 0x14 ∷ 0 ∷ 0 ∷ []; seq = none; context = none; source = []; now = (1, 0) }
    ∷ record { pfp = trigger; seq = some 7; context = none; source = 1 ∷ 2 ∷ []; now = (1000, 5) }
    ∷ []

one_event : triggered frames ≡ event ∷ []
unfolding is_catastrophic_override
one_event = refl

nothing_waits : try_recv {E = ℕ} default_channel ≡ (default_channel, err queue_empty)
unfolding try_recv
nothing_waits = refl

recv_blocks : recv {E = ℕ} default_channel ≡ none
unfolding recv
recv_blocks = refl

wait_ends : (recv_timeout {E = ℕ} quiet default_channel).1 ≡ err timed_out
unfolding recv_timeout
wait_ends = refl

lost_event : (send {E = ℕ} 3 default_channel).1 ≡ err 3
unfolding send
lost_event = refl

always_claimed : has_receivers {E = ℕ} default_channel ≡ true
unfolding has_receivers
always_claimed = refl

event_hash_ambiguous_example :
    (event_hash length_hash (record event { seq_counter = none })
      ≡ event_hash length_hash (record event { seq_counter = some 0 }))
    × (event_hash length_hash (record event { sensor_context = some (1 ∷ 2 ∷ []); source = 3 ∷ [] })
        ≡ event_hash length_hash
            (record event { sensor_context = some (1 ∷ []); source = 2 ∷ 3 ∷ [] }))
    × (verify_hash length_hash
          (record (new_audit_entry length_hash 4 (record event { seq_counter = none }) zero_hash) {
            event = record event { seq_counter = some 0 };
          })
        ≡ verify_hash length_hash
            (new_audit_entry length_hash 4 (record event { seq_counter = none }) zero_hash))
event_hash_ambiguous_example =
    event_hash_ambiguous length_hash event (1 ∷ []) (2 ∷ []) (3 ∷ []) 4 zero_hash

-- Two events wait, and no sender is left.
abbrev closing : EventChannel ℕ
closing = record { queue = 3 ∷ 4 ∷ []; receiver_alive = true; sender_alive = false }

loop_sees_all_example :
    (iter 3 (drop_sender (handle_all length_hash new_manager frames).event_bus)).1
    ≡ ended (triggered frames)
loop_sees_all_example = loop_sees_all length_hash frames

both-IsDone :
    IsDone
      (interleave length_hash (one ∷ two ∷ two ∷ one ∷ []) (begin (event ∷ []) (other_event ∷ [])))
unfolding interleave turn advance
both-IsDone = record {
  first_todo = refl;
  first_held = refl;
  second_todo = refl;
  second_held = refl;
}

-- The second thread comes between the two steps of the first, so bus and log have other orders.
clones_agree_example :
    let m =
      (interleave length_hash
        (one ∷ two ∷ two ∷ one ∷ [])
        (begin (event ∷ []) (other_event ∷ []))).manager in
    (count_if (λ e. ltb 1000 e.timestamp) (logged m.audit_log) ≡ 1)
    × (count_if (λ e. ltb 1000 e.timestamp) m.event_bus.queue ≡ 1)
    × (verify_chain length_hash m.audit_log ≡ true)
clones_agree_example =
    clones_agree length_hash (λ e. ltb 1000 e.timestamp) (event ∷ []) (other_event ∷ [])
      (one ∷ two ∷ two ∷ one ∷ []) (omega arith) both-IsDone
