-- ===== src/Catastrophic/UnitTests.antt =====
-- The unit tests of src/catastrophic.rs, with a stand-in for the hash function and the clock; `now` is any
-- time of the clock.
use bind.Common.{
  zero, suc, ℕ, ◌+◌, ◌%◌, ◌≡◌, refl, true, false, Option, none, some, List, [], ◌∷◌, length,
  replicate, Result, ok, err, Unwraps, or_panic,
}
use bind.Common.Bytes.{bytes_eq}
use bind.Config.{codes}
use bind.Pfp
use bind.Pfp.Enums.{
  executive, cognitive, low, catastrophic, moving, unknown, critical_edge, safe, external, internal,
  normal, hard_override,
}
use bind.Catastrophic.{
  event_bus_capacity, audit_log_max_entries, CatastrophicEvent, CatastrophicAuditLog,
  CatastrophicManager, new_event, event_hash, new_audit_entry, verify_hash, new_log, append,
  verify_from, verify_chain, last, clear, new_manager, is_catastrophic_override, handle_frame,
  verify_audit_chain, audit_entries, total_triggers,
}
use bind.Catastrophic.Channel.{EventChannel, TryRecvError, queue_empty, send, try_recv}

abbrev make_catastrophic_pfp_bytes : List ℕ
make_catastrophic_pfp_bytes =
    Pfp.encode (Pfp.new executive catastrophic moving critical_edge external hard_override true)

abbrev make_normal_pfp_bytes : List ℕ
make_normal_pfp_bytes = Pfp.encode (Pfp.new cognitive low unknown safe internal normal true)

abbrev TestConstants : Type 0
TestConstants = (event_bus_capacity ≡ 1024) × (audit_log_max_entries ≡ 10000)

-- The event with a counter, of the source `test`, after a number of others.
abbrev event_of : ℕ × ℕ → ℕ → CatastrophicEvent
event_of now i = new_event make_catastrophic_pfp_bytes (some i) none (codes "test") now

-- `for i in 0..n { log.append(event) }`, from the counter `i` on.
abbrev append_all : (List ℕ → List ℕ) → ℕ × ℕ → ℕ → ℕ → CatastrophicAuditLog → CatastrophicAuditLog
append_all sha256 now zero i log = log
append_all sha256 now (suc n) i log =
    append_all sha256 now n (i + 1) (append sha256 (event_of now i) log)

abbrev handle_all : (List ℕ → List ℕ) → ℕ × ℕ → ℕ → ℕ → CatastrophicManager → CatastrophicManager
handle_all sha256 now zero i m = m
handle_all sha256 now (suc n) i m =
    handle_all sha256 now n (i + 1)
      (handle_frame sha256 make_catastrophic_pfp_bytes (some i) none (codes "test") now m).0

module _ (now : ℕ × ℕ) where
  abbrev TestEventCreation : Type 0
  TestEventCreation =
      let pfp = make_catastrophic_pfp_bytes in
      let event = new_event pfp (some 42) none (codes "tuck") now in
      (event.pfp_bytes ≡ pfp) × (event.seq_counter ≡ some 42) × (event.source ≡ codes "tuck")

  abbrev TestCatastrophicEventWithSensorContext : Type 0
  TestCatastrophicEventWithSensorContext =
      let context = 0xDE ∷ 0xAD ∷ 0xBE ∷ 0xEF ∷ [] in
      (new_event make_catastrophic_pfp_bytes (some 1) (some context) (codes "tuck")
        now).sensor_context
      ≡ some context

  tests_hold_at : TestEventCreation × TestCatastrophicEventWithSensorContext
  unfolding Pfp.encode Pfp.encode_byte2 Pfp.encode_byte3 event_hash new_audit_entry verify_hash
      append verify_from verify_chain last clear is_catastrophic_override handle_frame
      verify_audit_chain audit_entries total_triggers send try_recv
  tests_hold_at = ((refl, refl, refl), refl)

-- A stand-in for SHA-256 with 32 bytes.
abbrev sum : List ℕ → ℕ
sum [] = 0
sum (a ∷ x) = a + sum x

abbrev sum_hash : List ℕ → List ℕ
sum_hash x = (sum x % 256) ∷ replicate 31 1

abbrev clock : ℕ × ℕ
clock = (1000, 500)

abbrev TestEventHashDeterministic : Type 0
TestEventHashDeterministic =
    let set : CatastrophicEvent → CatastrophicEvent =
      λ event. record event { timestamp = 1000; timestamp_nanos = 500 } in
    event_hash sum_hash (set (event_of clock 1)) ≡ event_hash sum_hash (set (event_of (1001, 7) 1))

abbrev TestEventHashDifferentInputs : Type 0
TestEventHashDifferentInputs =
    let event1 = new_event make_catastrophic_pfp_bytes (some 1) none (codes "test1") clock in
    let event2 = new_event make_catastrophic_pfp_bytes (some 2) none (codes "test2") clock in
    bytes_eq (event_hash sum_hash event1) (event_hash sum_hash event2) ≡ false

abbrev TestAuditEntryVerify : Type 0
TestAuditEntryVerify =
    verify_hash sum_hash (new_audit_entry sum_hash 0 (event_of clock 1) (replicate 32 0)) ≡ true

abbrev TestAuditLogAppendAndVerify : Type 0
TestAuditLogAppendAndVerify =
    let log = append_all sum_hash clock 5 0 new_log in
    (length log.entries ≡ 5)
    × (log.total_triggers ≡ 5)
    × (verify_chain sum_hash log ≡ true)
    × Unwraps {E = Unit {0}} (or_panic (last log)) (λ entry. entry.sequence ≡ 4)

-- Three events, the second one with another source.
abbrev tampered_log : CatastrophicAuditLog
tampered_log = append sum_hash (event_of clock 2) (
    append sum_hash (record (event_of clock 1) { source = codes "tampered" })
      (append sum_hash (event_of clock 0) new_log))

abbrev TestAuditLogChainTamperDetection : Type 0
TestAuditLogChainTamperDetection =
    let log = append_all sum_hash clock 3 0 new_log in
    (verify_chain sum_hash log ≡ true)
    × (verify_chain sum_hash tampered_log ≡ true)
    × Unwraps {E = Unit {0}} (or_panic (last log)) (λ entry.
      Unwraps {E = Unit {0}} (or_panic (last tampered_log))
        (λ tampered. bytes_eq entry.hash tampered.hash ≡ false))

abbrev TestIsCatastrophicOverrideDetection : Type 0
TestIsCatastrophicOverrideDetection =
    (is_catastrophic_override make_catastrophic_pfp_bytes ≡ true)
    × (is_catastrophic_override make_normal_pfp_bytes ≡ false)

abbrev TestManagerHandleFrameTriggers : Type 0
TestManagerHandleFrameTriggers =
    let (manager, triggered) =
      handle_frame sum_hash make_catastrophic_pfp_bytes (some 42) none (codes "tuck") clock
        new_manager in
    let (bus, received) = try_recv manager.event_bus in
    (triggered ≡ true)
    × (total_triggers manager ≡ 1)
    × (length (audit_entries manager) ≡ 1)
    × (verify_audit_chain sum_hash manager ≡ true)
    × Unwraps received (λ event. (event.seq_counter ≡ some 42) × (event.source ≡ codes "tuck"))

abbrev TestManagerHandleFrameNoTrigger : Type 0
TestManagerHandleFrameNoTrigger =
    let (manager, triggered) =
      handle_frame sum_hash make_normal_pfp_bytes (some 1) none (codes "tuck") clock new_manager in
    (triggered ≡ false)
    × (total_triggers manager ≡ 0)
    × ((try_recv manager.event_bus).1 ≡ err queue_empty)
    × (length (audit_entries manager) ≡ 0)

-- The counters of the next events on a bus, one for each of `n` calls of `try_recv` that succeeds.
abbrev counter_then : Result TryRecvError CatastrophicEvent → List (Option ℕ) → List (Option ℕ)
counter_then (ok event) rest = event.seq_counter ∷ rest
counter_then _ rest = rest

abbrev next_counters :
    ℕ → EventChannel CatastrophicEvent → EventChannel CatastrophicEvent × List (Option ℕ)
next_counters zero bus = (bus, [])
next_counters (suc n) bus =
    let (bus', received) = try_recv bus in
    let (out, counters) = next_counters n bus' in (out, counter_then received counters)

abbrev TestEventBusMultipleEvents : Type 0
TestEventBusMultipleEvents =
    let manager = handle_all sum_hash clock 10 0 new_manager in
    let (bus, counters) = next_counters 10 manager.event_bus in
    (total_triggers manager ≡ 10)
    × (counters
        ≡ some 0
          ∷ some 1
          ∷ some 2
          ∷ some 3
          ∷ some 4
          ∷ some 5
          ∷ some 6
          ∷ some 7
          ∷ some 8
          ∷ some 9
          ∷ [])
    × ((try_recv bus).1 ≡ err queue_empty)

abbrev TestAuditLogRotation : Type 0
TestAuditLogRotation =
    let log = append_all sum_hash clock 100 0 new_log in
    (length log.entries ≡ 100) × (log.total_triggers ≡ 100) × (verify_chain sum_hash log ≡ true)

abbrev TestAuditLogClear : Type 0
TestAuditLogClear =
    let log = append_all sum_hash clock 5 0 new_log in
    (log.total_triggers ≡ 5) × (length (clear log).entries ≡ 0) × ((clear log).total_triggers ≡ 5)

-- A clone shares the log, so its calls are calls on the one manager.
abbrev TestManagerCloneSharesAuditLog : Type 0
TestManagerCloneSharesAuditLog =
    let (once, _) =
      handle_frame sum_hash make_catastrophic_pfp_bytes (some 1) none (codes "test1") clock
        new_manager in
    let (twice, _) =
      handle_frame sum_hash make_catastrophic_pfp_bytes (some 2) none (codes "test2") clock once in
    (total_triggers twice ≡ 2) × (length (audit_entries twice) ≡ 2)

tests_hold :
    TestConstants × TestEventHashDeterministic × TestEventHashDifferentInputs × TestAuditEntryVerify
    × TestAuditLogAppendAndVerify × TestAuditLogChainTamperDetection
    × TestIsCatastrophicOverrideDetection × TestManagerHandleFrameTriggers
    × TestManagerHandleFrameNoTrigger × TestEventBusMultipleEvents × TestAuditLogRotation
    × TestAuditLogClear × TestManagerCloneSharesAuditLog
unfolding Pfp.encode Pfp.encode_byte2 Pfp.encode_byte3 event_hash new_audit_entry verify_hash append
    verify_from verify_chain last clear is_catastrophic_override handle_frame verify_audit_chain
    audit_entries total_triggers send try_recv
tests_hold = (
  (refl, refl),
  refl,
  refl,
  refl,
  (refl, refl, refl, refl),
  (refl, refl, refl),
  (refl, refl),
  (refl, refl, refl, refl, (refl, refl)),
  (refl, refl, refl, refl),
  (refl, refl, refl),
  (refl, refl, refl),
  (refl, refl, refl),
  (refl, refl),
)
