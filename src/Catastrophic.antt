-- ===== src/Catastrophic.antt =====
-- src/catastrophic.rs: CATASTROPHIC events, the hash-chained audit log, the event bus and the manager.
-- SHA-256 (crate `sha2`) is an argument, a function on byte strings: `update` calls followed by
-- `finalize` hash the concatenation. `SystemTime::now()` is an argument, a pair of seconds and
-- nanoseconds. A clone of the manager shares both the channel and the log, so there is one state. No lock is poisoned, since no holder panics.
pub mod Channel
pub mod Chain
pub mod Bus
pub mod Iter
pub mod Clones
pub mod Rotate
pub mod Tamper
pub mod Manager
pub mod Hash
mod Examples
mod UnitTests
use bind.Common.{
  ℕ, suc, ◌+◌, ◌/◌, ◌^◌, ◌≡◌, bit_and, Bool, true, false, not, ◌&&◌, Option, none, some, List, [],
  ◌∷◌, ◌++◌, ◌==◌, ltb, if◌then◌else◌, length, drop, replicate, get_or, Result, ok, err,
}
use bind.Catastrophic.Channel.{EventChannel, new_channel, send}
use bind.Common.Bytes.{to_le_bytes, bytes_eq}

-- Nothing reads it.
abbrev pub event_bus_capacity : ℕ
event_bus_capacity = 1024

abbrev pub audit_log_max_entries : ℕ
audit_log_max_entries = 10000

pub record CatastrophicEvent : Type 0 where
  pub timestamp : ℕ
  pub timestamp_nanos : ℕ
  pub pfp_bytes : List ℕ
  pub seq_counter : Option ℕ
  pub sensor_context : Option (List ℕ)
  pub source : List ℕ

-- `CatastrophicEvent::new`
abbrev pub new_event : List ℕ → Option ℕ → Option (List ℕ) → List ℕ → ℕ × ℕ → CatastrophicEvent
new_event pfp seq context source now = record {
  timestamp = now.0;
  timestamp_nanos = now.1;
  pfp_bytes = pfp;
  seq_counter = seq;
  sensor_context = context;
  source = source;
}

abbrev pub seq_bytes : Option ℕ → List ℕ
seq_bytes none = 0 ∷ 0 ∷ []
seq_bytes (some seq) = to_le_bytes 2 seq

abbrev pub context_bytes : Option (List ℕ) → List ℕ
context_bytes none = []
context_bytes (some ctx) = ctx

-- What `CatastrophicEvent::hash` feeds to the hasher.
abbrev pub event_bytes : CatastrophicEvent → List ℕ
event_bytes e =
    to_le_bytes 8 e.timestamp
    ++ (to_le_bytes 4 e.timestamp_nanos
        ++ (e.pfp_bytes
            ++ (seq_bytes e.seq_counter ++ (context_bytes e.sensor_context ++ e.source))))

pub record AuditEntry : Type 0 where
  pub sequence : ℕ
  pub event : CatastrophicEvent
  pub prev_hash : List ℕ
  pub hash : List ℕ

pub record CatastrophicAuditLog : Type 0 where
  pub entries : List AuditEntry
  pub next_sequence : ℕ
  pub last_hash : List ℕ
  pub total_triggers : ℕ

abbrev pub zero_hash : List ℕ
zero_hash = replicate 32 0

-- `CatastrophicAuditLog::new`
abbrev pub new_log : CatastrophicAuditLog
new_log = record { entries = []; next_sequence = 0; last_hash = zero_hash; total_triggers = 0 }

-- `CatastrophicAuditLog::clear`
unfoldable pub clear : CatastrophicAuditLog → CatastrophicAuditLog
clear log = record log { entries = []; next_sequence = 0; last_hash = zero_hash }

-- `Vec::last`
abbrev pub get_last? : List AuditEntry → Option AuditEntry
get_last? [] = none
get_last? (e ∷ []) = some e
get_last? (e ∷ (f ∷ es)) = get_last? (f ∷ es)

-- `CatastrophicAuditLog::last`
unfoldable pub last : CatastrophicAuditLog → Option AuditEntry
last log = get_last? log.entries

module _ (sha256 : List ℕ → List ℕ) where
  -- `CatastrophicEvent::hash`
  unfoldable pub event_hash : CatastrophicEvent → List ℕ
  event_hash e = sha256 (event_bytes e)

  -- `AuditEntry::new`
  unfoldable pub new_audit_entry : ℕ → CatastrophicEvent → List ℕ → AuditEntry
  new_audit_entry sequence event prev = record {
    sequence = sequence;
    event = event;
    prev_hash = prev;
    hash = sha256 (to_le_bytes 8 sequence ++ (event_hash event ++ prev));
  }

  -- `AuditEntry::verify_hash`
  unfoldable pub verify_hash : AuditEntry → Bool
  verify_hash e =
      bytes_eq (sha256 (to_le_bytes 8 e.sequence ++ (event_hash e.event ++ e.prev_hash))) e.hash

  -- `CatastrophicAuditLog::append`; the reference to the new entry that it returns is `last`.
  unfoldable pub append : CatastrophicEvent → CatastrophicAuditLog → CatastrophicAuditLog
  append event log =
      let entry = new_audit_entry log.next_sequence event log.last_hash in
      let pushed = log.entries ++ (entry ∷ []) in
      record {
        entries = if ltb audit_log_max_entries (length pushed) then drop 1 pushed else pushed;
        next_sequence = log.next_sequence + 1;
        last_hash = entry.hash;
        total_triggers = log.total_triggers + 1;
      }

  -- The loop of `verify_chain`.
  unfoldable pub verify_from : List ℕ → List AuditEntry → Bool
  verify_from prev [] = true
  verify_from prev (e ∷ es) = verify_hash e && (bytes_eq e.prev_hash prev && verify_from e.hash es)

  -- `CatastrophicAuditLog::verify_chain`
  unfoldable pub verify_chain : CatastrophicAuditLog → Bool
  verify_chain log = verify_from zero_hash log.entries

pub record CatastrophicManager : Type 0 where
  pub event_bus : EventChannel CatastrophicEvent
  pub audit_log : CatastrophicAuditLog

-- `CatastrophicManager::new`
abbrev pub new_manager : CatastrophicManager
new_manager = record { event_bus = new_channel; audit_log = new_log }

-- `CatastrophicManager::is_catastrophic_override`
unfoldable pub is_catastrophic_override : List ℕ → Bool
is_catastrophic_override pfp =
    let risk_level = bit_and (get_or pfp 2 0 / 2 ^ 2) 3 in
    let override_flag = bit_and (get_or pfp 3 0 / 2 ^ 1) 1 in risk_level == 3 && override_flag == 1

module _ (sha256 : List ℕ → List ℕ) where
  -- `CatastrophicManager::handle_frame`
  unfoldable pub handle_frame :
      List ℕ
      → Option ℕ
      → Option (List ℕ)
      → List ℕ
      → ℕ × ℕ
      → CatastrophicManager
      → CatastrophicManager × Bool
  handle_frame pfp seq context source now m =
      if not (is_catastrophic_override pfp)
      then (m, false)
      else (let event = new_event pfp seq context source now in
          (
            record {
              event_bus = (send event m.event_bus).0;
              audit_log = append sha256 event m.audit_log;
            },
            true,
          ))

  -- `CatastrophicManager::verify_audit_chain`
  unfoldable pub verify_audit_chain : CatastrophicManager → Bool
  verify_audit_chain m = verify_chain sha256 m.audit_log

-- `CatastrophicManager::audit_entries`
unfoldable pub audit_entries : CatastrophicManager → List AuditEntry
audit_entries m = m.audit_log.entries

-- `CatastrophicManager::total_triggers`
unfoldable pub total_triggers : CatastrophicManager → ℕ
total_triggers m = m.audit_log.total_triggers
