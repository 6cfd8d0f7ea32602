-- ===== src/Rotation.antt =====
-- src/rotation.rs: the key rotation payload and the state machine with its ACK timeouts.
-- A method on `&mut self` returns the new machine and its result; a result is `panic` where the
-- source calls `unwrap` on `None`.
pub mod Payload
pub mod Invariant
pub mod Graph
pub mod Timeouts
pub mod Resolve
pub mod Display
mod Examples
mod UnitTests
use bind.Common.{
  ◌*◌, ℕ, suc, ◌+◌, ◌-◌, ◌≡◌, Bool, true, false, not, ◌&&◌, Option, none, some, List, [], ◌∷◌, ◌++◌,
  leb, ltb, if◌then◌else◌, length, slice, Result, ok, err, panic, ◌>>=◌, ◌>>◌, ensure, or_panic,
}

abbrev pub rotation_threshold : ℕ
rotation_threshold = 65534

-- 100 ms, in nanoseconds; no operation of the machine reads it.
abbrev pub ack_timeout : ℕ
ack_timeout = 100 * 1000000

abbrev pub max_retries : ℕ
max_retries = 3

abbrev pub nonce_size : ℕ
nonce_size = 12

pub data RotationError : Type 0 where
  payload_too_short not_in_idle_state unexpected_ack : RotationError
  not_in_failed_state not_in_rotated_state : RotationError

pub record KeyRotationPayload : Type 0 where
  pub nonce : List ℕ
  pub new_key_encrypted : List ℕ

-- `KeyRotationPayload::encode`
unfoldable pub encode : KeyRotationPayload → List ℕ
encode p = p.nonce ++ p.new_key_encrypted

-- `KeyRotationPayload::decode`
unfoldable pub decode : List ℕ → Result RotationError KeyRotationPayload
decode buf = do
  ensure (not (ltb (length buf) nonce_size)) payload_too_short
  nonce ← or_panic (slice buf 0 nonce_size)
  key ← or_panic (slice buf nonce_size (length buf))
  ok (record { nonce = nonce; new_key_encrypted = key })

pub data RotationState : Type 0 where
  idle : RotationState
  pending : (retries : ℕ) → RotationState
  rotated : RotationState
  failed : RotationState

pub data TimeoutResult : Type 0 where
  retry : KeyRotationPayload → TimeoutResult
  gave_up : TimeoutResult
  ignored : TimeoutResult

pub record KeyRotationStateMachine : Type 0 where
  pub state : RotationState
  pub pending_payload : Option KeyRotationPayload

-- `KeyRotationStateMachine::new`
abbrev pub new : KeyRotationStateMachine
new = record { state = idle; pending_payload = none }

-- `self.state == RotationState::Idle`
abbrev pub is_idle : RotationState → Bool
is_idle idle = true
is_idle _ = false

abbrev pub is_failed : RotationState → Bool
is_failed failed = true
is_failed _ = false

abbrev pub is_pending : RotationState → Bool
is_pending (pending _) = true
is_pending _ = false

-- `KeyRotationStateMachine::should_rotate`
unfoldable pub should_rotate : KeyRotationStateMachine → ℕ → Bool
should_rotate m seq = is_idle m.state && leb rotation_threshold seq

-- `KeyRotationStateMachine::start_rotation`
unfoldable pub start_rotation :
    KeyRotationPayload
    → KeyRotationStateMachine
    → KeyRotationStateMachine × Result RotationError KeyRotationPayload
start_rotation p m =
    if not (is_idle m.state)
    then (m, err not_in_idle_state)
    else (let m' : KeyRotationStateMachine = record {
      state = pending 0;
      pending_payload = some p;
    } in
        (m', or_panic m'.pending_payload))

abbrev ack_in :
    RotationState
    → KeyRotationStateMachine
    → KeyRotationStateMachine × Result RotationError (Unit {0})
ack_in (pending _) m = (record m { state = rotated; pending_payload = none }, ok tt)
ack_in _ m = (m, err unexpected_ack)

-- `KeyRotationStateMachine::handle_ack`
unfoldable pub handle_ack :
    KeyRotationStateMachine → KeyRotationStateMachine × Result RotationError (Unit {0})
handle_ack m = ack_in m.state m

-- The two branches of a timeout in the state `pending retries`; `retries + 1` is at most 3.
abbrev timeout_in :
    RotationState
    → KeyRotationStateMachine
    → KeyRotationStateMachine × Result RotationError TimeoutResult
timeout_in (pending retries) m =
    if ltb retries max_retries
    then (
      record m { state = pending (retries + 1) },
      (do p ← or_panic m.pending_payload; ok (retry p)),
    )
    else (record m { state = failed; pending_payload = none }, ok gave_up)
timeout_in _ m = (m, ok ignored)

-- `KeyRotationStateMachine::handle_timeout`
unfoldable pub handle_timeout :
    KeyRotationStateMachine → KeyRotationStateMachine × Result RotationError TimeoutResult
handle_timeout m = timeout_in m.state m

-- `KeyRotationStateMachine::can_send_data`
unfoldable pub can_send_data : KeyRotationStateMachine → Bool
can_send_data m = not (is_failed m.state)

-- `KeyRotationStateMachine::is_rotation_pending`
unfoldable pub is_rotation_pending : KeyRotationStateMachine → Bool
is_rotation_pending m = is_pending m.state

abbrev pub retries_of : RotationState → ℕ
retries_of (pending retries) = retries
retries_of _ = 0

-- `KeyRotationStateMachine::retry_count`
unfoldable pub retry_count : KeyRotationStateMachine → ℕ
retry_count m = retries_of m.state

abbrev reset_in :
    RotationState
    → KeyRotationStateMachine
    → KeyRotationStateMachine × Result RotationError (Unit {0})
reset_in failed m = (record m { state = idle; pending_payload = none }, ok tt)
reset_in _ m = (m, err not_in_failed_state)

-- `KeyRotationStateMachine::manual_reset`
unfoldable pub manual_reset :
    KeyRotationStateMachine → KeyRotationStateMachine × Result RotationError (Unit {0})
manual_reset m = reset_in m.state m

abbrev complete_in :
    RotationState
    → KeyRotationStateMachine
    → KeyRotationStateMachine × Result RotationError (Unit {0})
complete_in rotated m = (record m { state = idle }, ok tt)
complete_in _ m = (m, err not_in_rotated_state)

-- `KeyRotationStateMachine::complete_rotation`
unfoldable pub complete_rotation :
    KeyRotationStateMachine → KeyRotationStateMachine × Result RotationError (Unit {0})
complete_rotation m = complete_in m.state m

-- The calls that change the machine, and the machine after one and after several of them.
pub data Call : Type 0 where
  start : KeyRotationPayload → Call
  ack timeout reset complete : Call

unfoldable pub step : KeyRotationStateMachine → Call → KeyRotationStateMachine
unfolding start_rotation handle_ack handle_timeout manual_reset complete_rotation
step m (start p) = (start_rotation p m).0
step m ack = (handle_ack m).0
step m timeout = (handle_timeout m).0
step m reset = (manual_reset m).0
step m complete = (complete_rotation m).0

unfoldable pub run : KeyRotationStateMachine → List Call → KeyRotationStateMachine
run m [] = m
run m (c ∷ cs) = run (step m c) cs
