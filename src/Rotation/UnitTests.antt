-- ===== src/Rotation/UnitTests.antt =====
-- The unit tests of src/rotation.rs. A method's new state stands beside its answer.
use bind.Common.{
  ◌*◌, ℕ, zero, suc, ◌+◌, ◌≡◌, refl, true, false, length, replicate, ok, err, Unwraps, slice,
}
use bind.Rotation.{
  payload_too_short, not_in_idle_state, unexpected_ack, not_in_failed_state, not_in_rotated_state,
  KeyRotationPayload, rotation_threshold, ack_timeout, max_retries, nonce_size, encode, decode,
  idle, pending, rotated, failed, retry, gave_up, KeyRotationStateMachine, new, should_rotate,
  start_rotation, handle_ack, handle_timeout, can_send_data, is_rotation_pending, retry_count,
  manual_reset, complete_rotation,
}

abbrev TestConstants : Type 0
TestConstants =
    (rotation_threshold ≡ 65534)
    × (ack_timeout ≡ 100 * 1000000)
    × (max_retries ≡ 3)
    × (nonce_size ≡ 12)

abbrev TestPayloadEncodeDecodeRoundtrip : Type 0
TestPayloadEncodeDecodeRoundtrip =
    let nonce = replicate nonce_size 0xAB in
    let key = replicate 32 0xCD in
    let encoded = encode (record { nonce = nonce; new_key_encrypted = key }) in
    (length encoded ≡ nonce_size + length key)
    × Unwraps (decode encoded)
        (λ decoded. (decoded.nonce ≡ nonce) × (decoded.new_key_encrypted ≡ key))

abbrev TestPayloadDecodeTooShort : Type 0
TestPayloadDecodeTooShort = decode (replicate 10 0) ≡ err payload_too_short

abbrev TestShouldRotate : Type 0
TestShouldRotate =
    (should_rotate new 0 ≡ false)
    × (should_rotate new 100 ≡ false)
    × (should_rotate new 65533 ≡ false)
    × (should_rotate new 65534 ≡ true)
    × (should_rotate new 65535 ≡ true)

-- The payload of several tests.
abbrev payload : KeyRotationPayload
payload = record { nonce = replicate nonce_size 1; new_key_encrypted = replicate 32 2 }

abbrev TestStartRotation : Type 0
TestStartRotation =
    let (sm, started) = start_rotation payload new in
    Unwraps started (λ result.
      (result ≡ payload)
      × (sm.state ≡ pending 0)
      × (is_rotation_pending sm ≡ true)
      × (retry_count sm ≡ 0))

abbrev TestStartRotationNotIdle : Type 0
TestStartRotationNotIdle =
    let (sm, started) = start_rotation payload new in
    Unwraps started (λ result. (start_rotation payload sm).1 ≡ err not_in_idle_state)

abbrev TestHandleAck : Type 0
TestHandleAck =
    let (sm, started) = start_rotation payload new in
    let (sm', acked) = handle_ack sm in
    Unwraps started
      (λ result. Unwraps acked (λ u. (sm'.state ≡ rotated) × (can_send_data sm' ≡ true)))

abbrev TestHandleAckUnexpected : Type 0
TestHandleAckUnexpected = (handle_ack new).1 ≡ err unexpected_ack

abbrev TestHandleTimeoutRetry : Type 0
TestHandleTimeoutRetry =
    let (sm, started) = start_rotation payload new in
    let (sm', timed) = handle_timeout sm in
    Unwraps started
      (λ result. (timed ≡ ok (retry payload)) × (sm'.state ≡ pending 1) × (retry_count sm' ≡ 1))

abbrev TestHandleTimeoutFailClosed : Type 0
TestHandleTimeoutFailClosed =
    let (sm0, started) = start_rotation payload new in
    let (sm1, t1) = handle_timeout sm0 in
    let (sm2, t2) = handle_timeout sm1 in
    let (sm3, t3) = handle_timeout sm2 in
    let (sm4, t4) = handle_timeout sm3 in
    Unwraps started (λ result.
      (t1 ≡ ok (retry payload))
      × (t2 ≡ ok (retry payload))
      × (t3 ≡ ok (retry payload))
      × (t4 ≡ ok gave_up)
      × (sm4.state ≡ failed)
      × (can_send_data sm4 ≡ false))

-- `for _ in 0..n { sm.handle_timeout(); }`
abbrev timeouts : ℕ → KeyRotationStateMachine → KeyRotationStateMachine
timeouts zero sm = sm
timeouts (suc n) sm = timeouts n (handle_timeout sm).0

abbrev TestManualReset : Type 0
TestManualReset =
    let (sm0, started) = start_rotation payload new in
    let sm = timeouts 4 sm0 in
    let (sm', done) = manual_reset sm in
    Unwraps started (λ result.
      (sm.state ≡ failed)
      × (can_send_data sm ≡ false)
      × Unwraps done (λ u. (sm'.state ≡ idle) × (can_send_data sm' ≡ true)))

abbrev TestManualResetNotFailed : Type 0
TestManualResetNotFailed = (manual_reset new).1 ≡ err not_in_failed_state

abbrev TestCompleteRotation : Type 0
TestCompleteRotation =
    let (sm0, started) = start_rotation payload new in
    let (sm1, acked) = handle_ack sm0 in
    let (sm2, done) = complete_rotation sm1 in
    Unwraps started
      (λ result. Unwraps acked (λ u. (sm1.state ≡ rotated) × Unwraps done (λ v. sm2.state ≡ idle)))

abbrev TestCompleteRotationNotRotated : Type 0
TestCompleteRotationNotRotated = (complete_rotation new).1 ≡ err not_in_rotated_state

abbrev TestCanSendDataInAllStates : Type 0
TestCanSendDataInAllStates =
    let payload2 : KeyRotationPayload = record {
      nonce = replicate nonce_size 3;
      new_key_encrypted = replicate 32 4;
    } in
    let (sm0, started) = start_rotation payload new in
    let (sm1, acked) = handle_ack sm0 in
    let (sm2, done) = complete_rotation sm1 in
    let (sm3, again) = start_rotation payload2 sm2 in
    (can_send_data new ≡ true)
    × Unwraps started (λ result.
      (can_send_data sm0 ≡ true)
      × Unwraps acked (λ u.
        (can_send_data sm1 ≡ true)
        × Unwraps done (λ v. Unwraps again (λ w. can_send_data (timeouts 4 sm3) ≡ false))))

abbrev TestFullRotationLifecycle : Type 0
TestFullRotationLifecycle =
    let payload1 : KeyRotationPayload = record {
      nonce = replicate nonce_size 0xAA;
      new_key_encrypted = replicate 32 0xBB;
    } in
    let (sm0, started) = start_rotation payload1 new in
    let (sm1, acked) = handle_ack sm0 in
    let (sm2, done) = complete_rotation sm1 in
    (should_rotate new 65534 ≡ true)
    × Unwraps started (λ send_payload.
      (send_payload ≡ payload1)
      × Unwraps acked (λ u.
        (sm1.state ≡ rotated)
        × Unwraps done (λ v. (sm2.state ≡ idle) × (should_rotate sm2 65534 ≡ true))))

tests_hold :
    TestConstants × TestPayloadEncodeDecodeRoundtrip × TestPayloadDecodeTooShort × TestShouldRotate
    × TestStartRotation × TestStartRotationNotIdle × TestHandleAck × TestHandleAckUnexpected
    × TestHandleTimeoutRetry × TestHandleTimeoutFailClosed × TestManualReset
    × TestManualResetNotFailed × TestCompleteRotation × TestCompleteRotationNotRotated
    × TestCanSendDataInAllStates × TestFullRotationLifecycle
unfolding encode decode should_rotate start_rotation handle_ack handle_timeout can_send_data
    is_rotation_pending retry_count manual_reset complete_rotation slice
tests_hold = (
  (refl, refl, refl, refl),
  (refl, (refl, refl)),
  refl,
  (refl, refl, refl, refl, refl),
  (refl, refl, refl, refl),
  refl,
  (refl, refl),
  refl,
  (refl, refl, refl),
  (refl, refl, refl, refl, refl, refl),
  (refl, refl, (refl, refl)),
  refl,
  (refl, refl),
  refl,
  (refl, (refl, (refl, refl))),
  (refl, (refl, (refl, (refl, refl)))),
)
