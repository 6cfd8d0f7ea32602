-- ===== src/Rotation/Examples.antt =====
-- Runs of src/rotation.rs: the tests of the source, and the theorems at concrete inputs.
use bind.Common.{
  ◌≡◌, ◌≢◌, refl, arith, true, false, List, [], ◌∷◌, replicate, ok, panic, if◌then◌else◌, ltb, ◌++◌,
}
use bind.Rotation.{
  KeyRotationPayload, idle, retry, gave_up, new, Call, start, ack, timeout, reset, complete, step,
  run, can_send_data, handle_timeout, start_rotation, is_pending,
}
use bind.Rotation.Invariant.{run_no_panic}
use bind.Rotation.Graph.{failed_absorbs}
use bind.Rotation.Resolve.{waiting_ends}
use bind.Rotation.Timeouts.{no_ack_fails}

abbrev payload : KeyRotationPayload
payload = record { nonce = replicate 12 0xAB; new_key_encrypted = replicate 4 0xCD }

abbrev lost : List Call
lost = start payload ∷ replicate 4 timeout

lost_fails : can_send_data (run new lost) ≡ false
unfolding can_send_data run step
lost_fails = refl

-- `test_full_rotation_lifecycle`
lifecycle : (run new (start payload ∷ ack ∷ complete ∷ [])).state ≡ idle
unfolding run step
lifecycle = refl

run_no_panic_example :
    ((handle_timeout (run new lost)).1 ≢ panic)
    × ((start_rotation payload (run new lost)).1 ≢ panic)
run_no_panic_example = run_no_panic lost payload

failed_absorbs_example :
    (run (run new lost) (start payload ∷ ack ∷ []) ≡ run new lost)
    × (can_send_data (run (run new lost) (start payload ∷ ack ∷ [])) ≡ false)
    × (can_send_data (run (run (run new lost) (start payload ∷ ack ∷ [])) (reset ∷ [])) ≡ true)
failed_absorbs_example =
    failed_absorbs (run new lost) (start payload ∷ ack ∷ []) (unfold run step in refl)
      (tt, (tt, tt))

no_ack_fails_example :
    ((handle_timeout (run new (start payload ∷ timeout ∷ []))).1
      ≡ ok (if ltb 1 3 then retry payload else gave_up))
    × (can_send_data (run new (start payload ∷ timeout ∷ [])) ≡ true)
    × (can_send_data (run new lost) ≡ false)
no_ack_fails_example = no_ack_fails new payload 1 refl (omega arith)

waiting_ends_example :
    (ps : List Call) × (qs : List Call) × (start payload ∷ lost ≡ ps ++ qs)
    × (is_pending (run (run new (start payload ∷ [])) ps).state ≡ false)
waiting_ends_example =
    waiting_ends (run new (start payload ∷ [])) 0 (start payload ∷ lost) (unfold run step in refl)
      (omega arith) (omega arith)
