-- ===== src/Rotation/Invariant.antt =====
-- What holds of the machine of src/rotation.rs between two calls.
use bind.Common.{◌≤◌, ◌≡◌, ◌≢◌, refl, arith, is_some, List, [], ◌∷◌, panic}
use bind.Rotation.{
  KeyRotationStateMachine, KeyRotationPayload, new, max_retries, is_pending, retries_of, Call,
  start, ack, timeout, reset, complete, step, run, start_rotation, handle_timeout,
}

-- A payload is held exactly while an ACK is awaited, and at most three retries are counted.
pub record IsValid (m : KeyRotationStateMachine) : Type 0 where
  pub held : is_some m.pending_payload ≡ is_pending m.state
  pub capped : retries_of m.state ≤ max_retries

pub new-IsValid : IsValid new
new-IsValid = record { held = refl; capped = omega arith }

pub step-IsValid : (m : KeyRotationStateMachine) (c : Call) → IsValid m → IsValid (step m c)
unfolding step
step-IsValid m (start p) v = ground arith
step-IsValid m ack v = ground arith
step-IsValid m timeout v = ground arith
step-IsValid m reset v = ground arith
step-IsValid m complete v = ground arith

run-IsValid : (m : KeyRotationStateMachine) (cs : List Call) → IsValid m → IsValid (run m cs)
unfolding run
run-IsValid m [] v = v
run-IsValid m (c ∷ cs) v = run-IsValid (step m c) cs (step-IsValid m c v)

-- After any calls on a new machine, neither a timeout nor a start panics: the `unwrap` of each finds
-- the payload.
pub run_no_panic :
    (cs : List Call) (p : KeyRotationPayload)
    → let m = run new cs in ((handle_timeout m).1 ≢ panic) × ((start_rotation p m).1 ≢ panic)
unfolding handle_timeout start_rotation
run_no_panic cs p = no_panic (run new cs) (run-IsValid new cs new-IsValid)
  where
    no_panic :
        (m : KeyRotationStateMachine)
        → IsValid m
        → ((handle_timeout m).1 ≢ panic) × ((start_rotation p m).1 ≢ panic)
    no_panic m v = (λ e. ground arith, λ e. ground arith)
