-- ===== src/Rotation/Timeouts.antt =====
-- The timeouts of src/rotation.rs: how often a payload is sent, and when the machine gives up.
use bind.Common.{
  ℕ, zero, suc, ◌+◌, ◌≤◌, ◌≡◌, arith, true, false, List, [], ◌∷◌, replicate, ok, if◌then◌else◌, ltb,
}
use bind.Rotation.{
  KeyRotationStateMachine, KeyRotationPayload, RotationState, idle, pending, failed, retry, gave_up,
  new, Call, start, ack, timeout, reset, complete, step, run, can_send_data, handle_timeout,
}

-- From an idle machine, a started rotation that gets no ACK answers its first three timeouts with
-- the payload that it was started with, to be sent again, and the fourth with `gave_up`; until that
-- one it may send data, and after it it may not.
pub no_ack_fails :
    (m : KeyRotationStateMachine) (p : KeyRotationPayload) (k : ℕ)
    → m.state ≡ idle
    → k ≤ 3
    → ((handle_timeout (run m (start p ∷ replicate k timeout))).1
        ≡ ok (if ltb k 3 then retry p else gave_up))
      × (can_send_data (run m (start p ∷ replicate k timeout)) ≡ true)
      × (can_send_data (run m (start p ∷ replicate 4 timeout)) ≡ false)
unfolding run step handle_timeout can_send_data
no_ack_fails m p zero e h = ground arith
no_ack_fails m p (suc zero) e h = ground arith
no_ack_fails m p (suc (suc zero)) e h = ground arith
no_ack_fails m p (suc (suc (suc zero))) e h = ground arith
no_ack_fails m p (suc (suc (suc (suc k)))) e h = absurd (omega arith)

abbrev pub timeouts : List Call → ℕ
timeouts [] = 0
timeouts (timeout ∷ cs) = suc (timeouts cs)
timeouts (c ∷ cs) = timeouts cs

-- The timeouts that a state has used up.
abbrev spent : RotationState → ℕ
spent (pending r) = r
spent failed = 4
spent _ = 0

spent-step :
    (m : KeyRotationStateMachine) (c : Call) (cs : List Call)
    → spent (step m c).state + timeouts cs ≤ spent m.state + timeouts (c ∷ cs)
unfolding step
spent-step m (start p) cs = ground arith
spent-step m ack cs = ground arith
spent-step m timeout cs = ground arith
spent-step m reset cs = ground arith
spent-step m complete cs = ground arith

spent-run :
    (m : KeyRotationStateMachine) (cs : List Call)
    → spent (run m cs).state ≤ spent m.state + timeouts cs
unfolding run
spent-run m [] = omega arith
spent-run m (c ∷ cs) = omega (arith, spent-run (step m c) cs, spent-step m c cs)

-- A machine that fails has seen at least four timeouts since it was new.
pub failed_needs_timeouts : (cs : List Call) → can_send_data (run new cs) ≡ false → 4 ≤ timeouts cs
unfolding can_send_data
failed_needs_timeouts cs h = ground (arith, spent-run new cs)
