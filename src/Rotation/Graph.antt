-- ===== src/Rotation/Graph.antt =====
-- The state diagram of src/rotation.rs: its edges, what leaves `failed`, and what reaches `rotated`.
use bind.Common.{ℕ, ◌+◌, ◌<◌, ◌≡◌, ◌⊎◌, refl, arith, true, false, List, [], ◌∷◌, All}
use bind.Rotation.{
  KeyRotationStateMachine, RotationState, idle, pending, rotated, failed, max_retries, Call, start,
  ack, timeout, reset, complete, step, run, can_send_data,
}
use bind.Rotation.Invariant.{IsValid}

infix 40 ◌⟶◌
pub data ◌⟶◌ : RotationState → RotationState → Type 0 where
  begin : idle ⟶ pending 0
  resend : {r : ℕ} → r < max_retries → pending r ⟶ pending (r + 1)
  confirm : {r : ℕ} → pending r ⟶ rotated
  fail_closed : pending max_retries ⟶ failed
  recover : failed ⟶ idle
  finish : rotated ⟶ idle

ruleset edges = (begin, resend, confirm, fail_closed, recover, finish)

-- Every call on a machine with its invariant leaves the state as it is or follows an edge of the
-- diagram `◌⟶◌`.
pub step-⟶ :
    (m : KeyRotationStateMachine) (c : Call)
    → IsValid m
    → ((step m c).state ≡ m.state) ⊎ (m.state ⟶ (step m c).state)
unfolding step
step-⟶ m (start p) v = grind (arith, edges)
step-⟶ m ack v = grind (arith, edges)
step-⟶ m timeout v = grind (arith, edges)
step-⟶ m reset v = grind (arith, edges)
step-⟶ m complete v = grind (arith, edges)

abbrev pub IsNotReset : Call → Type 0
IsNotReset reset = ⊥
IsNotReset _ = Unit

failed-step :
    (m : KeyRotationStateMachine) (c : Call) → IsNotReset c → m.state ≡ failed → step m c ≡ m
unfolding step
failed-step m (start p) n e = ground arith
failed-step m ack n e = ground arith
failed-step m timeout n e = ground arith
failed-step m reset n e = absurd n
failed-step m complete n e = ground arith

failed-run :
    (m : KeyRotationStateMachine) (cs : List Call)
    → m.state ≡ failed
    → All IsNotReset cs
    → run m cs ≡ m
unfolding run
failed-run m [] e h = refl
failed-run m (c ∷ cs) e h = rw (failed-step m c h.0 e) (failed-run m cs e h.1)

-- Fail-closed: a failed machine is not changed by any calls but a manual reset, so it refuses to send
-- data after all of them; a manual reset lets it send again.
pub failed_absorbs :
    (m : KeyRotationStateMachine) (cs : List Call)
    → m.state ≡ failed
    → All IsNotReset cs
    → (run m cs ≡ m)
      × (can_send_data (run m cs) ≡ false)
      × (can_send_data (run (run m cs) (reset ∷ [])) ≡ true)
unfolding can_send_data
failed_absorbs m cs e h =
    let same = failed-run m cs e h in
    (same, rw (same, e), rw same (unfold run step in ground arith))
