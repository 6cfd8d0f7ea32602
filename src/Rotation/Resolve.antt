-- ===== src/Rotation/Resolve.antt =====
-- The machine of src/rotation.rs does not wait for ever, and can always be brought back to idle.
use bind.Common.{
  ℕ, ◌+◌, ◌≤◌, ◌<◌, ◌≡◌, ◌⊎◌, refl, ap, arith, false, List, [], ◌∷◌, ◌++◌, length, inl, inr,
  Bool-cases, ltb,
}
use bind.Rotation.{
  KeyRotationStateMachine, RotationState, idle, pending, rotated, failed, is_pending, max_retries,
  Call, start, ack, timeout, reset, complete, step, run,
}
use bind.Rotation.Timeouts.{timeouts}

-- A call on a waiting machine ends the waiting, or leaves it waiting with a retry more if it was a
-- timeout.
still_pending :
    (m : KeyRotationStateMachine) (c : Call) (r : ℕ) (cs : List Call)
    → m.state ≡ pending r
    → r ≤ max_retries
    → (is_pending (step m c).state ≡ false)
      ⊎ ((s : ℕ) × ((step m c).state ≡ pending s)
          × (r + timeouts (c ∷ cs) ≤ s + timeouts cs)
          × (s ≤ max_retries))
unfolding step
still_pending m (start p) r cs e capped = inr (r, ground arith, omega arith, ground arith)
still_pending m ack r cs e capped = inl (ground arith)
still_pending m timeout r cs e capped = elim (Bool-cases (ltb r max_retries)) [
  | inl again ↦ inr (r + 1, ground arith, omega arith, ground arith)
  | inr over ↦ inl (ground arith)
]
still_pending m reset r cs e capped = inr (r, ground arith, omega arith, ground arith)
still_pending m complete r cs e capped = inr (r, ground arith, omega arith, ground arith)

-- A machine that waits for an ACK, with at most three retries counted, waits for at most four timeouts:
-- in any sequence of calls with four of them, less the retries that it has counted already, some prefix
-- ends the waiting.
pub waiting_ends :
    (m : KeyRotationStateMachine) (r : ℕ) (cs : List Call)
    → m.state ≡ pending r
    → r ≤ max_retries
    → max_retries < r + timeouts cs
    → (ps : List Call) × (qs : List Call) × (cs ≡ ps ++ qs) × (is_pending (run m ps).state ≡ false)
unfolding run
waiting_ends m r [] e capped enough = absurd (omega arith)
waiting_ends m r (c ∷ cs) e capped enough = elim (still_pending m c r cs e capped) [
  | inl over ↦ (c ∷ [], cs, refl, over)
  | inr (s, waits, counted, capped') ↦
      let (ps, qs, split, over) = waiting_ends (step m c) s cs waits capped' (omega arith) in
      (c ∷ ps, qs, ap (λ l. c ∷ l) split, over)
]

recovers_from :
    (m : KeyRotationStateMachine) (s : RotationState)
    → m.state ≡ s
    → (cs : List Call) × (length cs ≤ 2) × ((run m cs).state ≡ idle)
unfolding run step
recovers_from m idle e = ([], omega arith, e)
recovers_from m (pending r) e = (ack ∷ complete ∷ [], omega arith, ground arith)
recovers_from m rotated e = (complete ∷ [], omega arith, ground arith)
recovers_from m failed e = (reset ∷ [], omega arith, ground arith)

-- Every machine can be brought back to idle by at most two calls.
pub recovers :
    (m : KeyRotationStateMachine) → (cs : List Call) × (length cs ≤ 2) × ((run m cs).state ≡ idle)
recovers m = recovers_from m m.state refl
