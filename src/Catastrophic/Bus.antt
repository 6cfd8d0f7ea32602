-- ===== src/Catastrophic/Bus.antt =====
-- Rules 1 and 2 of src/catastrophic.rs together: what a manager's receiver gets, and what its log holds.
use bind.Common.{
  ℕ, zero, suc, ◌≤◌, ◌≡◌, refl, ◌∙◌, arith, true, Option, List, [], ◌∷◌, ◌++◌, length,
  if◌then◌else◌, Bool-cases, inl, inr, Result, ok, err,
}
use mathlib.Core.List.{append_assoc, append-nil}
use bind.Catastrophic.Channel.{EventChannel, TryRecvError, queue_empty, send, try_recv}
use bind.Catastrophic.Chain.{appends}
use bind.Catastrophic.{
  CatastrophicEvent, CatastrophicAuditLog, CatastrophicManager, new_event, new_manager, new_log,
  is_catastrophic_override, handle_frame, append,
}

-- The arguments of a call of `handle_frame`.
pub record Arrival : Type 0 where
  pub pfp : List ℕ
  pub seq : Option ℕ
  pub context : Option (List ℕ)
  pub source : List ℕ
  pub now : ℕ × ℕ

abbrev pub event_of : Arrival → CatastrophicEvent
event_of a = new_event a.pfp a.seq a.context a.source a.now

-- The events of the frames that carry the override, in their order.
abbrev pub triggered : List Arrival → List CatastrophicEvent
triggered [] = []
triggered (a ∷ xs) =
    let rest = triggered xs in if is_catastrophic_override a.pfp then event_of a ∷ rest else rest

pub length-triggered : (xs : List Arrival) → length (triggered xs) ≤ length xs
length-triggered [] = omega arith
length-triggered (a ∷ xs) = ground (arith, length-triggered xs)

module _ {E : Type 0} where
  abbrev keep_ok : Result TryRecvError E → List E → List E
  keep_ok (ok e) es = e ∷ es
  keep_ok _ es = es

  -- The channel after `n` calls of `try_recv`, and the events that they returned.
  abbrev pub poll : ℕ → EventChannel E → EventChannel E × List E
  poll zero ch = (ch, [])
  poll (suc n) ch = let rest = poll n (try_recv ch).0 in (rest.0, keep_ok (try_recv ch).1 rest.1)

  abbrev pub bus : List E → EventChannel E
  bus es = record { queue = es; receiver_alive = true; sender_alive = true }

  poll_lem : (n : ℕ) (es : List E) → length es ≤ n → poll n (bus es) ≡ (bus [], es)
  unfolding try_recv
  poll_lem zero [] h = refl
  poll_lem zero (e ∷ es) h = absurd (omega arith)
  poll_lem (suc n) [] h = poll_lem n [] (omega arith)
  poll_lem (suc n) (e ∷ es) h =
      let rest = poll_lem n es (omega arith) in λ i. ((rest i).0, e ∷ (rest i).1)

module _ (sha256 : List ℕ → List ℕ) where
  unfoldable pub handle_all : CatastrophicManager → List Arrival → CatastrophicManager
  handle_all m [] = m
  handle_all m (a ∷ xs) =
      handle_all (handle_frame sha256 a.pfp a.seq a.context a.source a.now m).0 xs

  abbrev pub manager : List CatastrophicEvent → CatastrophicAuditLog → CatastrophicManager
  manager queue log = record { event_bus = bus queue; audit_log = log }

  pub handle_all_lem :
      (xs : List Arrival) (queue : List CatastrophicEvent) (log : CatastrophicAuditLog)
      → handle_all (manager queue log) xs
        ≡ manager (queue ++ triggered xs) (appends sha256 log (triggered xs))
  unfolding handle_all handle_frame send appends
  handle_all_lem [] queue log = rw (append-nil queue)
  handle_all_lem (a ∷ xs) queue log = elim (Bool-cases (is_catastrophic_override a.pfp)) [
    | inr quiet ↦ rw quiet (handle_all_lem xs queue log)
    | inl fires ↦ rw fires (
        handle_all_lem xs (queue ++ (event_of a ∷ [])) (append sha256 (event_of a) log)
        ∙ rw (append_assoc queue (event_of a ∷ []) (triggered xs)))
  ]

  -- After any frames on a new manager whose receiver is there, as many calls of `try_recv` as there
  -- were frames return the events of those that carry the override, all of them, once and in order,
  -- and the next call finds the bus empty; the audit log is the new log after appending these
  -- events and no other.
  pub events_received :
      (xs : List Arrival)
      → let m = handle_all new_manager xs in
        let (after, events) = poll (length xs) m.event_bus in
        (events ≡ triggered xs)
        × ((try_recv after).1 ≡ err queue_empty)
        × (m.audit_log ≡ appends sha256 new_log (triggered xs))
  unfolding try_recv
  events_received xs =
      let handled = handle_all_lem xs [] new_log in
      rw (handled, poll_lem (length xs) (triggered xs) (length-triggered xs)) (refl, refl, refl)
