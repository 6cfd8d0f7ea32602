-- ===== src/Catastrophic/Iter.antt =====
-- The iterator over the event receiver of src/catastrophic.rs.
use bind.Common.{
  ℕ, zero, suc, ◌+◌, ◌<◌, ◌≡◌, refl, ap, arith, Bool, true, false, List, [], ◌∷◌, length,
  if◌then◌else◌,
}
use bind.Catastrophic.{new_manager, new_log}
use bind.Catastrophic.Channel.{EventChannel, Iteration, ended, blocked, recv, iter, drop_sender}
use bind.Catastrophic.Bus.{Arrival, triggered, length-triggered, handle_all, bus, handle_all_lem}

module _ {E : Type 0} where
  abbrev channel : List E → Bool → Bool → EventChannel E
  channel es receiver sender = record {
    queue = es;
    receiver_alive = receiver;
    sender_alive = sender;
  }

  iter_queue :
      (n : ℕ) (es : List E) (receiver sender : Bool)
      → length es < n
      → iter n (channel es receiver sender)
        ≡ (channel [] receiver sender, if sender then blocked es else ended es)
  unfolding iter recv
  iter_queue zero es r s h = absurd (omega arith)
  iter_queue (suc n) [] r true h = refl
  iter_queue (suc n) [] r false h = refl
  iter_queue (suc n) (e ∷ es) r true h = rw (iter_queue n es r true (omega arith))
  iter_queue (suc n) (e ∷ es) r false h = rw (iter_queue n es r false (omega arith))

  -- The iterator gives the events that wait, in order, in as many steps as there are; then it ends if
  -- no sender is left, and blocks otherwise. One step more than there are events is always enough.
  pub iter_ends :
      (n : ℕ) (ch : EventChannel E)
      → length ch.queue < n
      → iter n ch
        ≡ (record ch { queue = [] }, if ch.sender_alive then blocked ch.queue else ended ch.queue)
  iter_ends n ch h = iter_queue n ch.queue ch.receiver_alive ch.sender_alive h

module _ (sha256 : List ℕ → List ℕ) where
  -- A loop over the events of a manager that has handled some frames ends once the manager and its
  -- clones are gone, and has seen the event of every frame with the override, in order.
  pub loop_sees_all :
      (xs : List Arrival)
      → (iter (length xs + 1) (drop_sender (handle_all sha256 new_manager xs).event_bus)).1
        ≡ ended (triggered xs)
  unfolding drop_sender
  loop_sees_all xs = rw (handle_all_lem sha256 xs [] new_log) (
      ap (λ (out : EventChannel _ × Iteration _). out.1)
        (iter_ends (length xs + 1) (record (bus (triggered xs)) { sender_alive = false })
          (omega (arith, length-triggered xs))))
