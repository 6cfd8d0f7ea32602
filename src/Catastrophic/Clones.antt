-- ===== src/Catastrophic/Clones.antt =====
-- Two clones of a manager of src/catastrophic.rs at work in two threads. `handle_frame` sends the event
-- on the bus, and appends it to the log under the log's lock, in two steps that the other thread can
-- come between. A thread has the events of its frames with the override before it.
pub mod Agree
use bind.Common.{
  ℕ, zero, suc, ◌+◌, ◌≤◌, ◌<◌, ◌≡◌, refl, sym, ap, ◌∙◌, arith, Bool, true, false, Option, none,
  some, List, [], ◌∷◌, ◌++◌, map, length, length-append, if◌then◌else◌, ltb, le→ltb,
}
use mathlib.Core.List.{append-nil, append_assoc}
use bind.Catastrophic.{
  CatastrophicEvent, AuditEntry, CatastrophicAuditLog, CatastrophicManager, new_manager, new_log,
  append, verify_chain, new_audit_entry, audit_log_max_entries,
}
use bind.Catastrophic.Channel.{EventChannel, send}
use bind.Catastrophic.Chain.{appends, appends-append}
use bind.Catastrophic.Rotate.{log_verifies}

abbrev pub count_if : (CatastrophicEvent → Bool) → List CatastrophicEvent → ℕ
count_if p [] = 0
count_if p (e ∷ es) = (if p e then 1 else 0) + count_if p es

-- The events of a log.
abbrev pub entry_events : List AuditEntry → List CatastrophicEvent
entry_events [] = []
entry_events (e ∷ es) = e.event ∷ entry_events es

abbrev pub logged : CatastrophicAuditLog → List CatastrophicEvent
logged log = entry_events log.entries

-- A thread: the events before it, and the one that is sent and not yet in the log.
pub record Clone : Type 0 where
  pub todo : List CatastrophicEvent
  pub held : Option CatastrophicEvent

abbrev pub held_list : Option CatastrophicEvent → List CatastrophicEvent
held_list none = []
held_list (some e) = e ∷ []

pub data Turn : Type 0 where
  one two : Turn

pub record Pair : Type 0 where
  pub first : Clone
  pub second : Clone
  pub manager : CatastrophicManager

abbrev pub begin : List CatastrophicEvent → List CatastrophicEvent → Pair
begin xs ys = record {
  first = record { todo = xs; held = none };
  second = record { todo = ys; held = none };
  manager = new_manager;
}

-- Both threads have finished.
pub record IsDone (r : Pair) : Type 0 where
  pub first_todo : r.first.todo ≡ []
  pub first_held : r.first.held ≡ none
  pub second_todo : r.second.todo ≡ []
  pub second_held : r.second.held ≡ none

module _ (sha256 : List ℕ → List ℕ) where
  -- The next step of a thread: the append of the event that it has sent, or the next send.
  unfoldable pub advance :
      Option CatastrophicEvent
      → List CatastrophicEvent
      → CatastrophicManager
      → Clone × CatastrophicManager
  advance (some e) todo m =
      (record { todo = todo; held = none }, record m { audit_log = append sha256 e m.audit_log })
  advance none [] m = (record { todo = []; held = none }, m)
  advance none (e ∷ todo) m =
      (record { todo = todo; held = some e }, record m { event_bus = (send e m.event_bus).0 })

  unfoldable pub turn : Turn → Pair → Pair
  turn one r =
      let (c, m) = advance r.first.held r.first.todo r.manager in
      record r { first = c; manager = m }
  turn two r =
      let (c, m) = advance r.second.held r.second.todo r.manager in
      record r { second = c; manager = m }

  unfoldable pub interleave : List Turn → Pair → Pair
  interleave [] r = r
  interleave (t ∷ ts) r = interleave ts (turn t r)
