-- ===== src/Catastrophic/Clones/Agree.antt =====
-- Two clones of a manager of src/catastrophic.rs agree on what has happened, whatever the order of their
-- steps.
use bind.Common.{
  ℕ, ◌+◌, ◌≤◌, ◌<◌, ◌≡◌, refl, sym, ap, ◌∙◌, arith, Bool, true, false, Option, none, some, List, [],
  ◌∷◌, ◌++◌, length, length-append, ltb, le→ltb,
}
use mathlib.Core.List.{append-nil, append_assoc}
use bind.Catastrophic.{
  CatastrophicEvent, AuditEntry, CatastrophicAuditLog, CatastrophicManager, new_log, append,
  verify_chain, new_audit_entry, audit_log_max_entries,
}
use bind.Catastrophic.Channel.{EventChannel, send}
use bind.Catastrophic.Chain.{appends, appends-append}
use bind.Catastrophic.Rotate.{log_verifies}
use bind.Catastrophic.Clones.{
  count_if, entry_events, logged, Clone, held_list, Turn, one, two, Pair, begin, IsDone, advance,
  turn, interleave,
}

count_if-append :
    (p : CatastrophicEvent → Bool) (es fs : List CatastrophicEvent)
    → count_if p (es ++ fs) ≡ count_if p es + count_if p fs
count_if-append p [] fs = omega arith
count_if-append p (e ∷ es) fs = omega (arith, count_if-append p es fs)

entry_events-snoc :
    (es : List AuditEntry) (e : AuditEntry)
    → entry_events (es ++ (e ∷ [])) ≡ entry_events es ++ (e.event ∷ [])
entry_events-snoc [] e = refl
entry_events-snoc (x ∷ es) e = ap (λ l. x.event ∷ l) (entry_events-snoc es e)

count_true : (es : List CatastrophicEvent) → count_if (λ e. true) es ≡ length es
count_true [] = refl
count_true (e ∷ es) = omega (arith, count_true es)

module _ (sha256 : List ℕ → List ℕ) where
  -- The log is the new log after `ls`, the receiver is there, and of the events that pass a test as
  -- many are on the bus as in the log and held, and none is lost or made.
  record Kept (xs ys : List CatastrophicEvent) (r : Pair) : Type 0 where
    pub ls : List CatastrophicEvent
    pub log : r.manager.audit_log ≡ appends sha256 new_log ls
    pub alive : r.manager.event_bus.receiver_alive ≡ true
    pub sent :
        (p : CatastrophicEvent → Bool)
        → count_if p r.manager.event_bus.queue
          ≡ count_if p ls
            + count_if p (held_list r.first.held)
            + count_if p (held_list r.second.held)
    pub all :
        (p : CatastrophicEvent → Bool)
        → count_if p r.manager.event_bus.queue + count_if p r.first.todo + count_if p r.second.todo
          ≡ count_if p xs + count_if p ys

  -- The same of one step of a thread, as differences.
  record Stepped (held : Option CatastrophicEvent) (todo : List CatastrophicEvent)
      (m : CatastrophicManager) (ls : List CatastrophicEvent) (c : Clone) (m' : CatastrophicManager)
      : Type 0 where
    pub ls' : List CatastrophicEvent
    pub log : m'.audit_log ≡ appends sha256 new_log ls'
    pub alive : m'.event_bus.receiver_alive ≡ true
    pub sent :
        (p : CatastrophicEvent → Bool)
        → count_if p m'.event_bus.queue + count_if p (held_list held) + count_if p ls
          ≡ count_if p m.event_bus.queue + count_if p (held_list c.held) + count_if p ls'
    pub all :
        (p : CatastrophicEvent → Bool)
        → count_if p m'.event_bus.queue + count_if p c.todo
          ≡ count_if p m.event_bus.queue + count_if p todo

  send_alive :
      (e : CatastrophicEvent) (ch : EventChannel CatastrophicEvent)
      → ch.receiver_alive ≡ true
      → ((send e ch).0.receiver_alive ≡ true) × ((send e ch).0.queue ≡ ch.queue ++ (e ∷ []))
  unfolding send
  send_alive e ch h = ground arith

  advance-Stepped :
      (held : Option CatastrophicEvent) (todo : List CatastrophicEvent) (m : CatastrophicManager)
      (ls : List CatastrophicEvent)
      → m.audit_log ≡ appends sha256 new_log ls
      → m.event_bus.receiver_alive ≡ true
      → Stepped held todo m ls (advance sha256 held todo m).0 (advance sha256 held todo m).1
  unfolding advance send appends
  advance-Stepped (some e) todo m ls log alive = record {
    ls' = ls ++ (e ∷ []);
    log = ap (append sha256 e) log ∙ appends-append sha256 new_log ls (e ∷ []);
    alive = alive;
    sent = λ p. omega (arith, count_if-append p ls (e ∷ []));
    all = λ p. refl;
  }
  advance-Stepped none [] m ls log alive = record {
    ls' = ls;
    log = log;
    alive = alive;
    sent = λ p. refl;
    all = λ p. refl;
  }
  advance-Stepped none (e ∷ todo) m ls log alive =
      let (still, longer) = send_alive e m.event_bus alive in
      record {
        ls' = ls;
        log = log;
        alive = still;
        sent = λ p.
            ap (λ q. count_if p q + 0 + count_if p ls) longer
            ∙ omega (arith, count_if-append p m.event_bus.queue (e ∷ []));
        all = λ p.
            ap (λ q. count_if p q + count_if p todo) longer
            ∙ omega (arith, count_if-append p m.event_bus.queue (e ∷ []));
      }

  turn-Kept :
      (xs ys : List CatastrophicEvent) (t : Turn) (r : Pair)
      → Kept xs ys r
      → Kept xs ys (turn sha256 t r)
  unfolding turn
  turn-Kept xs ys one r k =
      let s = advance-Stepped r.first.held r.first.todo r.manager k.ls k.log k.alive in
      record {
        ls = s.ls';
        log = s.log;
        alive = s.alive;
        sent = λ p. omega (arith, k.sent p, s.sent p);
        all = λ p. omega (arith, k.all p, s.all p);
      }
  turn-Kept xs ys two r k =
      let s = advance-Stepped r.second.held r.second.todo r.manager k.ls k.log k.alive in
      record {
        ls = s.ls';
        log = s.log;
        alive = s.alive;
        sent = λ p. omega (arith, k.sent p, s.sent p);
        all = λ p. omega (arith, k.all p, s.all p);
      }

  interleave-Kept :
      (xs ys : List CatastrophicEvent) (ts : List Turn) (r : Pair)
      → Kept xs ys r
      → Kept xs ys (interleave sha256 ts r)
  unfolding interleave
  interleave-Kept xs ys [] r k = k
  interleave-Kept xs ys (t ∷ ts) r k =
      interleave-Kept xs ys ts (turn sha256 t r) (turn-Kept xs ys t r k)

  begin-Kept : (xs ys : List CatastrophicEvent) → Kept xs ys (begin xs ys)
  unfolding appends
  begin-Kept xs ys = record {
    ls = [];
    log = refl;
    alive = refl;
    sent = λ p. refl;
    all = λ p. omega arith;
  }

  -- At the end the bus and the log have what the threads had.
  counts :
      {xs ys : List CatastrophicEvent} {r : Pair} (k : Kept xs ys r)
      → IsDone r
      → (p : CatastrophicEvent → Bool)
      → (count_if p k.ls ≡ count_if p xs + count_if p ys)
        × (count_if p r.manager.event_bus.queue ≡ count_if p xs + count_if p ys)
  counts {r} k done p =
      let all =
        ap (λ l. count_if p r.manager.event_bus.queue + count_if p l + count_if p r.second.todo)
          done.first_todo in
      let all' =
        ap (λ l. count_if p r.manager.event_bus.queue + 0 + count_if p l) done.second_todo in
      let sent =
        ap (λ h. count_if p k.ls + count_if p (held_list h) + count_if p (held_list r.second.held))
          done.first_held in
      let sent' = ap (λ h. count_if p k.ls + 0 + count_if p (held_list h)) done.second_held in
      (omega (arith, k.all p, k.sent p, all, all', sent, sent'), omega (arith, k.all p, all, all'))

  logged-append :
      (log : CatastrophicAuditLog) (e : CatastrophicEvent)
      → length log.entries < 10000
      → (logged (append sha256 e log) ≡ logged log ++ (e ∷ []))
        × (length (append sha256 e log).entries ≡ length log.entries + 1)
  unfolding append new_audit_entry
  logged-append log e room =
      let entry = new_audit_entry sha256 log.next_sequence e log.last_hash in
      let test : ltb 10000 (length (log.entries ++ (entry ∷ []))) ≡ false =
        le→ltb _ _ (omega (arith, length-append log.entries (entry ∷ []))) in
      rw test (entry_events-snoc log.entries entry, length-append log.entries (entry ∷ []))

  logged-appends :
      (log : CatastrophicAuditLog) (es : List CatastrophicEvent)
      → length log.entries + length es ≤ 10000
      → logged (appends sha256 log es) ≡ logged log ++ es
  unfolding appends
  logged-appends log [] h = sym (append-nil (logged log))
  logged-appends log (e ∷ es) h =
      let (one_more, longer) = logged-append log e (omega arith) in
      logged-appends (append sha256 e log) es (omega arith)
      ∙ ap (λ l. l ++ es) one_more
      ∙ append_assoc (logged log) (e ∷ []) es

  -- Whatever the order of their steps, once two threads with at most 10000 events together have handled
  -- all of them on clones of a new manager, the log holds each event as often as the two threads had
  -- it, and so does the bus, which may have them in another order, and the log verifies.
  pub clones_agree :
      (p : CatastrophicEvent → Bool) (xs ys : List CatastrophicEvent) (ts : List Turn)
      → length xs + length ys ≤ audit_log_max_entries
      → IsDone (interleave sha256 ts (begin xs ys))
      → let m = (interleave sha256 ts (begin xs ys)).manager in
        (count_if p (logged m.audit_log) ≡ count_if p xs + count_if p ys)
        × (count_if p m.event_bus.queue ≡ count_if p xs + count_if p ys)
        × (verify_chain sha256 m.audit_log ≡ true)
  clones_agree p xs ys ts few done =
      let r = interleave sha256 ts (begin xs ys) in
      let k = interleave-Kept xs ys ts (begin xs ys) (begin-Kept xs ys) in
      let short : length k.ls ≤ 10000 =
        omega
          (arith, few, counts k done (λ e. true), count_true k.ls, count_true xs, count_true ys) in
      (
        ap (λ l. count_if p (logged l)) k.log
            ∙ ap (count_if p) (logged-appends new_log k.ls (omega (arith, short)))
            ∙ (counts k done p).0,
        (counts k done p).1,
        ap (verify_chain sha256) k.log ∙ log_verifies sha256 k.ls short,
      )
