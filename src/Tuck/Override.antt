-- ===== src/Tuck/Override.antt =====
-- The override at the gate of examples/tuck_integration.rs: the audit log, the bus, and repetition.
use bind.Common.{
  ℕ, zero, suc, ◌+◌, ◌≡◌, refl, ap, ◌∙◌, arith, true, false, Option, none, some, List, [], ◌∷◌,
  ◌++◌, replicate,
}
use bind.Pfp.{PfpHeader}
use bind.Sap.{SapHeader}
use bind.Frame
use bind.Frame.{BindFrame, override_of}
use bind.ReplayCache.{ReplayMap}
use bind.Processor.{FrameProcessResult}
use bind.Catastrophic.{CatastrophicEvent, CatastrophicAuditLog, append, new_log}
use bind.Catastrophic.Channel.{EventChannel, drop_receiver, new_channel}
use bind.Catastrophic.Chain.{appends, appends-append}
use bind.Tuck
use bind.Tuck.{TuckDecision, TuckGate, catastrophic_override, decide}
use bind.Tuck.Decide.{events_of, table, is_processed, parts}

-- The arguments of a call of `decide`.
pub record Visit : Type 0 where
  pub frame : BindFrame
  pub source : ℕ
  pub now : ℕ
  pub clock : ℕ × ℕ

-- The events of the frames that carry the override, in their order.
abbrev pub all_events : List Visit → List CatastrophicEvent
all_events [] = []
all_events (v ∷ vs) = events_of v.frame.pfp v.frame.sap v.clock ++ all_events vs

fired :
    (pfp : Option PfpHeader) (sap : Option SapHeader) (clock : ℕ × ℕ) (r : FrameProcessResult)
    → override_of pfp ≡ true
    → (table pfp r ≡ catastrophic_override)
      × (is_processed pfp ≡ false)
      × ((e : CatastrophicEvent) × (events_of pfp sap clock ≡ e ∷ []))
fired none sap clock r h = cc
fired (some p) sap clock r h = rw h (refl, refl, (_, refl))

module _ {M : Type 0} (map : ReplayMap M) (sha256 : List ℕ → List ℕ) where
  abbrev pub visit : TuckGate M → Visit → TuckGate M × TuckDecision
  visit g v = decide map sha256 v.frame v.source v.now v.clock g

  -- The gate after some calls, and the decisions of these calls.
  unfoldable pub run : TuckGate M → List Visit → TuckGate M
  run g [] = g
  run g (v ∷ vs) = run (visit g v).0 vs

  unfoldable pub decisions : TuckGate M → List Visit → List TuckDecision
  decisions g [] = []
  decisions g (v ∷ vs) = (visit g v).1 ∷ decisions (visit g v).0 vs

  run_log :
      (g : TuckGate M) (vs : List Visit)
      → (run g vs).catastrophic.audit_log ≡ appends sha256 g.catastrophic.audit_log (all_events vs)
  unfolding run appends
  run_log g [] = refl
  run_log g (v ∷ vs) =
      run_log (visit g v).0 vs
      ∙ ap (λ log. appends sha256 log (all_events vs))
          (parts map sha256 v.frame v.source v.now v.clock g).2
      ∙ appends-append sha256 g.catastrophic.audit_log (events_of v.frame.pfp v.frame.sap v.clock)
          (all_events vs)

  run_bus :
      (g : TuckGate M) (vs : List Visit)
      → g.catastrophic.event_bus.receiver_alive ≡ false
      → (run g vs).catastrophic.event_bus ≡ g.catastrophic.event_bus
  unfolding run
  run_bus g [] h = refl
  run_bus g (v ∷ vs) h =
      let step = (parts map sha256 v.frame v.source v.now v.clock g).3 ∙ rw h refl in
      run_bus (visit g v).0 vs
        (ap (λ (b : EventChannel CatastrophicEvent). b.receiver_alive) step ∙ h)
      ∙ step

  -- After any frames at a new gate, the audit log is the new log after appending the event of each
  -- frame that carries the override, in order and no other, but no event is ever on the bus: `new`
  -- drops the receiver, so every send fails.
  pub events_logged_not_sent :
      (tenant : ℕ) (vs : List Visit)
      → let gate = run (Tuck.new map tenant) vs in
        (gate.catastrophic.audit_log ≡ appends sha256 new_log (all_events vs))
        × (gate.catastrophic.event_bus ≡ drop_receiver new_channel)
  unfolding drop_receiver
  events_logged_not_sent tenant vs =
      (run_log (Tuck.new map tenant) vs, run_bus (Tuck.new map tenant) vs refl)

  append_total :
      (log : CatastrophicAuditLog) (e : CatastrophicEvent)
      → (append sha256 e log).total_triggers ≡ log.total_triggers + 1
  unfolding append
  append_total log e = refl

  override_step :
      (v : Visit) (g : TuckGate M)
      → Frame.is_catastrophic_override v.frame ≡ true
      → ((visit g v).1 ≡ catastrophic_override)
        × ((visit g v).0.processor ≡ g.processor)
        × ((visit g v).0.catastrophic.audit_log.total_triggers
            ≡ g.catastrophic.audit_log.total_triggers + 1)
  unfolding Frame.is_catastrophic_override appends
  override_step v g h =
      let d = parts map sha256 v.frame v.source v.now v.clock g in
      let (told, skipped, (e, event)) = fired v.frame.pfp v.frame.sap v.clock _ h in
      (
        d.0 ∙ told,
        d.1 ∙ rw skipped refl,
        ap (λ (l : CatastrophicAuditLog). l.total_triggers)
              (d.2 ∙ ap (λ es. appends sha256 g.catastrophic.audit_log es) event)
            ∙ append_total g.catastrophic.audit_log e,
      )

  -- A frame that carries the override is answered with it every time it comes, whatever its replay bit
  -- and its counter and in every state of the gate: `n` copies get `n` such decisions, each is counted
  -- in the audit log, and the processor with its replay cache never sees them.
  pub override_repeats :
      (n : ℕ) (v : Visit) (g : TuckGate M)
      → Frame.is_catastrophic_override v.frame ≡ true
      → (decisions g (replicate n v) ≡ replicate n catastrophic_override)
        × ((run g (replicate n v)).processor ≡ g.processor)
        × ((run g (replicate n v)).catastrophic.audit_log.total_triggers
            ≡ g.catastrophic.audit_log.total_triggers + n)
  unfolding run decisions
  override_repeats zero v g h = (refl, refl, omega arith)
  override_repeats (suc n) v g h =
      let (told, kept, counted) = override_step v g h in
      let (rest, stays, total) = override_repeats n v (visit g v).0 h in
      (λ i. told i ∷ rest i, stays ∙ kept, omega (arith, total, counted))
