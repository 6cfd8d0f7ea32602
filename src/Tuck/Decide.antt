-- ===== src/Tuck/Decide.antt =====
-- The decision of the gate of examples/tuck_integration.rs, as a table over its parts.
use bind.Common.{
  ℕ, ◌≡◌, refl, sym, arith, Bool, false, not, Option, none, some, List, [], ◌∷◌, ◌++◌,
  if◌then◌else◌, Option-cases, Bool-cases, inl, inr,
}
use mathlib.Core.Path.{subst}
use mathlib.Core.List.{append-nil}
use bind.Pfp
use bind.Pfp.{PfpHeader}
use bind.Sap.{SapHeader}
use bind.Frame.{BindFrame}
use bind.ReplayCache.{ReplayMap}
use bind.Processor.{FrameProcessResult, is_rejected, process_frame, check_frame}
use bind.Processor.Sources.{check_frame_lem}
use bind.Catastrophic.{CatastrophicEvent, new_event, handle_frame}
use bind.Catastrophic.Channel.{send}
use bind.Catastrophic.Chain.{appends}
use bind.Catastrophic.Manager.{override-encode}
use bind.Tuck.{
  TuckDecision, TuckGate, allow, reject, catastrophic_override, no_sap, tuck_source, sap_seq,
  decide,
}

-- The event of a frame that carries the override, and no event for any other.
abbrev pub events_of : Option PfpHeader → Option SapHeader → ℕ × ℕ → List CatastrophicEvent
events_of none sap clock = []
events_of (some p) sap clock =
    if Pfp.is_catastrophic_override p
    then new_event (Pfp.encode p) (sap_seq sap) none tuck_source clock ∷ []
    else []

-- The table: no PFP comes first, then the override, then the answer of the processor.
abbrev pub table : Option PfpHeader → FrameProcessResult → TuckDecision
table none result = no_sap
table (some p) result =
    if Pfp.is_catastrophic_override p
    then catastrophic_override
    else if is_rejected result
    then reject
    else allow

-- Whether the processor sees the frame.
abbrev pub is_processed : Option PfpHeader → Bool
is_processed none = false
is_processed (some p) = not (Pfp.is_catastrophic_override p)

module _ {M : Type 0} (map : ReplayMap M) (sha256 : List ℕ → List ℕ) (f : BindFrame)
    (source now : ℕ) (clock : ℕ × ℕ) (g : TuckGate M) where
  abbrev after : TuckGate M × TuckDecision
  after = decide map sha256 f source now clock g

  abbrev Decided : Option PfpHeader → TuckGate M × TuckDecision → Type 0
  Decided pfp out =
      (out.1 ≡ table pfp (process_frame map f source now g.processor).1)
      × (out.0.processor ≡ (
          if is_processed pfp then (process_frame map f source now g.processor).0 else g.processor))
      × (out.0.catastrophic.audit_log
          ≡ appends sha256 g.catastrophic.audit_log (events_of pfp f.sap clock))
      × (out.0.catastrophic.event_bus ≡ (
          if g.catastrophic.event_bus.receiver_alive
          then record g.catastrophic.event_bus {
            queue = g.catastrophic.event_bus.queue ++ events_of pfp f.sap clock;
          }
          else g.catastrophic.event_bus))

  entered :
      (p : PfpHeader)
      → f.pfp ≡ some p
      → after ≡ (
          let (manager, triggered) =
            handle_frame sha256
              (Pfp.encode p)
              (sap_seq f.sap)
              none
              tuck_source
              clock
              g.catastrophic in
          if triggered
          then (record g { catastrophic = manager }, catastrophic_override)
          else (let (processor, result) = process_frame map f source now g.processor in
              (
                record { processor = processor; catastrophic = manager },
                if is_rejected result then reject else allow,
              )))
  unfolding decide
  entered p there = simp (there, decide) refl

  with_pfp : (p : PfpHeader) → f.pfp ≡ some p → Decided (some p) after
  unfolding handle_frame appends send
  with_pfp p there = rw (entered p there) (elim (Bool-cases (Pfp.is_catastrophic_override p)) [
    | inl fires ↦ rw (override-encode p, fires) (refl, refl, refl, ground arith)
    | inr quiet ↦
        rw (override-encode p, quiet)
          (refl, refl, refl, rw (append-nil g.catastrophic.event_bus.queue) (ground arith))
  ])

  without : f.pfp ≡ none → Decided none after
  unfolding decide appends
  without absent =
      rw (absent, decide)
        (refl, refl, refl, rw (append-nil g.catastrophic.event_bus.queue) (ground arith))

  pub parts : Decided f.pfp after
  parts = elim (Option-cases f.pfp) [
    | inl absent ↦ subst (λ x. Decided x after) (sym absent) (without absent)
    | inr (p, there) ↦ subst (λ x. Decided x after) (sym there) (with_pfp p there)
  ]

  -- The decision of the gate is the table's, for the answer that the processor gives in a preview; the
  -- processor changes as by its own operation just if the frame has a PFP without the override, and the
  -- audit log grows by the event of the override just if the frame carries it, as does the bus if the
  -- receiver is there.
  pub decide_lem :
      (after.1 ≡ table f.pfp (check_frame map f source g.processor))
      × (after.0.processor ≡ (
          if is_processed f.pfp
          then (process_frame map f source now g.processor).0
          else g.processor))
      × (after.0.catastrophic.audit_log
          ≡ appends sha256 g.catastrophic.audit_log (events_of f.pfp f.sap clock))
      × (after.0.catastrophic.event_bus.queue
          ≡ g.catastrophic.event_bus.queue
            ++ (if g.catastrophic.event_bus.receiver_alive
                then events_of f.pfp f.sap clock
                else []))
  unfolding decide appends
  decide_lem =
      rw (check_frame_lem map f source now g.processor) (parts.0, parts.1, parts.2, queue_lem)
    where
      queue_lem :
          after.0.catastrophic.event_bus.queue
          ≡ g.catastrophic.event_bus.queue
            ++ (if g.catastrophic.event_bus.receiver_alive then events_of f.pfp f.sap clock else [])
      queue_lem = elim (Bool-cases g.catastrophic.event_bus.receiver_alive) [
        | inl there ↦ rw (parts.3, there) refl
        | inr gone ↦ rw (parts.3, gone) (sym (append-nil g.catastrophic.event_bus.queue))
      ]
