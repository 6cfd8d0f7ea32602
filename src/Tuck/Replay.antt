-- ===== src/Tuck/Replay.antt =====
-- Rule 4 at the gate of examples/tuck_integration.rs.
use bind.Common.{
  ℕ, ◌≤◌, ◌≡◌, refl, sym, ap, ◌∙◌, arith, false, some, List, [], ◌∷◌, if◌then◌else◌, Bool-cases,
  inl, inr,
}
use bind.Pfp
use bind.Pfp.{PfpHeader}
use bind.Sap.{SapHeader}
use bind.Frame.{BindFrame, is_replay_disabled}
use bind.ReplayCache.{ReplayMap, ReplayCheckResult, allowed, rejected, cache_full}
use bind.Processor.{passed, is_rejected, result_of, process_frame, last_seq}
use bind.Processor.Sources.{process_checked}
use bind.Processor.Replay.{IsAtLeast, process_step, passed_recorded, below_rejected}
use bind.Tuck.{TuckGate, allow, reject}
use bind.Tuck.Decide.{is_processed, table, parts}
use bind.Tuck.Override.{Visit, visit, run}

-- A frame with a PFP without the override, a SAP, and the replay bit on.
pub record IsGuarded (f : BindFrame) (p : PfpHeader) (s : SapHeader) : Type 0 where
  pub has_pfp : f.pfp ≡ some p
  pub quiet : Pfp.is_catastrophic_override p ≡ false
  pub has_sap : f.sap ≡ some s
  pub enabled : is_replay_disabled f ≡ false

result_passed :
    (r : ReplayCheckResult)
    → (if is_rejected (result_of r) then reject else allow) ≡ allow
    → result_of r ≡ passed
unfolding is_rejected
result_passed allowed h = refl
result_passed rejected h = cc
result_passed cache_full h = cc

module _ {M : Type 0} (map : ReplayMap M) (sha256 : List ℕ → List ℕ) where
  -- A guarded frame at the gate: the processor's own operation, and its answer.
  guarded_lem :
      (v : Visit) (p : PfpHeader) (s : SapHeader) (g : TuckGate M)
      → IsGuarded v.frame p s
      → ((visit map sha256 g v).1 ≡ (
          if is_rejected (process_frame map v.frame v.source v.now g.processor).1
          then reject
          else allow))
        × ((visit map sha256 g v).0.processor
            ≡ (process_frame map v.frame v.source v.now g.processor).0)
  guarded_lem v p s g ok =
      let d = parts map sha256 v.frame v.source v.now v.clock g in
      let result = process_frame map v.frame v.source v.now g.processor in
      (
        d.0 ∙ ap (λ x. table x result.1) ok.has_pfp ∙ rw ok.quiet refl,
        d.1
            ∙ ap (λ x. if is_processed x then result.0 else g.processor) ok.has_pfp
            ∙ rw ok.quiet refl,
      )

  visit_step :
      (source n : ℕ) (v : Visit) (g : TuckGate M)
      → IsAtLeast (last_seq map source g.processor) n
      → IsAtLeast (last_seq map source (visit map sha256 g v).0.processor) n
  visit_step source n v g h =
      let changed = (parts map sha256 v.frame v.source v.now v.clock g).1 in
      elim (Bool-cases (is_processed v.frame.pfp)) [
        | inl seen ↦
            rw (changed, seen) (process_step map v.frame source v.source v.now n g.processor h)
        | inr skipped ↦ rw (changed, skipped) h
      ]

  run_step :
      (source n : ℕ) (g : TuckGate M) (vs : List Visit)
      → IsAtLeast (last_seq map source g.processor) n
      → IsAtLeast (last_seq map source (run map sha256 g vs).processor) n
  unfolding run
  run_step source n g [] h = h
  run_step source n g (v ∷ vs) h =
      run_step source n (visit map sha256 g v).0 vs (visit_step source n v g h)

  allow_recorded :
      (v : Visit) (p : PfpHeader) (s : SapHeader) (g : TuckGate M)
      → IsGuarded v.frame p s
      → (visit map sha256 g v).1 ≡ allow
      → last_seq map v.source (visit map sha256 g v).0.processor ≡ some s.seq_counter
  allow_recorded v p s g ok let_in =
      let (told, changed) = guarded_lem v p s g ok in
      let checked =
        process_checked map v.frame v.source v.now g.processor s ok.has_sap ok.enabled in
      rw changed (
        passed_recorded map v.frame s v.source v.now g.processor ok.has_sap ok.enabled
          (rw checked (result_passed _ (rw checked at (sym told ∙ let_in)))))

  -- Rule 4 at the gate. Once the gate has allowed a frame that has a PFP without the override, a SAP
  -- and its replay bit on, then after any further frames, with the override or not, from any sources,
  -- every such frame of the same source whose counter is not above is refused.
  pub gate_accepts_once :
      (v w : Visit) (p q : PfpHeader) (s t : SapHeader) (g : TuckGate M) (vs : List Visit)
      → IsGuarded v.frame p s
      → IsGuarded w.frame q t
      → v.source ≡ w.source
      → t.seq_counter ≤ s.seq_counter
      → (visit map sha256 g v).1 ≡ allow
      → (visit map sha256 (run map sha256 (visit map sha256 g v).0 vs) w).1 ≡ reject
  unfolding is_rejected
  gate_accepts_once v w p q s t g vs ok ok' same low let_in =
      let late = run map sha256 (visit map sha256 g v).0 vs in
      let floor : IsAtLeast (last_seq map w.source late.processor) s.seq_counter =
        run_step w.source s.seq_counter (visit map sha256 g v).0 vs
          (rw (← same) (rw (allow_recorded v p s g ok let_in) (omega arith))) in
      (guarded_lem w q t late ok').0
      ∙ ap (λ r. if is_rejected r then reject else allow)
          (below_rejected map w.frame t w.source w.now s.seq_counter late.processor ok'.has_sap
            ok'.enabled low floor)
