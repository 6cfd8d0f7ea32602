-- ===== src/Processor/Replay.antt =====
-- Rule 4 of src/processor.rs: a counter that was accepted is not accepted again.
use bind.Common.{
  ℕ, ◌+◌, ◌%◌, ◌≤◌, ◌<◌, ◌≡◌, refl, sym, ap, ◌∙◌, arith, true, false, not, ◌&&◌, Option, none, some,
  is_some, ◌==◌, if◌then◌else◌, Option-cases, Bool-cases, inl, inr, List, [], ◌∷◌,
}
use bind.Sap.{SapHeader, needs_key_rotation, increment_seq}
use bind.Frame.{BindFrame, is_replay_disabled}
use bind.ReplayCache.{
  ReplayMap, ReplayKey, ReplayCheckResult, allowed, rejected, cache_full, replay_cache_max_capacity,
  key_eq, check_and_update,
}
use bind.ReplayCache
use bind.ReplayCache.Check.{verdict, is_allowed as cache_allows, check_and_update_lem}
use bind.ReplayCache.Trace.{IsAbove, verdict-IsAbove, is_allowed→eq, key_eq→eq}
use bind.Processor.{
  FrameProcessor, passed, rejected_replay, result_of, key_of, is_rejected, process_frame, last_seq,
}
use bind.Processor.Sources.{process_checked, process_unchecked}

pub record Delivery : Type 0 where
  pub frame : BindFrame
  pub source : ℕ
  pub now : ℕ

-- The last counter is there and not below `n`.
abbrev pub IsAtLeast : Option ℕ → ℕ → Type 0
IsAtLeast none n = ⊥
IsAtLeast (some m) n = n ≤ m

raise : (last : Option ℕ) (n seq : ℕ) → IsAbove last seq → IsAtLeast last n → n ≤ seq
raise none n seq a h = absurd h
raise (some m) n seq a h = omega arith

key_eq_self : (k : ReplayKey) → key_eq k k ≡ true
key_eq_self k = ground arith

verdict_rejected :
    (last : Option ℕ) (size seq n : ℕ)
    → seq ≤ n
    → IsAtLeast last n
    → verdict last size seq ≡ rejected
verdict_rejected none size seq n low h = absurd h
verdict_rejected (some m) size seq n low h = ground arith

result_passed : (r : ReplayCheckResult) → result_of r ≡ passed → r ≡ allowed
result_passed allowed h = refl
result_passed rejected h = cc
result_passed cache_full h = cc

-- The verdict on the counter after `n`, which has 16 bits.
verdict_next :
    (n size : ℕ)
    → n < 65536
    → result_of (verdict (some n) size ((n + 1) % 65536))
      ≡ (if n == 65535 then rejected_replay else passed)
verdict_next n size h = ground arith

wrap_asked :
    (n : ℕ) (s : SapHeader)
    → s.seq_counter ≡ n
    → is_rejected (if n == 65535 then rejected_replay else passed) && not (needs_key_rotation s)
      ≡ false
unfolding needs_key_rotation is_rejected
wrap_asked n s e = ground arith

module _ {M : Type 0} (map : ReplayMap M) where
  -- A check of any source leaves the last counter of `key` where it was, or raises it.
  cache_step :
      (key other : ReplayKey) (seq now n : ℕ) (c : ReplayCache.ReplayCache M)
      → IsAtLeast (ReplayCache.last_seq map key c) n
      → IsAtLeast (ReplayCache.last_seq map key (check_and_update map other seq now c).0) n
  cache_step key other seq now n c h =
      let (answered, kept) = check_and_update_lem map other seq now c key in
      let answer = (check_and_update map other seq now c).1 in
      elim (Bool-cases (cache_allows answer && key_eq other key)) [
        | inl mine ↦
            let same = key_eq→eq other key (ground arith) in
            rw (kept, mine)
              (raise (ReplayCache.last_seq map key c) n seq
                (verdict-IsAbove _ (ReplayCache.len map c) seq
                  (rw (← same) (sym answered ∙ is_allowed→eq answer (ground arith))))
                h)
        | inr other_way ↦ rw (kept, other_way) h
      ]

  pub process_step :
      (g : BindFrame) (source other now n : ℕ) (p : FrameProcessor M)
      → IsAtLeast (last_seq map source p) n
      → IsAtLeast (last_seq map source (process_frame map g other now p).0) n
  unfolding last_seq
  process_step g source other now n p h =
      elim (Bool-cases (is_some g.sap && not (is_replay_disabled g))) [
        | inr unchecked ↦ rw (process_unchecked map g other now p unchecked) h
        | inl checked ↦ elim (Option-cases g.sap) [
          | inl absent ↦ absurd (ground arith)
          | inr (s, there) ↦
              rw (process_checked map g other now p s there (ground arith))
                (cache_step (key_of p source) (key_of p other) s.seq_counter now n p.replay_cache h)
        ]
      ]

  -- The processor after a sequence of frames.
  unfoldable pub run_frames : FrameProcessor M → List Delivery → FrameProcessor M
  run_frames p [] = p
  run_frames p (d ∷ ds) = run_frames (process_frame map d.frame d.source d.now p).0 ds

  run_step :
      (source n : ℕ) (p : FrameProcessor M) (ds : List Delivery)
      → IsAtLeast (last_seq map source p) n
      → IsAtLeast (last_seq map source (run_frames p ds)) n
  unfolding run_frames
  run_step source n p [] h = h
  run_step source n p (d ∷ ds) h =
      run_step source n (process_frame map d.frame d.source d.now p).0 ds
        (process_step d.frame source d.source d.now n p h)

  -- A frame that the cache let through leaves its counter as the last one of its source.
  pub passed_recorded :
      (f : BindFrame) (s : SapHeader) (source now : ℕ) (p : FrameProcessor M)
      → f.sap ≡ some s
      → is_replay_disabled f ≡ false
      → (process_frame map f source now p).1 ≡ passed
      → last_seq map source (process_frame map f source now p).0 ≡ some s.seq_counter
  unfolding last_seq
  passed_recorded f s source now p there on ok =
      let checked = process_checked map f source now p s there on in
      let (answered, kept) =
        check_and_update_lem map (key_of p source) s.seq_counter now p.replay_cache
          (key_of p source) in
      rw checked (rw (kept, result_passed _ (rw checked at ok), key_eq_self (key_of p source)))

  pub below_rejected :
      (g : BindFrame) (t : SapHeader) (source now n : ℕ) (p : FrameProcessor M)
      → g.sap ≡ some t
      → is_replay_disabled g ≡ false
      → t.seq_counter ≤ n
      → IsAtLeast (last_seq map source p) n
      → (process_frame map g source now p).1 ≡ rejected_replay
  unfolding last_seq
  below_rejected g t source now n p there on low h =
      rw (process_checked map g source now p t there on) (
        ap result_of (
          (check_and_update_lem map (key_of p source) t.seq_counter now p.replay_cache
            (key_of p source)).0
          ∙ verdict_rejected _ _ t.seq_counter n low h))

  -- Rule 4. Once a frame with a SAP and its replay bit on has passed, then after any further frames
  -- from any sources, at any times, every frame of the same source with its replay bit on and a
  -- counter that is not above is rejected as a replay; the same frame sent again is one of these.
  pub accepted_once :
      (f g : BindFrame) (s t : SapHeader) (source now later : ℕ) (p : FrameProcessor M)
      (ds : List Delivery)
      → f.sap ≡ some s
      → is_replay_disabled f ≡ false
      → (process_frame map f source now p).1 ≡ passed
      → g.sap ≡ some t
      → is_replay_disabled g ≡ false
      → t.seq_counter ≤ s.seq_counter
      → (process_frame map g source later (run_frames (process_frame map f source now p).0 ds)).1
        ≡ rejected_replay
  accepted_once f g s t source now later p ds fs fon ok gs gon low =
      below_rejected g t source later s.seq_counter _ gs gon low (
        run_step source s.seq_counter (process_frame map f source now p).0 ds
          (rw (passed_recorded f s source now p fs fon ok) (omega arith)))

  second_answer :
      (f g : BindFrame) (s t : SapHeader) (source now later : ℕ) (p : FrameProcessor M)
      → f.sap ≡ some s
      → is_replay_disabled f ≡ false
      → (process_frame map f source now p).1 ≡ passed
      → g.sap ≡ some t
      → is_replay_disabled g ≡ false
      → s.seq_counter < 65536
      → t.seq_counter ≡ (increment_seq s).1
      → (process_frame map g source later (process_frame map f source now p).0).1
        ≡ (if s.seq_counter == 65535 then rejected_replay else passed)
  unfolding last_seq increment_seq
  second_answer f g s t source now later p fs fon ok gs gon word next =
      let p' = (process_frame map f source now p).0 in
      rw (process_checked map g source later p' t gs gon) (
        ap result_of (
          (check_and_update_lem map (key_of p' source) t.seq_counter later p'.replay_cache
            (key_of p' source)).0
          ∙ rw (passed_recorded f s source now p fs fon ok, next))
        ∙ verdict_next s.seq_counter (ReplayCache.len map p'.replay_cache) word)

  -- Of frames with a SAP, a counter of 16 bits and the replay bit on: the sender's next frame, with
  -- the counter that `increment_seq` gives, passes right after one that passed, unless the counter
  -- wraps from 65535 to 0; then it is rejected as a replay. A frame so rejected comes after one for
  -- which `needs_key_rotation` has asked for a rotation.
  pub next_frame :
      (f g : BindFrame) (s t : SapHeader) (source now later : ℕ) (p : FrameProcessor M)
      → f.sap ≡ some s
      → is_replay_disabled f ≡ false
      → (process_frame map f source now p).1 ≡ passed
      → g.sap ≡ some t
      → is_replay_disabled g ≡ false
      → s.seq_counter < 65536
      → t.seq_counter ≡ (increment_seq s).1
      → let answer = (process_frame map g source later (process_frame map f source now p).0).1 in
        (answer ≡ (if s.seq_counter == 65535 then rejected_replay else passed))
        × (is_rejected answer && not (needs_key_rotation s) ≡ false)
  next_frame f g s t source now later p fs fon ok gs gon word next =
      let answered = second_answer f g s t source now later p fs fon ok gs gon word next in
      (answered, rw answered (wrap_asked s.seq_counter s refl))
