-- ===== src/Processor/Sources.antt =====
-- What `process_frame` of src/processor.rs answers, and what it changes.
use bind.Common.{
  ℕ, ◌≡◌, ap, arith, true, false, not, ◌&&◌, some, is_some, if◌then◌else◌, Option-cases, Bool-cases,
  inl, inr,
}
use bind.Sap.{SapHeader}
use bind.Frame.{BindFrame, is_replay_disabled}
use bind.ReplayCache.{ReplayMap, replay_cache_max_capacity, key_eq}
use bind.ReplayCache
use bind.ReplayCache.Check.{check_only_lem}
use bind.Processor.{
  FrameProcessor, passed, no_sap, replay_enable_of, result_of, key_of, process_frame, check_frame,
}

module _ {M : Type 0} (map : ReplayMap M) (f : BindFrame) (source now : ℕ)
    (p : FrameProcessor M) where
  -- A frame with a SAP whose replay bit is not off goes to the cache.
  pub process_checked :
      (s : SapHeader)
      → f.sap ≡ some s
      → is_replay_disabled f ≡ false
      → process_frame map f source now p ≡ (
          let (cache, answer) =
            ReplayCache.check_and_update map (key_of p source) s.seq_counter now p.replay_cache in
          (record p { replay_cache = cache }, result_of answer))
  unfolding process_frame is_replay_disabled
  process_checked s e on = rw (e, process_frame) (rw (enabled on))
    where
      enabled : is_replay_disabled f ≡ false → not (replay_enable_of f.pfp) ≡ false
      enabled off = ground arith

  -- A frame without a SAP, or with its replay bit off, is let through without a look at the cache: the
  -- processor stays as it was, and the answer is `passed` with a SAP and `no_sap` without one.
  pub process_unchecked :
      (is_some f.sap && not (is_replay_disabled f) ≡ false)
      → process_frame map f source now p ≡ (p, (if is_some f.sap then passed else no_sap))
  unfolding process_frame is_replay_disabled
  process_unchecked e = elim (Option-cases f.sap) [
    | inl none_there ↦ rw (none_there, process_frame)
    | inr (s, there) ↦ rw (there, process_frame) (rw (disabled s there))
  ]
    where
      disabled : (s : SapHeader) → f.sap ≡ some s → not (replay_enable_of f.pfp) ≡ true
      disabled s there = ground arith

  -- `check_frame` answers as `process_frame` would at any time.
  pub check_frame_lem : check_frame map f source p ≡ (process_frame map f source now p).1
  unfolding check_frame process_frame
  check_frame_lem = elim (Option-cases f.sap) [
    | inl none_there ↦ rw (none_there, check_frame, process_frame)
    | inr (s, there) ↦
        rw (there, check_frame, process_frame)
          (elim (Bool-cases (replay_enable_of f.pfp)) [
            | inl on ↦ rw on (
                ap result_of
                  (check_only_lem map (key_of p source) s.seq_counter now p.replay_cache))
            | inr off ↦ rw off
          ])
  ]
