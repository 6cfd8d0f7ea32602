-- ===== src/Processor/Renew.antt =====
-- `remove_source` of src/processor.rs, which is called after a key rotation.
use bind.Common.{
  ℕ, ◌≡◌, refl, ap, ◌∙◌, arith, false, Option, none, some, is_some, ◌==◌, leb, if◌then◌else◌,
}
use bind.Sap.{SapHeader}
use bind.Frame.{BindFrame, is_replay_disabled}
use bind.ReplayCache.{
  ReplayMap, ReplayKey, ReplayCheckResult, allowed, rejected, cache_full, replay_cache_max_capacity,
  key_eq, new_key,
}
use bind.ReplayCache
use bind.ReplayCache.Check.{verdict, check_and_update_lem}
use bind.ReplayCache.Expiry.{remove_clear_lem}
use bind.Processor.{
  FrameProcessor, passed, rejected_cache_full, result_of, key_of, process_frame, last_seq,
  remove_source,
}
use bind.Processor.Sources.{process_checked}

same_tenant :
    (tenant source other : ℕ)
    → key_eq (new_key tenant source) (new_key tenant other) ≡ source == other
same_tenant tenant source other = ground arith

unknown_verdict :
    (last : Option ℕ) (size seq : ℕ)
    → last ≡ none
    → result_of (verdict last size seq)
      ≡ (if leb replay_cache_max_capacity size then rejected_cache_full else passed)
unknown_verdict last size seq h = rw h (ground arith)

module _ {M : Type 0} (map : ReplayMap M) where
  -- After `remove_source` the source starts over, and no other source changes: any frame of it with a
  -- SAP and its replay bit on passes, whatever its counter and whatever was accepted before, unless the
  -- cache is full; so a frame of before the rotation passes once more. The answer of `remove_source` is
  -- whether the source was known.
  pub remove_source_lem :
      (f : BindFrame) (s : SapHeader) (source other now : ℕ) (p : FrameProcessor M)
      → f.sap ≡ some s
      → is_replay_disabled f ≡ false
      → let (p', known) = remove_source map source p in
        (known ≡ is_some (last_seq map source p))
        × (last_seq map other p' ≡ (if source == other then none else last_seq map other p))
        × ((process_frame map f source now p').1 ≡ (
            if leb replay_cache_max_capacity (ReplayCache.len map p'.replay_cache)
            then rejected_cache_full
            else passed))
  unfolding remove_source last_seq
  remove_source_lem f s source other now p there on =
      let p' = (remove_source map source p).0 in
      let key = key_of p source in
      let (gone, known, none_left, empty) = remove_clear_lem map p.replay_cache key key in
      (
        known,
        (remove_clear_lem map p.replay_cache key (key_of p other)).0
            ∙ rw (same_tenant p.tenant_id source other) refl,
        rw (process_checked map f source now p' s there on) (
            ap result_of (check_and_update_lem map key s.seq_counter now p'.replay_cache key).0
            ∙ unknown_verdict _ (ReplayCache.len map p'.replay_cache) s.seq_counter
                (gone ∙ rw (same_tenant p.tenant_id source source) (ground arith))),
      )
