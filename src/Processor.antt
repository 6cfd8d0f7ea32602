-- ===== src/Processor.antt =====
-- src/processor.rs: a tenant's frame processor over the replay cache. `now` is the time of the call.
pub mod Replay
pub mod Sources
pub mod Renew
pub mod Levels
mod Examples
mod UnitTests
use bind.Common.{ℕ, ◌≡◌, Bool, true, false, not, ◌||◌, Option, none, some, if◌then◌else◌}
use bind.Pfp.{PfpHeader}
use bind.Sap.{SapHeader}
use bind.Frame.{BindFrame}
use bind.ReplayCache.{
  ReplayCache, ReplayMap, ReplayKey, ReplayCheckResult, allowed, rejected, cache_full, new_key,
}
use bind.ReplayCache

pub data FrameProcessResult : Type 0 where
  passed rejected_replay rejected_cache_full no_sap : FrameProcessResult

-- `FrameProcessResult::is_allowed`
unfoldable pub is_allowed : FrameProcessResult → Bool
is_allowed passed = true
is_allowed no_sap = true
is_allowed _ = false

-- `FrameProcessResult::is_rejected`
unfoldable pub is_rejected : FrameProcessResult → Bool
is_rejected rejected_replay = true
is_rejected rejected_cache_full = true
is_rejected _ = false

pub record FrameProcessor (M : Type 0) : Type 0 where
  pub replay_cache : ReplayCache M
  pub tenant_id : ℕ

-- `frame.pfp.as_ref().map(|p| p.replay_enable).unwrap_or(true)`
abbrev pub replay_enable_of : Option PfpHeader → Bool
replay_enable_of none = true
replay_enable_of (some p) = p.replay_enable

-- The `match` on the answer of the cache.
abbrev pub result_of : ReplayCheckResult → FrameProcessResult
result_of allowed = passed
result_of rejected = rejected_replay
result_of cache_full = rejected_cache_full

abbrev pub key_of : {M : Type 0} → FrameProcessor M → ℕ → ReplayKey
key_of p source = new_key p.tenant_id source

module _ {M : Type 0} (map : ReplayMap M) where
  -- `FrameProcessor::new`
  abbrev pub new : ℕ → FrameProcessor M
  new tenant = record { replay_cache = ReplayCache.new map; tenant_id = tenant }

  -- `FrameProcessor::with_ttl`
  abbrev pub with_ttl : ℕ → ℕ → FrameProcessor M
  with_ttl tenant ttl = record { replay_cache = ReplayCache.with_ttl map ttl; tenant_id = tenant }

  -- `FrameProcessor::process_frame`
  unfoldable pub process_frame :
      BindFrame → ℕ → ℕ → FrameProcessor M → FrameProcessor M × FrameProcessResult
  process_frame frame source now p = elim (frame.sap) [
    | none ↦ (p, no_sap)
    | some sap ↦
        if not (replay_enable_of frame.pfp)
        then (p, passed)
        else (let (cache, answer) =
              ReplayCache.check_and_update map (key_of p source) sap.seq_counter now
                p.replay_cache in
            (record p { replay_cache = cache }, result_of answer))
  ]

  -- `FrameProcessor::check_frame`
  unfoldable pub check_frame : BindFrame → ℕ → FrameProcessor M → FrameProcessResult
  check_frame frame source p = elim (frame.sap) [
    | none ↦ no_sap
    | some sap ↦
        if not (replay_enable_of frame.pfp)
        then passed
        else result_of (ReplayCache.check_only map (key_of p source) sap.seq_counter p.replay_cache)
  ]

  -- `FrameProcessor::cleanup_expired`
  unfoldable pub cleanup_expired : ℕ → FrameProcessor M → FrameProcessor M × ℕ
  cleanup_expired now p =
      let (cache, count) = ReplayCache.cleanup_expired map now p.replay_cache in
      (record p { replay_cache = cache }, count)

  -- `FrameProcessor::last_seq`
  unfoldable pub last_seq : ℕ → FrameProcessor M → Option ℕ
  last_seq source p = ReplayCache.last_seq map (key_of p source) p.replay_cache

  -- `FrameProcessor::remove_source`
  unfoldable pub remove_source : ℕ → FrameProcessor M → FrameProcessor M × Bool
  remove_source source p =
      let (cache, known) = ReplayCache.remove map (key_of p source) p.replay_cache in
      (record p { replay_cache = cache }, known)
