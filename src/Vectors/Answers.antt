-- ===== src/Vectors/Answers.antt =====
-- examples/generate_test_vectors.rs: the vectors of what the library answers to replays, risks, key
-- rotations, overrides and signatures.
use bind.Common.{
  unwrap, ◌>>=◌, ◌>>◌, ℕ, ◌/◌, ◌^◌, Bool, true, false, not, ◌&&◌, List, [], ◌∷◌, length, replicate,
  ◌==◌, bit_and, get_or, Result, ok,
}
use bind.Config.{codes}
use bind.Pfp
use bind.Pfp.{PfpHeader}
use bind.Pfp.Enums.{
  RiskLevel, OverrideFlag, executive, low, medium, critical, catastrophic, moving, critical_edge,
  external, normal, hard_override, risk_level_to_bits,
}
use bind.ReplayCache
use bind.ReplayCache.{
  ReplayCache, ReplayMap, ReplayKey, ReplayCheckResult, allowed, rejected, new_key,
}
use bind.Rotation
use bind.Rotation.{
  KeyRotationPayload, RotationState, KeyRotationStateMachine, rotation_threshold, should_rotate,
  start_rotation, handle_ack, complete_rotation, is_pending, is_idle,
}
use bind.Common.Bytes.{bytes_eq}
use bind.Crypto.{from_seed, sign, sign_truncated, truncate_signature}
use bind.Crypto.Dalek.{Ed25519}
use bind.Vectors.Hex.{hex}

-- The names of the cases of `generate_replay_vectors`.
pub data ReplayName : Type 0 where
  normal_increment exact_replay old_seq large_jump new_source : ReplayName

abbrev source_of : ReplayName → ℕ
source_of new_source = 200
source_of _ = 100

abbrev is_allowed : ReplayCheckResult → Bool
is_allowed allowed = true
is_allowed _ = false

pub record ReplayVector : Type 0 where
  pub tenant_id : ℕ
  pub source_id : ℕ
  pub seq_counter : ℕ
  pub last_seen_seq : ℕ
  pub result : ReplayCheckResult
  pub actual_result : ReplayCheckResult
  pub allowed_by_rule : Bool

module _ {M : Type 0} (map : ReplayMap M) where
  -- The closure of `generate_replay_vectors` over its cases, one after another; `now` is the time.
  abbrev pub replay_vectors :
      List (ReplayName × ℕ × ReplayCheckResult) → ℕ → ReplayCache M → List ReplayVector
  replay_vectors [] now cache = []
  replay_vectors ((name, seq, expected) ∷ cases) now cache =
      let test_key = new_key 1 (source_of name) in
      let out = ReplayCache.check_and_update map test_key seq now cache in
      record {
        tenant_id = 1;
        source_id = source_of name;
        seq_counter = seq;
        last_seen_seq = 100;
        result = expected;
        actual_result = out.1;
        allowed_by_rule = is_allowed expected;
      }
      ∷ replay_vectors cases now out.0

  -- `generate_replay_vectors`
  abbrev pub generate_replay_vectors : ℕ → List ReplayVector
  generate_replay_vectors now =
      let cache =
        (ReplayCache.check_and_update map (new_key 1 100) 100 now (ReplayCache.new map)).0 in
      replay_vectors
        ((normal_increment, 101, allowed)
          ∷ (exact_replay, 100, rejected)
          ∷ (old_seq, 50, rejected)
          ∷ (large_jump, 65000, allowed)
          ∷ (new_source, 1, allowed)
          ∷ [])
        now cache

pub record Rule6Vector : Type 0 where
  pub original_risk_level : RiskLevel
  pub replay_enable : Bool
  pub effective_risk_level : RiskLevel
  pub actual_effective : RiskLevel
  pub downgraded : Bool

-- The closure of `generate_rule6_vectors`.
abbrev pub rule6_vector : RiskLevel → Bool → RiskLevel → Rule6Vector
rule6_vector risk replay_enable effective = record {
  original_risk_level = risk;
  replay_enable = replay_enable;
  effective_risk_level = effective;
  actual_effective =
      Pfp.effective_risk_level
        (Pfp.new executive risk moving critical_edge external hard_override replay_enable);
  downgraded = not (risk_level_to_bits effective == risk_level_to_bits risk);
}

-- `generate_rule6_vectors`
abbrev pub generate_rule6_vectors : List Rule6Vector
generate_rule6_vectors =
    rule6_vector catastrophic false medium
    ∷ rule6_vector critical false medium
    ∷ rule6_vector low true low
    ∷ []

-- `catastrophic_manager_local`
unfoldable pub catastrophic_manager_local : List ℕ → Bool
catastrophic_manager_local pfp_bytes =
    let risk_level = bit_and (get_or pfp_bytes 2 0 / 2 ^ 2) 3 in
    let override_flag = bit_and (get_or pfp_bytes 3 0 / 2 ^ 1) 1 in
    risk_level == 3 && override_flag == 1

pub record CatastrophicVector : Type 0 where
  pub risk_level : RiskLevel
  pub override_flag : OverrideFlag
  pub pfp_bytes_hex : List ℕ
  pub is_catastrophic_override : Bool
  pub actual : Bool

-- The closure of `generate_catastrophic_vectors`.
abbrev pub catastrophic_vector : RiskLevel → OverrideFlag → Bool → CatastrophicVector
catastrophic_vector risk override_flag expected =
    let encoded =
      Pfp.encode (Pfp.new executive risk moving critical_edge external override_flag true) in
    record {
      risk_level = risk;
      override_flag = override_flag;
      pfp_bytes_hex = hex encoded;
      is_catastrophic_override = expected;
      actual = catastrophic_manager_local encoded;
    }

-- `generate_catastrophic_vectors`
abbrev pub generate_catastrophic_vectors : List CatastrophicVector
generate_catastrophic_vectors =
    catastrophic_vector catastrophic hard_override true
    ∷ catastrophic_vector catastrophic normal false
    ∷ catastrophic_vector critical hard_override false
    ∷ []

abbrev pub rotation_payload : KeyRotationPayload
rotation_payload = record { nonce = replicate 12 1; new_key_encrypted = replicate 32 0xCD }

pub record RotationVectors : Type 0 where
  pub seq_counter : ℕ
  pub threshold : ℕ
  pub after_start : RotationState
  pub after_ack : RotationState
  pub after_complete : RotationState

-- `generate_key_rotation_vectors`, its four vectors as one record: the threshold, and the states after
-- the calls. What `expected` says of them beside is the same in every run.
unfoldable pub generate_key_rotation_vectors : Result Rotation.RotationError RotationVectors
generate_key_rotation_vectors = do
  let (started, payload_sent) = start_rotation rotation_payload Rotation.new
  sent ← unwrap payload_sent
  let (acknowledged, ack_result) = handle_ack started
  unwrap ack_result
  let (finished, end_result) = complete_rotation acknowledged
  unwrap end_result
  ok (record {
    seq_counter = rotation_threshold;
    threshold = rotation_threshold;
    after_start = started.state;
    after_ack = acknowledged.state;
    after_complete = finished.state;
  })

pub record PahVectors : Type 0 where
  pub seed_hex : List ℕ
  pub message : List ℕ
  pub message_hex : List ℕ
  pub full_signature_hex : List ℕ
  pub signature_size : ℕ
  pub truncated_signature_hex : List ℕ
  pub truncated_size : ℕ
  pub matches_direct_sign_truncated : Bool
  pub expected_truncated_hex : List ℕ
  pub actual_message : List ℕ
  pub actual_full_signature_hex : List ℕ
  pub actual_truncated_hex : List ℕ
  pub matches : Bool

module _ {SK VK : Type 0} (ed : Ed25519 SK VK) (sha256 : List ℕ → List ℕ) where
  -- `generate_pah_signature_vectors`, its three vectors as one record.
  abbrev pub generate_pah_signature_vectors : PahVectors
  generate_pah_signature_vectors =
      let keypair = from_seed ed (replicate 32 0x42) in
      let message = codes "CI-144 v2.0 Physical Anchor Layer test message" in
      let full_sig = sign ed keypair message in
      let truncated = truncate_signature sha256 full_sig in
      let wrong_message = codes "wrong message" in
      let wrong_sig = sign ed keypair wrong_message in
      record {
        seed_hex = hex (replicate 32 0x42);
        message = message;
        message_hex = hex message;
        full_signature_hex = hex full_sig;
        signature_size = length full_sig;
        truncated_signature_hex = hex truncated;
        truncated_size = length truncated;
        matches_direct_sign_truncated =
            bytes_eq truncated (sign_truncated sha256 ed keypair message);
        expected_truncated_hex = hex truncated;
        actual_message = wrong_message;
        actual_full_signature_hex = hex wrong_sig;
        actual_truncated_hex = hex (truncate_signature sha256 wrong_sig);
        matches = false;
      }
