-- ===== src/Vectors/Examples.antt =====
-- Runs of examples/generate_test_vectors.rs: what its vectors expect and what they record as the actual
-- answer are the same, and the theorems at concrete inputs.
use bind.Common.{◌∷◌, [], ◌≡◌, refl, map, replicate, ok}
use bind.Config.{codes}
use bind.Pfp
use bind.Sap
use bind.ReplayCache.{check_and_update, insert_new}
use bind.ReplayCache.AssocMap.{assoc_map}
use bind.Rotation.{pending, rotated, idle, start_rotation, handle_ack, complete_rotation}
use bind.Vectors.Encoded.{PfpVector, SapVector, generate_sap_vectors, generate_pfp_vectors}
use bind.Vectors.Answers.{
  ReplayVector, generate_replay_vectors, Rule6Vector, generate_rule6_vectors, CatastrophicVector,
  catastrophic_manager_local, generate_catastrophic_vectors, generate_key_rotation_vectors,
}

replay_agrees :
    map (λ (v : ReplayVector). v.result) (generate_replay_vectors assoc_map 5)
    ≡ map (λ (v : ReplayVector). v.actual_result) (generate_replay_vectors assoc_map 5)
unfolding check_and_update insert_new
replay_agrees = refl

rule6_agrees :
    map (λ (v : Rule6Vector). v.effective_risk_level) generate_rule6_vectors
    ≡ map (λ (v : Rule6Vector). v.actual_effective) generate_rule6_vectors
unfolding Pfp.effective_risk_level
rule6_agrees = refl

catastrophic_agrees :
    map (λ (v : CatastrophicVector). v.is_catastrophic_override) generate_catastrophic_vectors
    ≡ map (λ (v : CatastrophicVector). v.actual) generate_catastrophic_vectors
unfolding catastrophic_manager_local Pfp.encode Pfp.encode_byte2 Pfp.encode_byte3
catastrophic_agrees = refl

rotation_states :
    generate_key_rotation_vectors
    ≡ ok (record {
      seq_counter = 65534;
      threshold = 65534;
      after_start = pending 0;
      after_ack = rotated;
      after_complete = idle;
    })
unfolding generate_key_rotation_vectors start_rotation handle_ack complete_rotation
rotation_states = refl

pfp_sizes : map (λ (v : PfpVector). v.size) generate_pfp_vectors ≡ replicate 5 4
unfolding Pfp.encode
pfp_sizes = refl

sap_sizes : map (λ (v : SapVector). v.size) generate_sap_vectors ≡ replicate 5 28
unfolding Sap.encode
sap_sizes = refl

-- The texts that tests/test_vectors/golden/sap_codec.json has.
sap_golden :
    map (λ (v : SapVector). v.encoded_hex) generate_sap_vectors
    ≡ codes "cf140101000000000000000000000000000000000000000000000000"
      ∷ codes "cf140101ffffffffffffffffffffffffffffffffffffffffffffffff"
      ∷ codes "cf140101002aababababababababababababababcdcdcdcdcdcdcdcd"
      ∷ codes "cf140101fffe11111111111111111111111111112222222222222222"
      ∷ codes "cf14010103e8dedededededededededededededeadadadadadadadad"
      ∷ []
unfolding Sap.encode
sap_golden = refl
