-- ===== src/Schema/Sample.antt =====
-- A proof for the tests, signed with the small signature.
use provable_ai.Canonical.{genesis_hash}
use provable_ai.Base.{ℕ, [], replicate, suc, none, ◌∷◌, zero, ◌++◌}
use provable_ai.Schema.{ProofV1, Text, codes, end, strict_deterministic}
use Prim.Native.Nat.{ℕ, suc}

abbrev pub sevens : ℕ → Text
sevens zero = []
sevens (suc n) = 48 ∷ 55 ∷ sevens n

abbrev pub first_proof : ProofV1
first_proof = record {
  type_name = codes "zorynex-proof-v1";
  instance_id = codes "loan";
  decision = record { from_state = codes "a"; to_state = codes "b" };
  decision_context = record {
    reason_code = codes "r";
    policy_rule = codes "p";
    model_version = codes "m";
    inputs_hash = replicate 64 49;
    feature_contributions = [];
    threshold_used = none;
    metadata = end;
  };
  governance = record {
    model_version = codes "m";
    agent_version = codes "g";
    policy_version = codes "q";
  };
  determinism = record { mode = strict_deterministic; seed = none; external_calls_hash = none };
  ledger = record {
    sequence_id = 1;
    previous_hash = genesis_hash;
    current_hash = codes "27f9" ++ sevens 30;
    timestamp = codes "2025-01-01T00:00:00Z";
  };
  signature = record {
    key_id = codes "k";
    public_key = replicate 64 50;
    value = codes "27f9" ++ sevens 30 ++ codes "27f9" ++ sevens 30;
  };
}
