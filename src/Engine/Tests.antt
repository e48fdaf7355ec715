-- ===== src/Engine/Tests.antt =====
-- A decision on an empty ledger, signed with the small signature.
mod Export
use provable_ai.Storage.Chain.{last_hash}
use provable_ai.Verifier.{verify_proof, verify_chain}
use provable_ai.Engine.{
  record_decision, prepare, check_governance, check_determinism, previous_link, build_proof,
  build_parts, hash_raw, calls_hash, hash_parts, sign_text, default_tenant,
}
use provable_ai.Text.{has_text, text_eq, lower, text_leb}
use provable_ai.Storage.Approvals.{versions, active_versions, after_colon}
use provable_ai.Canonical.{
  validate_payload, build_hash_payload, canonical_encode, canonical_hash, genesis_hash, has_key,
  has_unknown, is_valid_hash, keys, missing, present, refused_value, validate_hash_payload,
}
use provable_ai.Storage.{
  latest, chain_of, append_ledger_entry, ensure_instance, has_hash, has_instance, has_sequence,
  insert_row, other_tenant, row_of, satisfies_constraints, validate_chain_integrity,
}
use provable_ai.Schema.{
  validate_decision, context_dump, contributions_dump, decision_dump, determinism_dump, ends_with_z,
  governance_dump, is_blank_text, ledger_dump, pairs_dump, proof_dump, signature_dump,
  validate_context, validate_determinism, validate_governance, validate_hash_field, validate_ledger,
  validate_signature,
}
use provable_ai.Crypto.{hexdigest}
use provable_ai.Json.Utf8.{utf8}
use provable_ai.Json.{dumps, entry_texts, escape_all, insert_entry, int_text, join, sort_entries}
use provable_ai.Text.Decimal.{decimal}
use provable_ai.Text.Hex.{fromhex, hex, is_int16}
use provable_ai.Signer.Toy.{signed_hex, all_bytes}
use provable_ai.Crypto.Toy.{toy_sha256, toy}
use provable_ai.Base.{some, ◌≡◌, [], refl, ◌∷◌, true, none, All, List, length, ◌+◌, ◌≢◌, arith}
use Prim.Native.String.{[]}
use provable_ai.Engine.{
  record_decision, Request, some, Result, Text, codes, obj, EngineError, end, ProofV1, ok, err,
  strict_deterministic, nil,
}
use provable_ai.Engine.Run.{record_all, dumps_of, record_all-verify_chain}
use provable_ai.Engine.Verified.{record_decision-verify_proof, replayable}
use provable_ai.Engine.Recorded.{record_decision-Outcome, Outcome, chain_before}
use provable_ai.Storage.{Tables, commit, chain_of}
use provable_ai.Storage.Append.{IsValid}
use provable_ai.Schema.Sample.{first_proof}
use provable_ai.Signer.Toy.{toy_signer}

abbrev approved : Tables
approved = record {
  ledger = [];
  instances = [];
  approved_models = (codes "m", codes "risk") ∷ [];
  approved_agents = (codes "g", codes "agent") ∷ [];
  approved_policies = (codes "q", true) ∷ [];
  protocols = [];
}

approved-IsValid : IsValid (commit approved)
unfolding chain_of
approved-IsValid = record { linked = λ t i. tt; owned = λ t u i h. absurd (h refl); durable = refl }

abbrev loan : Request
loan = record {
  instance_id = codes "loan";
  from_state = codes "a";
  to_state = codes "b";
  model_version = codes "m";
  agent_version = codes "g";
  policy_version = codes "q";
  reason_code = codes "r";
  policy_rule = codes "p";
  raw_inputs = obj end;
  feature_contributions = [];
  threshold_used = none;
  metadata = end;
  determinism_mode = strict_deterministic;
  random_seed = none;
  external_calls = nil;
}

abbrev now : Text
now = codes "2025-01-01T00:00:00Z"

-- The same request with a seed.
abbrev seeded : Request
seeded = record loan { random_seed = some (codes "7") }

abbrev proof_in : Result EngineError ProofV1 → ProofV1
proof_in (ok p) = p
proof_in (err e) = first_proof

abbrev seeded_proof : ProofV1
seeded_proof = proof_in (record_decision toy_signer now (commit approved) seeded).1

-- A model that is not approved, and then the decision on the loan.
abbrev calls : List (Text × Request)
calls = (now, record loan { model_version = codes "x" }) ∷ (now, loan) ∷ []

abbrev proofs : List ProofV1
proofs = (record_all toy_signer (commit approved) calls).1

abbrev loan_proof : ProofV1
loan_proof = proof_in (record_decision toy_signer now (commit approved) loan).1

runs :
    ((record_decision toy_signer now (commit approved) seeded).1 ≡ ok seeded_proof)
    × All (λ p. some loan_proof ≡ some p) proofs
    × (length (dumps_of (codes "loan") proofs) ≡ 1)
unfolding record_all dumps_of record_decision prepare check_governance has_text versions text_eq
    active_versions after_colon validate_payload check_determinism previous_link latest chain_of
    build_proof build_parts validate_decision hash_raw build_hash_payload canonical_encode
    canonical_hash genesis_hash has_key has_unknown is_valid_hash keys missing present refused_value
    validate_hash_payload hexdigest calls_hash hash_parts sign_text utf8 dumps entry_texts
    escape_all insert_entry int_text join sort_entries context_dump contributions_dump decision_dump
    determinism_dump ends_with_z governance_dump is_blank_text ledger_dump pairs_dump proof_dump
    signature_dump validate_context validate_determinism validate_governance validate_hash_field
    validate_ledger validate_signature append_ledger_entry ensure_instance has_hash has_instance
    has_sequence insert_row other_tenant row_of satisfies_constraints validate_chain_integrity
    decimal fromhex hex is_int16 lower text_leb signed_hex all_bytes toy_sha256
runs = (refl, (refl, tt), refl)

calls-replayable : All (λ (call : Text × Request). replayable call.1 ≡ true) calls
unfolding replayable
calls-replayable = (refl, (refl, tt))

not_empty : (i : Text) (ps : List ProofV1) → length (dumps_of i ps) ≡ 1 → dumps_of i ps ≢ []
not_empty i ps h e = absurd (ground (arith, e))

no_rows : chain_of default_tenant (codes "loan") approved.ledger ≡ []
unfolding chain_of
no_rows = refl

record_decision-Outcome_example :
    Outcome toy (commit approved) loan (record_decision toy_signer now (commit approved) loan)
record_decision-Outcome_example =
    record_decision-Outcome toy_signer now (commit approved) loan approved-IsValid

record_decision-verify_proof_example :
    (verify_proof toy
      (λ d. some seeded_proof)
      now
      (proof_dump seeded_proof)
      (some (last_hash (chain_before (commit approved) seeded)))
      (some (length (chain_before (commit approved) seeded) + 1))).valid
    ≡ replayable seeded
record_decision-verify_proof_example =
    record_decision-verify_proof toy_signer now (commit approved) seeded seeded_proof
      (λ d. some seeded_proof) now approved-IsValid runs.0 refl

record_all-verify_chain_example :
    (verify_chain toy (λ d. some loan_proof) now (dumps_of (codes "loan") proofs)).valid ≡ true
record_all-verify_chain_example =
    record_all-verify_chain toy_signer (λ d. some loan_proof) now (codes "loan") (commit approved)
      calls approved-IsValid no_rows calls-replayable runs.1
      (not_empty (codes "loan") proofs runs.2)
