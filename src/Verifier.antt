-- ===== src/Verifier.antt =====
-- provable_ai/verifier.py: a proof, and a chain of proofs, tested offline.
pub mod Sound
pub mod Root
mod Tests
use provable_ai.Json.Utf8.{utf8}
use provable_ai.Text.Hex.{fromhex}
use provable_ai.Text.Sorted.{sort_texts}
use provable_ai.Json.{Value}
use provable_ai.Base.Result.{Result, err, ok}
use provable_ai.Text.{Text, Bytes, codes, text_eq, text_leb, concat}
use provable_ai.Crypto.{Crypto, hexdigest}
use provable_ai.Schema.{
  model_validate, to_hash_payload, to_sign_bytes, Reader, Determinism, ProofV1,
  strict_deterministic, replay_with_seed, replay_with_recorded_io,
}
use provable_ai.Canonical.{genesis_hash, is_valid_hash, CanonicalError, canonical_hash}
use provable_ai.Base.Result.{◌>>=◌}
use provable_ai.Base.{
  ℕ, suc, Bool, List, Option, false, ◌∷◌, true, ◌∷◌, if◌then◌else◌, [], none, some, ◌==◌, ◌+◌, ◌&&◌,
  not,
}

-- The "type" of a failure_reason.
pub data FailureType : Type 0 where
  schema_validation_error : FailureType
  hash_mismatch : FailureType
  signature_mismatch : FailureType
  chain_broken : FailureType
  sequence_gap : FailureType
  determinism_inconsistency : FailureType
  unexpected_error : FailureType
  empty_chain : FailureType

pub record VerificationResult : Type 0 where
  pub valid : Bool
  pub final_state : Option Text
  pub verified_at : Text
  pub key_id : Text
  pub sequence_verified : ℕ
  pub chain_intact : Bool
  pub governance_compliant : Bool
  pub failure_reason : Option FailureType

-- A failure after the schema was accepted, with its two flags.
abbrev pub failure : Text → ProofV1 → FailureType → Bool → Bool → VerificationResult
failure at p reason intact compliant = record {
  valid = false;
  final_state = some p.decision.to_state;
  verified_at = at;
  key_id = p.signature.key_id;
  sequence_verified = p.ledger.sequence_id;
  chain_intact = intact;
  governance_compliant = compliant;
  failure_reason = some reason;
}

abbrev pub success : Text → ProofV1 → VerificationResult
success at p = record {
  valid = true;
  final_state = some p.decision.to_state;
  verified_at = at;
  key_id = p.signature.key_id;
  sequence_verified = p.ledger.sequence_id;
  chain_intact = true;
  governance_compliant = true;
  failure_reason = none;
}

-- A failure that says nothing of a proof.
abbrev pub no_proof : Text → FailureType → VerificationResult
no_proof at reason = record {
  valid = false;
  final_state = none;
  verified_at = at;
  key_id = codes "unknown";
  sequence_verified = 0;
  chain_intact = false;
  governance_compliant = false;
  failure_reason = some reason;
}

abbrev pub verify_bytes : Crypto → Option Bytes → Bytes → Option Bytes → Bool
verify_bytes c (some public_key) message (some signature) =
    c.ed25519_verify public_key message signature
verify_bytes c _ message _ = false

-- _verify_ed25519
unfoldable pub verify_ed25519 : Crypto → Text → Bytes → Text → Bool
verify_ed25519 c public_key_hex hash_bytes signature_hex =
    verify_bytes c (fromhex public_key_hex) hash_bytes (fromhex signature_hex)

abbrev pub calls_hash_ok : Option Text → Bool
calls_hash_ok none = false
calls_hash_ok (some h) = is_valid_hash h

abbrev pub is_none {ℓ} : {A : Type ℓ} → Option A → Bool
is_none none = true
is_none (some a) = false

-- `_validate_determinism_consistency` returns None
unfoldable pub determinism_consistent : Determinism → Bool
determinism_consistent d = elim d.mode [
  | strict_deterministic ↦ is_none d.seed && is_none d.external_calls_hash
  | replay_with_seed ↦ not (is_none d.seed)
  | replay_with_recorded_io ↦ calls_hash_ok d.external_calls_hash
]

abbrev pub matches : Option Text → Text → Bool
matches none h = true
matches (some expected) h = text_eq h expected

abbrev pub matches_number : Option ℕ → ℕ → Bool
matches_number none n = true
matches_number (some expected) n = n == expected

-- Steps 4 to 6.
unfoldable pub verify_links : Text → Option Text → Option ℕ → ProofV1 → VerificationResult
verify_links at expected_previous_hash expected_sequence_id p =
    if not (matches expected_previous_hash p.ledger.previous_hash)
    then failure at p chain_broken false true
    else if p.ledger.sequence_id == 1 && not (text_eq p.ledger.previous_hash genesis_hash)
    then failure at p chain_broken false true
    else if not (matches_number expected_sequence_id p.ledger.sequence_id)
    then failure at p sequence_gap false true
    else if not (determinism_consistent p.determinism)
    then failure at p determinism_inconsistency true true
    else success at p

-- Step 3, and what follows it.
unfoldable pub verify_signed : Crypto → Text → Option Text → Option ℕ → ProofV1 → VerificationResult
verify_signed c at prev seq p = elim (to_sign_bytes p) [
  | none ↦ failure at p unexpected_error false false
  | some hash_bytes ↦
      if verify_ed25519 c p.signature.public_key hash_bytes p.signature.value
      then verify_links at prev seq p
      else failure at p signature_mismatch false true
]

-- The hash that step 2 recomputes.
unfoldable pub recompute_hash : Crypto → ProofV1 → Result CanonicalError Text
recompute_hash c p = do payload ← to_hash_payload p; canonical_hash c payload

-- Step 2, and what follows it.
unfoldable pub verify_model : Crypto → Text → Option Text → Option ℕ → ProofV1 → VerificationResult
verify_model c at prev seq p = elim (recompute_hash c p) [
  | err e ↦ failure at p unexpected_error false false
  | ok recomputed_hash ↦
      if text_eq recomputed_hash p.ledger.current_hash
      then verify_signed c at prev seq p
      else failure at p hash_mismatch false true
]

unfoldable pub verify_proof :
    Crypto → Reader → Text → Value → Option Text → Option ℕ → VerificationResult
verify_proof c read at proof_dict prev seq = elim (model_validate read proof_dict) [
  | none ↦ no_proof at schema_validation_error
  | some p ↦ verify_model c at prev seq p
]

-- What the loop of `verify_chain` carries: last_hash, final_state and final_key_id.
pub record Progress : Type 0 where
  pub last_hash : Text
  pub final_state : Option Text
  pub final_key_id : Text

-- "Update chain state"; an exception there is passed over.
abbrev pub update_progress : Progress → Option ProofV1 → Progress
update_progress s none = s
update_progress s (some p) = record {
  last_hash = p.ledger.current_hash;
  final_state = some p.decision.to_state;
  final_key_id = p.signature.key_id;
}

-- The rest of the loop, after `done` proofs.
unfoldable pub verify_rest : Crypto → Reader → Text → ℕ → Progress → List Value → VerificationResult
verify_rest c read at done s [] = record {
  valid = true;
  final_state = s.final_state;
  verified_at = at;
  key_id = s.final_key_id;
  sequence_verified = done;
  chain_intact = true;
  governance_compliant = true;
  failure_reason = none;
}
verify_rest c read at done s (d ∷ ds) =
    let result = verify_proof c read at d (some s.last_hash) (some (done + 1)) in
    let rest = verify_rest c read at (done + 1) (update_progress s (model_validate read d)) ds in
    if result.valid
    then rest
    else record result { final_state = s.final_state; verified_at = at; chain_intact = false }

unfoldable pub verify_chain : Crypto → Reader → Text → List Value → VerificationResult
verify_chain c read at [] = no_proof at empty_chain
verify_chain c read at (d ∷ ds) =
    verify_rest c read at 0
      (record { last_hash = genesis_hash; final_state = none; final_key_id = codes "unknown" })
      (d ∷ ds)

-- SHA-256 of the sorted hashes.
unfoldable pub compute_system_root : Crypto → List Text → Text
compute_system_root c [] = genesis_hash
compute_system_root c (h ∷ hs) = hexdigest c (utf8 (concat (sort_texts (h ∷ hs))))
