-- ===== src/Engine.antt =====
-- provable_ai/engine.py: GovernanceEngine.record_decision, from the checks to the append.
pub mod SubModels
pub mod Build
pub mod Recorded
pub mod Verified
pub mod Run
pub mod Export
pub mod Archive
pub mod Loaded
pub mod Exported
pub mod Delivered
pub mod ReadBack
pub mod Lifecycle
pub mod Signed
mod Tests
use provable_ai.Json.Encode.{EncodeError, dump_bytes}
use provable_ai.Storage.Approvals.{versions, active_versions}
use provable_ai.Text.Hex.{fromhex}
use provable_ai.Base.{Option, ℕ, if◌then◌else◌, Bool, some, none, not, true, List, ◌&&◌, false, ◌+◌}
use provable_ai.Canonical.{
  CanonicalError, genesis_hash, validate_payload, build_hash_payload, is_valid_hash, canonical_hash,
}
use provable_ai.Storage.{
  Tables, Row, Db, ProofDict, get_latest_ledger_entry, append_ledger_entry, StorageError,
}
use provable_ai.Crypto.{Crypto, hexdigest}
use provable_ai.Schema.{
  Governance, ProofV1, Decision, Ledger, DecisionContext, strict_deterministic, validate_decision,
  Signature, Determinism, validate_ledger, validate_context, proof_version, decision_dump,
  validate_governance, validate_signature, proof_dump, context_dump, non_empty, DeterminismMode,
  require, validate_determinism, governance_dump, replay_with_seed, determinism_dump,
  replay_with_recorded_io,
}
use provable_ai.Text.{Text, codes, text_eq, Bytes, has_text, is_empty}
use provable_ai.Json.{Items, Value, obj, dumps, field, text_key, Fields, cons, arr, end, nil}
use provable_ai.Signer.{Signer}
use provable_ai.Base.Result.{◌>>=◌, ◌>>◌, Result, err, ok}

-- The arguments of record_decision.
pub record Request : Type 0 where
  pub instance_id : Text
  pub from_state : Text
  pub to_state : Text
  pub model_version : Text
  pub agent_version : Text
  pub policy_version : Text
  pub reason_code : Text
  pub policy_rule : Text
  pub raw_inputs : Value
  pub feature_contributions : List (List (Text × Text))
  pub threshold_used : Option Text
  pub metadata : Fields
  pub determinism_mode : DeterminismMode
  pub random_seed : Option Text
  pub external_calls : Items

pub data EngineError : Type 0 where
  unauthorized_model_version : EngineError
  agent_version_mismatch : EngineError
  policy_violation : EngineError
  canonical_error : CanonicalError → EngineError
  -- SequenceGap with expected and actual 0
  no_seed : EngineError
  chain_broken_at : ℕ → EngineError
  -- ValidationError
  schema_error : EngineError
  -- what json.dumps and encode raise in `_hash_raw`
  not_json : EncodeError → EngineError
  -- ValueError of bytes.fromhex
  not_hex : EngineError
  not_signed : EngineError
  storage_error : StorageError → EngineError

abbrev pub or_raise {ℓ} : {A : Type ℓ} → EngineError → Option A → Result EngineError A
or_raise e none = err e
or_raise e (some a) = ok a

abbrev pub lift_canonical {ℓ} : {A : Type ℓ} → Result CanonicalError A → Result EngineError A
lift_canonical (ok a) = ok a
lift_canonical (err e) = err (canonical_error e)

-- _validate_governance
unfoldable pub check_governance : Tables → Request → Result EngineError (Unit {0})
check_governance db r =
    if not (has_text r.model_version (versions db.approved_models))
    then err unauthorized_model_version
    else if not (has_text r.agent_version (versions db.approved_agents))
    then err agent_version_mismatch
    else if not (has_text r.policy_version (active_versions db.approved_policies))
    then err policy_violation
    else ok tt

-- not random_seed
abbrev pub no_text : Option Text → Bool
no_text none = true
no_text (some s) = is_empty s

-- not external_calls
abbrev pub no_items : Items → Bool
no_items nil = true
no_items (cons v xs) = false

-- "3. Determinism validation"; its last test is never reached with a missing seed.
unfoldable pub check_determinism : Request → Result EngineError (Unit {0})
check_determinism r = elim r.determinism_mode [
  | strict_deterministic ↦ ok tt
  | replay_with_seed ↦ if no_text r.random_seed then err no_seed else ok tt
  | replay_with_recorded_io ↦ if no_items r.external_calls then err policy_violation else ok tt
]

abbrev pub default_tenant : Text
default_tenant = codes "default"

abbrev pub link_after : Option Row → Result EngineError (Text × ℕ)
link_after none = ok (genesis_hash, 1)
link_after (some r) =
    if is_valid_hash r.current_hash
    then ok (r.current_hash, r.sequence_id + 1)
    else err (chain_broken_at (r.sequence_id + 1))

-- _get_previous_hash_and_sequence
unfoldable pub previous_link : Tables → Text → Result EngineError (Text × ℕ)
previous_link db i = link_after (get_latest_ledger_entry db i default_tenant)

abbrev pub hash_of_bytes : Crypto → Result EncodeError Bytes → Result EngineError Text
hash_of_bytes c (err e) = err (not_json e)
hash_of_bytes c (ok b) = ok (hexdigest c b)

-- _hash_raw
unfoldable pub hash_raw : Crypto → Value → Result EngineError Text
unfolding dump_bytes
hash_raw c v = hash_of_bytes c (dump_bytes v)

-- ext_calls_hash
unfoldable pub calls_hash : Crypto → Request → Result EngineError (Option Text)
calls_hash c r =
    let hashed = (do
      h ← hash_raw c (obj (field (text_key (codes "calls")) (arr r.external_calls) end))
      ok (some h)) in
    elim r.determinism_mode [
      | replay_with_recorded_io ↦ if no_items r.external_calls then ok none else hashed
      | _ ↦ ok none
    ]

-- The sub-models, "5. Build sub-models".
pub record Parts : Type 0 where
  pub decision : Decision
  pub decision_context : DecisionContext
  pub governance : Governance
  pub determinism : Determinism

abbrev pub raw_decision : Request → Decision
raw_decision r = record { from_state = r.from_state; to_state = r.to_state }

abbrev pub raw_context : Request → Text → DecisionContext
raw_context r inputs_hash = record {
  reason_code = r.reason_code;
  policy_rule = r.policy_rule;
  model_version = r.model_version;
  inputs_hash = inputs_hash;
  feature_contributions = r.feature_contributions;
  threshold_used = r.threshold_used;
  metadata = r.metadata;
}

abbrev pub raw_governance : Request → Governance
raw_governance r = record {
  model_version = r.model_version;
  agent_version = r.agent_version;
  policy_version = r.policy_version;
}

abbrev pub raw_determinism : Request → Option Text → Determinism
raw_determinism r calls = record {
  mode = r.determinism_mode;
  seed = r.random_seed;
  external_calls_hash = calls;
}

unfoldable pub build_parts : Crypto → Request → Result EngineError Parts
build_parts c r = do
  d ← or_raise schema_error (validate_decision (raw_decision r))
  inputs_hash ← hash_raw c r.raw_inputs
  dc ← or_raise schema_error (validate_context (raw_context r inputs_hash))
  g ← or_raise schema_error (validate_governance (raw_governance r))
  calls ← calls_hash c r
  det ← or_raise schema_error (validate_determinism (raw_determinism r calls))
  ok (record { decision = d; decision_context = dc; governance = g; determinism = det })

-- "6. Compute canonical hash"
unfoldable pub hash_parts : Crypto → Parts → Text → ℕ → Result EngineError Text
hash_parts c parts prev seq = do
  payload ← lift_canonical (
      build_hash_payload (decision_dump parts.decision) (context_dump parts.decision_context)
        (governance_dump parts.governance) (determinism_dump parts.determinism) prev seq)
  lift_canonical (canonical_hash c payload)

abbrev sign_bytes : {c : Crypto} → Signer c → Option Bytes → Result EngineError Text
sign_bytes s none = err not_hex
sign_bytes s (some b) = or_raise not_signed (s.sign_hash b)

-- "7. Sign hash bytes ONLY"
unfoldable pub sign_text : {c : Crypto} → Signer c → Text → Result EngineError Text
sign_text s hash = sign_bytes s (fromhex hash)

abbrev pub raw_ledger : Text → Text → ℕ → Text → Ledger
raw_ledger now prev seq hash = record {
  sequence_id = seq;
  previous_hash = prev;
  current_hash = hash;
  timestamp = now;
}

abbrev pub raw_signature : {c : Crypto} → Signer c → Text → Signature
raw_signature s value = record { key_id = s.key_id; public_key = s.public_key; value = value }

abbrev pub joined : Request → Parts → Ledger → Signature → ProofV1
joined r parts l sg = record {
  type_name = proof_version;
  instance_id = r.instance_id;
  decision = parts.decision;
  decision_context = parts.decision_context;
  governance = parts.governance;
  determinism = parts.determinism;
  ledger = l;
  signature = sg;
}

-- The validators of ProofV1 itself; its parts were validated when they were made.
abbrev pub own_fields_ok : ProofV1 → Bool
own_fields_ok p =
    text_eq p.type_name proof_version
    && (non_empty p.instance_id
        && text_eq p.decision_context.model_version p.governance.model_version)

-- Steps 5 to 8.
unfoldable pub build_proof :
    {c : Crypto} → Signer c → Text → Text → ℕ → Request → Result EngineError ProofV1
build_proof {c} s now prev seq r = do
  parts ← build_parts c r
  hash ← hash_parts c parts prev seq
  value ← sign_text s hash
  l ← or_raise schema_error (validate_ledger (raw_ledger now prev seq hash))
  sg ← or_raise schema_error (validate_signature (raw_signature s value))
  or_raise schema_error (require (own_fields_ok (joined r parts l sg)) (joined r parts l sg))

abbrev pub dict_of : ProofV1 → ProofDict
dict_of p = record { proof = p; tenant_id = none; whole = proof_dump p }

-- Steps 1 to 8.
unfoldable pub prepare :
    {c : Crypto} → Signer c → Text → Tables → Request → Result EngineError ProofV1
prepare s now db r = do
  check_governance db r
  lift_canonical (validate_payload (obj r.metadata))
  check_determinism r
  link ← previous_link db r.instance_id
  build_proof s now link.0 link.1 r

abbrev pub answer_with : ProofV1 → Db × Result StorageError ℕ → Db × Result EngineError ProofV1
answer_with p (db, ok n) = (db, ok p)
answer_with p (db, err e) = (db, err (storage_error e))

-- Step 9, where the steps before it made a proof.
abbrev pub finish : Text → Db → Result EngineError ProofV1 → Db × Result EngineError ProofV1
finish now db (err e) = (db, err e)
finish now db (ok p) = answer_with p (append_ledger_entry now db (dict_of p))

-- record_decision
unfoldable pub record_decision :
    {c : Crypto} → Signer c → Text → Db → Request → Db × Result EngineError ProofV1
record_decision s now db r = finish now db (prepare s now db.tables r)
