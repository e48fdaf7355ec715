-- ===== src/Schema.antt =====
-- provable_ai/schema.py: the models of a proof, their validators and what `model_dump` makes of
-- them. Pydantic itself reads a dict into typed fields (`Reader`); the validators here run on those
-- fields. `none` is a ValidationError.
pub mod Sample
pub mod Fixed
use provable_ai.Base.Int.{pos}
use provable_ai.Text.Hex.{fromhex, is_int16, is_blank}
use provable_ai.Canonical.{CanonicalError, build_hash_payload}
use provable_ai.Text.{Text, codes, Bytes, is_empty, text_eq, lower}
use provable_ai.Base.Result.{Result}
use provable_ai.Json.{
  Value, Fields, Items, obj, null, nil, str, end, field, text_key, cons, arr, int,
}
use provable_ai.Base.{
  ℕ, ◌&&◌, not, Bool, List, Option, if◌then◌else◌, length, false, some, true, none, ◌==◌, ◌∷◌, leb,
  [],
}

pub data DeterminismMode : Type 0 where
  strict_deterministic replay_with_seed replay_with_recorded_io : DeterminismMode

pub record Decision : Type 0 where
  pub from_state : Text
  pub to_state : Text

pub record DecisionContext : Type 0 where
  pub reason_code : Text
  pub policy_rule : Text
  pub model_version : Text
  pub inputs_hash : Text
  pub feature_contributions : List (List (Text × Text))
  pub threshold_used : Option Text
  pub metadata : Fields

pub record Governance : Type 0 where
  pub model_version : Text
  pub agent_version : Text
  pub policy_version : Text

pub record Determinism : Type 0 where
  pub mode : DeterminismMode
  pub seed : Option Text
  pub external_calls_hash : Option Text

pub record Ledger : Type 0 where
  pub sequence_id : ℕ
  pub previous_hash : Text
  pub current_hash : Text
  pub timestamp : Text

-- The algorithm is always ed25519.
pub record Signature : Type 0 where
  pub key_id : Text
  pub public_key : Text
  pub value : Text

pub record ProofV1 : Type 0 where
  pub type_name : Text
  pub instance_id : Text
  pub decision : Decision
  pub decision_context : DecisionContext
  pub governance : Governance
  pub determinism : Determinism
  pub ledger : Ledger
  pub signature : Signature

abbrev pub proof_version : Text
proof_version = codes "zorynex-proof-v1"

-- Field(..., min_length=1)
abbrev pub non_empty : Text → Bool
non_empty s = not (is_empty s)

abbrev pub require {ℓ} : {A : Type ℓ} → Bool → A → Option A
require true a = some a
require false a = none

unfoldable pub validate_decision : Decision → Option Decision
validate_decision d = require (non_empty d.from_state && non_empty d.to_state) d

-- A hexadecimal text of the given length, in lower case.
unfoldable pub validate_hash_field : ℕ → Text → Option Text
validate_hash_field n v = require (length v == n && is_int16 v) (lower v)

abbrev pub with_inputs_hash : DecisionContext → Option Text → Option DecisionContext
with_inputs_hash d none = none
with_inputs_hash d (some h) = some (record d { inputs_hash = h })

unfoldable pub validate_context : DecisionContext → Option DecisionContext
validate_context d =
    if non_empty d.reason_code && (non_empty d.policy_rule && non_empty d.model_version)
    then with_inputs_hash d (validate_hash_field 64 d.inputs_hash)
    else none

unfoldable pub validate_governance : Governance → Option Governance
validate_governance g =
    require (non_empty g.model_version && (non_empty g.agent_version && non_empty g.policy_version))
      g

-- validate_mode_fields
abbrev pub mode_fields_ok : DeterminismMode → Option Text → Option Text → Bool
mode_fields_ok strict_deterministic seed calls = true
mode_fields_ok replay_with_seed none calls = false
mode_fields_ok replay_with_seed (some s) calls = true
mode_fields_ok replay_with_recorded_io seed none = false
mode_fields_ok replay_with_recorded_io seed (some h) = length h == 64

unfoldable pub validate_determinism : Determinism → Option Determinism
validate_determinism d = require (mode_fields_ok d.mode d.seed d.external_calls_hash) d

-- v.endswith("Z")
unfoldable pub ends_with_z : Text → Bool
ends_with_z [] = false
ends_with_z (c ∷ []) = c == 90
ends_with_z (c ∷ d ∷ s) = ends_with_z (d ∷ s)

abbrev pub with_hashes : Ledger → Option Text → Option Text → Option Ledger
with_hashes l (some p) (some c) = some (record l { previous_hash = p; current_hash = c })
with_hashes l _ _ = none

unfoldable pub validate_ledger : Ledger → Option Ledger
validate_ledger l =
    if leb 1 l.sequence_id && (leb 20 (length l.timestamp) && ends_with_z l.timestamp)
    then with_hashes l (validate_hash_field 64 l.previous_hash)
        (validate_hash_field 64 l.current_hash)
    else none

-- not v.strip()
unfoldable pub is_blank_text : Text → Bool
is_blank_text [] = true
is_blank_text (c ∷ s) = is_blank c && is_blank_text s

abbrev pub with_keys : Signature → Option Text → Option Text → Option Signature
with_keys s (some k) (some v) = some (record s { public_key = k; value = v })
with_keys s _ _ = none

unfoldable pub validate_signature : Signature → Option Signature
validate_signature s =
    if not (is_blank_text s.key_id)
    then with_keys s (validate_hash_field 64 s.public_key) (validate_hash_field 128 s.value)
    else none

abbrev pub assemble :
    ProofV1
    → Option Decision
    → Option DecisionContext
    → Option Governance
    → Option Determinism
    → Option Ledger
    → Option Signature
    → Option ProofV1
assemble p (some d) (some dc) (some g) (some det) (some l) (some s) = some (record p {
  decision = d;
  decision_context = dc;
  governance = g;
  determinism = det;
  ledger = l;
  signature = s;
})
assemble p _ _ _ _ _ _ = none

-- The validators of ProofV1, those of its parts first.
unfoldable pub validate_proof : ProofV1 → Option ProofV1
validate_proof p =
    if text_eq p.type_name proof_version
      && (non_empty p.instance_id
          && text_eq p.decision_context.model_version p.governance.model_version)
    then assemble p (validate_decision p.decision) (validate_context p.decision_context)
        (validate_governance p.governance) (validate_determinism p.determinism)
        (validate_ledger p.ledger) (validate_signature p.signature)
    else none

-- What Pydantic reads from a dict before the validators run; `none` if a field is missing or is of
-- a type that it does not take.
abbrev pub Reader : Type 0
Reader = Value → Option ProofV1

-- ProofV1.model_validate
unfoldable pub model_validate : Reader → Value → Option ProofV1
model_validate read proof_dict = elim (read proof_dict) [ none ↦ none | some p ↦ validate_proof p ]

abbrev pub str_field : Text → Text → Fields → Fields
str_field k v fs = field (text_key k) (str v) fs

abbrev pub opt_str : Option Text → Value
opt_str none = null
opt_str (some s) = str s

unfoldable pub decision_dump : Decision → Value
decision_dump d =
    obj (str_field (codes "from_state") d.from_state (str_field (codes "to_state") d.to_state end))

unfoldable pub pairs_dump : List (Text × Text) → Fields
pairs_dump [] = end
pairs_dump ((k, v) ∷ ps) = str_field k v (pairs_dump ps)

unfoldable pub contributions_dump : List (List (Text × Text)) → Items
contributions_dump [] = nil
contributions_dump (ps ∷ rest) = cons (obj (pairs_dump ps)) (contributions_dump rest)

unfoldable pub context_dump : DecisionContext → Value
context_dump d = obj (
    str_field (codes "reason_code") d.reason_code (
      str_field (codes "policy_rule") d.policy_rule (
        str_field (codes "model_version") d.model_version (
          str_field (codes "inputs_hash") d.inputs_hash (
            field (text_key (codes "feature_contributions"))
              (arr (contributions_dump d.feature_contributions))
              (field (text_key (codes "threshold_used")) (opt_str d.threshold_used)
                (field (text_key (codes "metadata")) (obj d.metadata) end)))))))

unfoldable pub governance_dump : Governance → Value
governance_dump g = obj (
    str_field (codes "model_version") g.model_version (
      str_field (codes "agent_version") g.agent_version
        (str_field (codes "policy_version") g.policy_version end)))

abbrev pub mode_text : DeterminismMode → Text
mode_text strict_deterministic = codes "strict_deterministic"
mode_text replay_with_seed = codes "replay_with_seed"
mode_text replay_with_recorded_io = codes "replay_with_recorded_io"

unfoldable pub determinism_dump : Determinism → Value
determinism_dump d = obj (
    str_field (codes "mode") (mode_text d.mode) (
      field (text_key (codes "seed")) (opt_str d.seed)
        (field (text_key (codes "external_calls_hash")) (opt_str d.external_calls_hash) end)))

-- ProofV1.to_hash_payload
unfoldable pub to_hash_payload : ProofV1 → Result CanonicalError Value
to_hash_payload p =
    build_hash_payload (decision_dump p.decision) (context_dump p.decision_context)
      (governance_dump p.governance) (determinism_dump p.determinism) p.ledger.previous_hash
      p.ledger.sequence_id

-- ProofV1.to_sign_bytes; `none` is the ValueError of bytes.fromhex
unfoldable pub to_sign_bytes : ProofV1 → Option Bytes
to_sign_bytes p = fromhex p.ledger.current_hash

unfoldable pub ledger_dump : Ledger → Value
ledger_dump l = obj (
    field (text_key (codes "sequence_id")) (int (pos l.sequence_id)) (
      str_field (codes "previous_hash") l.previous_hash (
        str_field (codes "current_hash") l.current_hash
          (str_field (codes "timestamp") l.timestamp end))))

unfoldable pub signature_dump : Signature → Value
signature_dump s = obj (
    str_field (codes "algorithm") (codes "ed25519") (
      str_field (codes "key_id") s.key_id
        (str_field (codes "public_key") s.public_key (str_field (codes "value") s.value end))))

-- ProofV1.model_dump
unfoldable pub proof_dump : ProofV1 → Value
proof_dump p = obj (
    str_field (codes "type") p.type_name (
      str_field (codes "instance_id") p.instance_id (
        field (text_key (codes "decision")) (decision_dump p.decision) (
          field (text_key (codes "decision_context")) (context_dump p.decision_context) (
            field (text_key (codes "governance")) (governance_dump p.governance) (
              field (text_key (codes "determinism")) (determinism_dump p.determinism) (
                field (text_key (codes "ledger")) (ledger_dump p.ledger)
                  (field (text_key (codes "signature")) (signature_dump p.signature) end))))))))
