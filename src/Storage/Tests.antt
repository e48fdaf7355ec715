-- ===== src/Storage/Tests.antt =====
-- An append to an empty database.
use provable_ai.Canonical.{genesis_hash}
use provable_ai.Text.{text_eq}
use provable_ai.Json.{null, dumps}
use provable_ai.Base.{[], ◌≡◌, none, refl}
use provable_ai.Schema.Sample.{first_proof}
use provable_ai.Storage.Append.{IsValid, Appended, append_ledger_entry-IsValid}
use provable_ai.Storage.{
  chain_of, Tables, append_ledger_entry, ProofDict, codes, commit, genesis_hash, [], ok,
  validate_chain_integrity, other_tenant, latest, insert_row, satisfies_constraints, row_of,
  has_sequence, ensure_instance, has_instance, has_hash,
}

abbrev empty : Tables
empty = record {
  ledger = [];
  instances = [];
  approved_models = [];
  approved_agents = [];
  approved_policies = [];
  protocols = [];
}

empty-IsValid : IsValid (commit empty)
unfolding chain_of
empty-IsValid = record { linked = λ t i. tt; owned = λ t u i h. absurd (h refl); durable = refl }

abbrev first_dict : ProofDict
first_dict = record { proof = first_proof; tenant_id = none; whole = null }

appended : (append_ledger_entry (codes "now") (commit empty) first_dict).1 ≡ ok 1
unfolding append_ledger_entry validate_chain_integrity other_tenant latest chain_of text_eq
    genesis_hash dumps insert_row satisfies_constraints row_of has_sequence ensure_instance
    has_instance has_hash
appended = refl

append_ledger_entry-IsValid_example :
    IsValid (append_ledger_entry (codes "now") (commit empty) first_dict).0
    × Appended
        (commit empty)
        (append_ledger_entry (codes "now") (commit empty) first_dict).0
        (append_ledger_entry (codes "now") (commit empty) first_dict).1
        first_dict
append_ledger_entry-IsValid_example =
    append_ledger_entry-IsValid (codes "now") (commit empty) first_dict empty-IsValid
