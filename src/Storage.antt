-- ===== src/Storage.antt =====
-- provable_ai/storage.py: the tables that SQLiteStorage keeps and its append-only ledger.
pub mod Queries
pub mod Approvals
pub mod Chain
pub mod Append
mod Tests
use provable_ai.Json.{Value, dumps, obj}
use provable_ai.Canonical.{genesis_hash}
use provable_ai.Base.{
  Option, ℕ, List, ◌∷◌, some, Bool, length, if◌then◌else◌, ◌∷◌, none, ◌++◌, ◌+◌, ◌==◌, [], ltb, leb,
  false, ◌&&◌, ◌||◌, true, not,
}
use provable_ai.Text.{Text, codes, text_eq, is_empty}
use provable_ai.Schema.{ProofV1}
use Prim.Native.Nat.{ℕ}
use provable_ai.Base.Result.{◌>>◌, Result, ok, err}

pub record Row : Type 0 where
  pub tenant_id : Text
  pub instance_id : Text
  pub sequence_id : ℕ
  pub previous_hash : Text
  pub current_hash : Text
  pub signature : Text
  pub key_id : Text
  pub protocol_hash : Text
  pub from_state : Text
  pub to_state : Text
  pub model_version : Text
  pub agent_version : Text
  pub policy_version : Text
  pub metadata_json : Text
  pub proof_json : Text
  pub schema_version : Text
  pub timestamp : Text

pub record InstanceRow : Type 0 where
  pub tenant_id : Text
  pub instance_id : Text
  pub protocol_hash : Text
  pub current_state : Text
  pub frozen : Bool
  pub created_at : Text

-- The tables, the newest row of the ledger first; the other tables are in insertion order.
pub record Tables : Type 0 where
  pub ledger : List Row
  pub instances : List InstanceRow
  -- model_version and model_name
  pub approved_models : List (Text × Text)
  pub approved_agents : List (Text × Text)
  -- policy_version and active
  pub approved_policies : List (Text × Bool)
  -- protocol_hash and spec_json
  pub protocols : List (Text × Text)

-- The connection: the tables it sees and those of the last commit.
pub record Db : Type 0 where
  pub tables : Tables
  pub committed : Tables

abbrev pub commit : Tables → Db
commit t = record { tables = t; committed = t }

abbrev pub rollback : Db → Db
rollback db = record db { tables = db.committed }

pub data StorageError : Type 0 where
  signing_failed : StorageError
  -- LedgerError, with the tenant that owns the instance
  owned_by : Text → StorageError
  duplicate_sequence_id : ℕ → StorageError
  -- expected and actual
  sequence_gap : ℕ → ℕ → StorageError
  chain_broken : Text → Text → StorageError
  integrity_error : StorageError
  -- TypeError of json.dumps
  type_error : StorageError

-- What `append_ledger_entry` is given: the parts of the dict that it reads, and the whole dict,
-- which it stores as JSON.
pub record ProofDict : Type 0 where
  pub proof : ProofV1
  pub tenant_id : Option Text
  pub whole : Value

-- WHERE tenant_id = ? AND instance_id = ?
abbrev pub is_in : Text → Text → Row → Bool
is_in t i r = text_eq r.tenant_id t && text_eq r.instance_id i

unfoldable pub chain_of : Text → Text → List Row → List Row
chain_of t i [] = []
chain_of t i (r ∷ rs) = let rest = chain_of t i rs in if is_in t i r then r ∷ rest else rest

-- ORDER BY sequence_id DESC LIMIT 1
unfoldable pub latest : List Row → Option Row
latest [] = none
latest (r ∷ rs) = elim (latest rs) [
  | none ↦ some r
  | some s ↦ if leb s.sequence_id r.sequence_id then some r else some s
]

-- get_latest_ledger_entry
abbrev pub get_latest_ledger_entry : Tables → Text → Text → Option Row
get_latest_ledger_entry db i t = latest (chain_of t i db.ledger)

-- A tenant other than `t` that has rows of the instance.
unfoldable pub other_tenant : Text → Text → List Row → Option Text
other_tenant t i [] = none
other_tenant t i (r ∷ rs) =
    if text_eq r.instance_id i && not (text_eq r.tenant_id t)
    then some r.tenant_id
    else other_tenant t i rs

abbrev pub expected_seq : Option Row → ℕ
expected_seq none = 1
expected_seq (some r) = r.sequence_id + 1

abbrev pub expected_prev : Option Row → Text
expected_prev none = genesis_hash
expected_prev (some r) = r.current_hash

abbrev check_link : Option Row → ℕ → Text → Result StorageError (Unit {0})
check_link last n prev =
    if ltb n (expected_seq last)
    then err (duplicate_sequence_id n)
    else if ltb (expected_seq last) n
    then err (sequence_gap (expected_seq last) n)
    else if text_eq prev (expected_prev last)
    then ok tt
    else err (chain_broken (expected_prev last) prev)

-- _validate_chain_integrity
unfoldable pub validate_chain_integrity :
    Tables → Text → ℕ → Text → Text → Result StorageError (Unit {0})
validate_chain_integrity db i n prev t = elim (other_tenant t i db.ledger) [
  | some owner ↦ err (owned_by owner)
  | none ↦ check_link (get_latest_ledger_entry db i t) n prev
]

unfoldable pub has_instance : Text → List InstanceRow → Bool
has_instance i [] = false
has_instance i (r ∷ rs) = text_eq r.instance_id i || has_instance i rs

-- `_ensure_instance`: instance_id is UNIQUE, so INSERT OR IGNORE skips one that any tenant has.
unfoldable pub ensure_instance : Text → Text → Text → Text → Text → Tables → Tables
ensure_instance now i protocol state t db = if has_instance i db.instances then db else record db {
  instances =
      db.instances
      ++ (record {
        tenant_id = t;
        instance_id = i;
        protocol_hash = protocol;
        current_state = state;
        frozen = false;
        created_at = now;
      }
          ∷ []);
}

unfoldable pub has_sequence : ℕ → List Row → Bool
has_sequence n [] = false
has_sequence n (r ∷ rs) = r.sequence_id == n || has_sequence n rs

unfoldable pub has_hash : Text → List Row → Bool
has_hash h [] = false
has_hash h (r ∷ rs) = text_eq r.current_hash h || has_hash h rs

-- The CHECK constraints and the two UNIQUE indexes of the ledger.
unfoldable pub satisfies_constraints : List Row → Row → Bool
satisfies_constraints rows r =
    let chain = chain_of r.tenant_id r.instance_id rows in
    length r.current_hash == 64
    && (length r.signature == 128
        && (not (has_sequence r.sequence_id chain) && not (has_hash r.current_hash chain)))

abbrev pub tenant_of : ProofDict → Text
tenant_of d = elim d.tenant_id [ none ↦ codes "default" | some t ↦ t ]

unfoldable pub row_of : ProofDict → Text → Text → Row
row_of d metadata_json proof_json =
    let p = d.proof in
    record {
      tenant_id = tenant_of d;
      instance_id = p.instance_id;
      sequence_id = p.ledger.sequence_id;
      previous_hash = p.ledger.previous_hash;
      current_hash = p.ledger.current_hash;
      signature = p.signature.value;
      key_id = p.signature.key_id;
      protocol_hash = p.governance.policy_version;
      from_state = p.decision.from_state;
      to_state = p.decision.to_state;
      model_version = p.governance.model_version;
      agent_version = p.governance.agent_version;
      policy_version = p.governance.policy_version;
      metadata_json = metadata_json;
      proof_json = proof_json;
      schema_version = p.type_name;
      timestamp = p.ledger.timestamp;
    }

-- The INSERT, with its commit or its rollback.
unfoldable pub insert_row : Db → Row → Db × Result StorageError ℕ
insert_row db r =
    if satisfies_constraints db.tables.ledger r
    then (commit (record db.tables { ledger = r ∷ db.tables.ledger }), ok r.sequence_id)
    else (rollback db, err integrity_error)

abbrev store_dumped : Db → ProofDict → Option Text → Option Text → Db × Result StorageError ℕ
store_dumped db d (some proof_json) (some metadata_json) =
    insert_row db (row_of d metadata_json proof_json)
store_dumped db d _ _ = (db, err type_error)

-- append_ledger_entry
unfoldable pub append_ledger_entry : Text → Db → ProofDict → Db × Result StorageError ℕ
append_ledger_entry now db d =
    let p = d.proof in
    if length p.signature.value == 128
    then elim (validate_chain_integrity db.tables p.instance_id p.ledger.sequence_id
        p.ledger.previous_hash (tenant_of d)) [
          | err e ↦ (db, err e)
          | ok done ↦
              store_dumped
                (record db {
                  tables =
                      ensure_instance now p.instance_id p.governance.policy_version
                        p.decision.to_state (tenant_of d) db.tables;
                })
                d (dumps d.whole) (dumps (obj p.decision_context.metadata))
        ]
    else (db, err signing_failed)
