-- ===== src/Drift.antt =====
-- provable_ai/drift_detector.py: snapshots of the ledger and the audit log of a tenant, and their
-- comparison.
pub mod Agreement
mod Tests
use provable_ai.Base.{
  List, Bool, ◌∷◌, length, ◌∷◌, not, Option, ℕ, false, if◌then◌else◌, [], none, true, ◌==◌, ◌&&◌,
  some, ◌||◌, ltb,
}
use provable_ai.Text.{Text, text_eq}
use provable_ai.AuditLog.{AuditRow, get_latest_chain_hash, rows_of}
use provable_ai.Storage.{Tables, Row}
use provable_ai.Storage.Queries.{get_max_sequence_id}
use provable_ai.Verifier.{compute_system_root}
use provable_ai.Crypto.{Crypto}

pub record SystemSnapshot : Type 0 where
  pub snapshot_id : Text
  pub tenant_id : Text
  pub environment : Text
  pub system_root : Text
  pub instance_count : ℕ
  pub audit_chain_hash : Text
  pub audit_row_count : ℕ
  pub recorded_at : Text

pub data DriftType : Type 0 where
  root_mismatch : DriftType
  chain_mismatch : DriftType
  count_mismatch : DriftType
  combined : DriftType

pub data Severity : Type 0 where
  ok_severity : Severity
  warning : Severity
  critical : Severity

-- DriftResult, without the details and the recommendation, which is a text for each type.
pub record DriftResult : Type 0 where
  pub drifted : Bool
  pub drift_type : Option DriftType
  pub severity : Severity
  pub snap_a : SystemSnapshot
  pub snap_b : SystemSnapshot

-- The hashes of the rows whose sequence_id is the largest of their instance; the order in which
-- they are selected does not matter to `compute_system_root`, which sorts them.
unfoldable pub latest_hashes : Tables → Text → List Row → List Text
latest_hashes db t [] = []
latest_hashes db t (r ∷ rs) =
    let rest = latest_hashes db t rs in
    if text_eq r.tenant_id t && r.sequence_id == get_max_sequence_id db r.instance_id t
    then r.current_hash ∷ rest
    else rest

-- take_snapshot, before the root is anchored, with the id that it draws
unfoldable pub take_snapshot :
    Crypto → Tables → List AuditRow → Text → Text → Text → Text → SystemSnapshot
take_snapshot c db audit_log tenant_id environment snapshot_id now =
    let hashes = latest_hashes db tenant_id db.ledger in
    record {
      snapshot_id = snapshot_id;
      tenant_id = tenant_id;
      environment = environment;
      system_root = compute_system_root c hashes;
      instance_count = length hashes;
      audit_chain_hash = get_latest_chain_hash tenant_id audit_log;
      audit_row_count = length (rows_of tenant_id audit_log);
      recorded_at = now;
    }

-- if issue: issues.append(kind)
abbrev pub issue : Bool → DriftType → List DriftType → List DriftType
issue true kind issues = kind ∷ issues
issue false kind issues = issues

unfoldable pub issues_of : SystemSnapshot → SystemSnapshot → List DriftType
issues_of a b = issue (not (text_eq a.system_root b.system_root)) root_mismatch (
    issue (not (text_eq a.audit_chain_hash b.audit_chain_hash)) chain_mismatch (
      issue
        (not (a.instance_count == b.instance_count) || not (a.audit_row_count == b.audit_row_count))
        count_mismatch []))

abbrev pub has_root : List DriftType → Bool
has_root [] = false
has_root (root_mismatch ∷ issues) = true
has_root (_ ∷ issues) = has_root issues

abbrev pub has_combined : List DriftType → Bool
has_combined [] = false
has_combined (combined ∷ issues) = true
has_combined (_ ∷ issues) = has_combined issues

-- _severity
unfoldable pub severity_of : List DriftType → Severity
severity_of issues =
    if has_root issues
    then critical
    else if has_combined issues || ltb 1 (length issues)
    then critical
    else warning

abbrev pub result_of : SystemSnapshot → SystemSnapshot → List DriftType → DriftResult
result_of a b [] = record {
  drifted = false;
  drift_type = none;
  severity = ok_severity;
  snap_a = a;
  snap_b = b;
}
result_of a b (kind ∷ []) = record {
  drifted = true;
  drift_type = some kind;
  severity = severity_of (kind ∷ []);
  snap_a = a;
  snap_b = b;
}
result_of a b (kind ∷ other ∷ issues) = record {
  drifted = true;
  drift_type = some combined;
  severity = severity_of (kind ∷ other ∷ issues);
  snap_a = a;
  snap_b = b;
}

-- DriftDetector.compare
unfoldable pub compare : SystemSnapshot → SystemSnapshot → DriftResult
compare a b = result_of a b (issues_of a b)
