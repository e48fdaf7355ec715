-- ===== src/Drift/Tests.antt =====
-- Snapshots of two environments with one row in their audit logs.
use provable_ai.AuditLog.{Event}
use provable_ai.Base.Int.{pos}
use provable_ai.Text.{codes}
use provable_ai.Base.{[], some, refl, ◌≡◌, length, false, ◌⊎◌, none}
use provable_ai.AuditLog.{
  verify_audit, rows_of, record_event, content, max_sequence, result_allowed,
}
use provable_ai.Base.{arith}
use provable_ai.Json.Utf8.{has_surrogate}
use provable_ai.Json.Encode.{is_long}
use provable_ai.Text.Decimal.{decimal}
use provable_ai.Text.{text_eq}
use provable_ai.Canonical.{genesis_hash}
use provable_ai.Drift.Agreement.{root_bytes, no_drift_same_logs, Agrees, compare-Agrees}
use provable_ai.AuditLog.Record.{record_event-IsLog, IsLog}
use provable_ai.AuditLog.Storable.{IsStorable}
use provable_ai.AuditLog.Tamper.{written, LogsCollide, verify_audit-IsIntact}
use provable_ai.AuditLog.Chain.{intact}
use provable_ai.Drift.{compare, take_snapshot, latest_hashes, AuditRow, Tables, rows_of, Text, List}
use provable_ai.Crypto.Toy.{toy}
use provable_ai.Crypto.{Collides}

abbrev empty : Tables
empty = record {
  ledger = [];
  instances = [];
  approved_models = [];
  approved_agents = [];
  approved_policies = [];
  protocols = [];
}

abbrev entry : Event
entry = record {
  tenant_id = codes "acme";
  trace_id = codes "t1";
  instance_id = some (codes "loan");
  sequence_id = some (pos 1);
  proof_id = none;
  verified_at = codes "now";
  result = codes "valid";
  failure_code = none;
  failure_msg = none;
  key_id = none;
  governance_json = none;
  recorded_at = codes "now";
}

empty-IsLog : (u : Text) → IsLog toy (rows_of u [])
unfolding rows_of
empty-IsLog u = (tt, tt)

entry-IsStorable : IsStorable [] entry
unfolding content rows_of max_sequence has_surrogate is_long decimal result_allowed text_eq
entry-IsStorable = ground arith

recorded : (after : List AuditRow) × (record_event toy [] entry ≡ some after)
recorded = (record_event-IsLog toy [] entry empty-IsLog).0.1 entry-IsStorable

abbrev one_log : List AuditRow
one_log = recorded.0

one_verifies :
    verify_audit toy (codes "acme") one_log
    ≡ some (intact (length (rows_of (codes "acme") one_log)))
one_verifies =
    (verify_audit-IsIntact toy (codes "acme") one_log).1
      (((record_event-IsLog toy [] entry empty-IsLog).1 one_log recorded.1).3 (codes "acme")).0

same_fields :
    Agrees
      (take_snapshot toy empty one_log (codes "acme") (codes "prod") (codes "s1") (codes "now"))
      (take_snapshot toy empty one_log (codes "acme") (codes "dev") (codes "s2") (codes "now"))
unfolding take_snapshot
same_fields = (refl, refl, refl, refl)

no_drift :
    (compare
      (take_snapshot toy empty one_log (codes "acme") (codes "prod") (codes "s1") (codes "now"))
      (take_snapshot toy empty one_log
        (codes "acme")
        (codes "dev")
        (codes "s2")
        (codes "now"))).drifted
    ≡ false
no_drift =
    (compare-Agrees
        (take_snapshot toy empty one_log (codes "acme") (codes "prod") (codes "s1") (codes "now"))
        (take_snapshot toy empty one_log (codes "acme") (codes "dev") (codes "s2") (codes "now"))).1
      same_fields

no_drift_same_logs_example :
    ((written (rows_of (codes "acme") one_log) ≡ written (rows_of (codes "acme") one_log))
      ⊎ LogsCollide toy genesis_hash genesis_hash
          (rows_of (codes "acme") one_log)
          (rows_of (codes "acme") one_log))
    × (length (latest_hashes empty (codes "acme") [])
        ≡ length (latest_hashes empty (codes "acme") []))
    × ((root_bytes (latest_hashes empty (codes "acme") [])
          ≡ root_bytes (latest_hashes empty (codes "acme") []))
        ⊎ Collides toy
            (some (root_bytes (latest_hashes empty (codes "acme") [])))
            (some (root_bytes (latest_hashes empty (codes "acme") []))))
no_drift_same_logs_example =
    no_drift_same_logs toy empty empty one_log one_log (codes "acme") (codes "prod") (codes "dev")
      (codes "s1") (codes "s2") (codes "now") (codes "now") one_verifies one_verifies no_drift
