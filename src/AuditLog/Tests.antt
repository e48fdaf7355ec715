-- ===== src/AuditLog/Tests.antt =====
-- A log of two events.
use provable_ai.Base.{arith}
use provable_ai.Json.Utf8.{has_surrogate}
use provable_ai.Json.Encode.{is_long}
use provable_ai.Text.Decimal.{decimal}
use provable_ai.Text.{text_eq}
use provable_ai.AuditLog.Chain.{intact, IsIntact}
use provable_ai.Base.{some, ◌∷◌, [], ◌≡◌, none, ◌⊎◌, length, ◌↔◌, refl}
use provable_ai.AuditLog.Record.{record_event-IsLog, IsLog}
use provable_ai.AuditLog.Storable.{IsStorable}
use provable_ai.Crypto.Toy.{toy}
use provable_ai.AuditLog.Tamper.{written, LogsCollide, verify_audit-IsIntact, tampering_shows}
use provable_ai.AuditLog.{
  Event, rows_of, AuditRow, verify_audit, Text, codes, record_event, some, ◌∷◌, [], pos, none,
  length, genesis_hash, content, max_sequence, result_allowed, List,
}

abbrev first : Event
first = record {
  tenant_id = codes "acme";
  trace_id = codes "t1";
  instance_id = some (codes "loan");
  sequence_id = some (pos 1);
  proof_id = none;
  verified_at = codes "now";
  result = codes "valid";
  failure_code = none;
  failure_msg = none;
  key_id = none;
  governance_json = none;
  recorded_at = codes "now";
}

empty-IsLog : (u : Text) → IsLog toy (rows_of u [])
unfolding rows_of
empty-IsLog u = (tt, tt)

first-IsStorable : IsStorable [] first
unfolding content rows_of max_sequence has_surrogate is_long decimal result_allowed text_eq
first-IsStorable = ground arith

recorded : (after : List AuditRow) × (record_event toy [] first ≡ some after)
recorded = (record_event-IsLog toy [] first empty-IsLog).0.1 first-IsStorable

record_event-IsLog_example :
    (((after : List AuditRow) × (record_event toy [] first ≡ some after)) ↔ IsStorable [] first)
    × ((after : List AuditRow)
        → record_event toy [] first ≡ some after
        → (r : AuditRow) × (after ≡ r ∷ [])
          × (r.event ≡ first)
          × ((u : Text) → IsLog toy (rows_of u after)))
record_event-IsLog_example = record_event-IsLog toy [] first empty-IsLog

abbrev one_log : List AuditRow
one_log = recorded.0

one_verifies :
    verify_audit toy (codes "acme") one_log
    ≡ some (intact (length (rows_of (codes "acme") one_log)))
one_verifies =
    (verify_audit-IsIntact toy (codes "acme") one_log).1
      (((record_event-IsLog toy [] first empty-IsLog).1 one_log recorded.1).3 (codes "acme")).0

verify_audit-IsIntact_example :
    (verify_audit toy (codes "acme") one_log
      ≡ some (intact (length (rows_of (codes "acme") one_log))))
    ↔ IsIntact toy genesis_hash (rows_of (codes "acme") one_log)
verify_audit-IsIntact_example = verify_audit-IsIntact toy (codes "acme") one_log

tampering_shows_example :
    (written (rows_of (codes "acme") one_log) ≡ written (rows_of (codes "acme") one_log))
    ⊎ LogsCollide toy genesis_hash genesis_hash
        (rows_of (codes "acme") one_log)
        (rows_of (codes "acme") one_log)
tampering_shows_example =
    tampering_shows toy (codes "acme") one_log one_log one_verifies one_verifies refl refl
