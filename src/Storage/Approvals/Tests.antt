-- ===== src/Storage/Approvals/Tests.antt =====
-- Approvals in an empty database.
use provable_ai.Base.{[]}
use provable_ai.Storage.{Tables, []}

abbrev empty : Tables
empty = record {
  ledger = [];
  instances = [];
  approved_models = [];
  approved_agents = [];
  approved_policies = [];
  protocols = [];
}
