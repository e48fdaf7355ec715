-- ===== src/Engine/Delivered.antt =====
-- From calls of record_decision to a package that verifies.
use provable_ai.Base.{some, ◌≡◌, refl, ◌≢◌, List, [], ◌∷◌, All, true, ◌⊎◌, sym}
use provable_ai.Base.Result.{Result, ok, err}
use provable_ai.Text.{Text}
use provable_ai.Json.{Value, dumps}
use provable_ai.Canonical.Encodable.{IsEncodable}
use provable_ai.Crypto.{Crypto}
use provable_ai.Schema.{ProofV1, proof_dump}
use provable_ai.Storage.{Db, chain_of}
use provable_ai.Storage.Append.{IsValid}
use provable_ai.Storage.Queries.{freeze_instance}
use provable_ai.Signer.{Signer}
use provable_ai.Package.{verify_package, all_passed, CheckResult}
use provable_ai.Package.Sound.{IsAccepted-passes}
use provable_ai.Package.Offline.{verify_exported}
use provable_ai.Package.Offline.Stricter.{ZeroDigest, verify_package-verify_exported}
use provable_ai.Engine.{default_tenant, Request, EngineError, record_decision}
use provable_ai.Engine.Recorded.{IsRecorded, Outcome, record_decision-Outcome}
use provable_ai.Engine.Run.{record_all, keep, Outcome-IsValid}
use provable_ai.Engine.Export.{Loads, export_proof}
use provable_ai.Engine.Archive.{IsArchived, Restored, row-IsArchived}
use provable_ai.Engine.Exported.{IsAvailable, export_proof-IsExported}

-- The dump of each proof can be encoded, and json.loads restores it.
abbrev pub AllRestored : Loads → List ProofV1 → Type 0
AllRestored loads ps =
    All (λ p. IsEncodable (proof_dump p) × Restored loads (dumps (proof_dump p)) (proof_dump p)) ps

abbrev AllArchived : Crypto → Loads → Db → Type 0
AllArchived c loads db = All (IsArchived c loads) db.tables.ledger

-- A recorded proof leaves an archived row.
recorded-archived :
    {c : Crypto} (loads : Loads) (db after : Db) (r : Request) (p : ProofV1)
    → IsRecorded c db after r p
    → IsEncodable (proof_dump p) × Restored loads (dumps (proof_dump p)) (proof_dump p)
    → AllArchived c loads db
    → AllArchived c loads after
recorded-archived {c} loads db after r p h restored archived = rw h.grown (
  row-IsArchived c loads h.row p h.sealed.hashed h.row_hash h.row_previous h.row_json restored.0
      restored.1,
  archived,
)

step-archived :
    (c : Crypto) (loads : Loads) (db : Db) (r : Request) (ps : List ProofV1)
    (o : Db × Result EngineError ProofV1)
    → Outcome c db r o
    → AllRestored loads (keep o.1 ps)
    → AllArchived c loads db
    → AllArchived c loads o.0 × AllRestored loads ps
step-archived c loads db r ps (after, ok p) h (restored, rest) archived =
    (recorded-archived loads db after r p h restored archived, rest)
step-archived c loads db r ps (after, err e) h restored archived = (rw h.1 archived, restored)

record_all-archived :
    {c : Crypto} (s : Signer c) (loads : Loads) (db : Db) (calls : List (Text × Request))
    → IsValid db
    → AllArchived c loads db
    → AllRestored loads (record_all s db calls).1
    → IsValid (record_all s db calls).0 × AllArchived c loads (record_all s db calls).0
unfolding record_all
record_all-archived s loads db [] v archived restored = (v, archived)
record_all-archived {c} s loads db (call ∷ calls) v archived restored =
    let step = record_decision s call.0 db call.1 in
    let outcome = record_decision-Outcome s call.0 db call.1 v in
    let (archived', restored') =
      step-archived c loads db call.1 (record_all s step.0 calls).1 step outcome restored
        archived in
    record_all-archived s loads step.0 calls (Outcome-IsValid c db call.1 step outcome) archived'
      restored'

both {ℓ κ} :
    {A : Type ℓ} {B : Type κ} (pair : A × B) {a : A} {b : B}
    → pair.0 ≡ a
    → pair.1 ≡ b
    → pair ≡ (a, b)
both pair e f = rw (sym e) (rw (sym f) refl)

-- Whatever calls `record_decision` gets from valid tables whose rows are archived (none, for
-- instance), for whatever instances and some of them refused: every instance that then has rows is
-- exported and frozen, its package passes `verify_package`, and the offline verifier accepts it
-- unless an input has the genesis hash as its digest; provided that the dumps of the recorded
-- proofs can be encoded, that json.loads restores them, and that the signer answers.
pub record_all-export_proof :
    {c : Crypto} (s : Signer c) (loads : Loads) (i : Text) (db : Db) (calls : List (Text × Request))
    → IsValid db
    → All (IsArchived c loads) db.tables.ledger
    → AllRestored loads (record_all s db calls).1
    → chain_of default_tenant i (record_all s db calls).0.tables.ledger ≢ []
    → IsAvailable s
    → (exported : Value) × (checks : List CheckResult) × (export_proof s loads i
          (record_all s db calls).0
        ≡ (freeze_instance i default_tenant (record_all s db calls).0, ok exported))
      × (verify_package c exported ≡ some checks)
      × (all_passed checks ≡ true)
      × (((state : Value) × (verify_exported c exported ≡ some (true, state))) ⊎ ZeroDigest c)
record_all-export_proof {c} s loads i db calls v archived restored rows available =
    let after = (record_all s db calls).0 in
    let (v', archived') = record_all-archived s loads db calls v archived restored in
    let h = export_proof-IsExported s loads i after v'.linked archived' rows available in
    let (checks, passes, ok_all) = IsAccepted-passes c h.exported h.accepted in
    (
      h.exported,
      checks,
      both (export_proof s loads i after) h.frozen h.returned,
      passes,
      ok_all,
      verify_package-verify_exported c h.exported checks passes ok_all,
    )
