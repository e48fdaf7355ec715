-- ===== src/Engine/Tests/Export.antt =====
-- The run of the tests, exported and read back.
use provable_ai.Engine.Signed.{record_decision-verify_proof_signature}
use provable_ai.Package.Signature.{verify_proof_signature}
use provable_ai.Storage.Approvals.{after_colon, versions, active_versions}
use provable_ai.Canonical.{
  validate_hash_payload, missing, canonical_hash, canonical_encode, has_unknown, is_valid_hash,
  present, genesis_hash, refused_value, keys, build_hash_payload, validate_payload, has_key,
}
use provable_ai.Text.Decimal.{decimal}
use provable_ai.Text.Hex.{is_int16, fromhex}
use provable_ai.Text.{lower, has_text}
use provable_ai.Engine.{
  hash_parts, sign_text, context_dump, decision_dump, determinism_dump, governance_dump,
  validate_context, validate_determinism, validate_governance, validate_ledger, validate_signature,
  append_ledger_entry, fromhex,
}
use provable_ai.Text.Hex.{hex}
use provable_ai.Base.{
  Option, none, some, ◌≡◌, ◌≢◌, refl, List, [], ◌∷◌, All, true, arith, ◌⊎◌, length, subst, ◌++◌,
}
use provable_ai.Base.Result.{ok, err}
use provable_ai.Text.{Text, codes, text_eq, text_leb}
use provable_ai.Json.{
  Value, Fields, obj, end, field, text_key, str, dumps, escape_all, sort_entries, join,
  insert_entry, entry_texts, int_text,
}
use provable_ai.Json.Sorted.{same}
use provable_ai.Json.Lookup.{lookup_field}
use provable_ai.Json.Utf8.{utf8}
use provable_ai.Crypto.{hexdigest}
use provable_ai.Crypto.Toy.{toy, toy_sha256}
use provable_ai.Signer.Toy.{toy_signer, signed_hex, all_bytes}
use provable_ai.Dict.{lookup}
use provable_ai.Schema.{
  ProofV1, Reader, proof_dump, validate_ledger, validate_decision, governance_dump,
  validate_context, validate_governance, is_blank_text, signature_dump, validate_determinism,
  validate_hash_field, validate_signature, decision_dump, pairs_dump, ends_with_z, context_dump,
  determinism_dump, ledger_dump, contributions_dump,
}
use provable_ai.Storage.{
  Row, Db, commit, chain_of, satisfies_constraints, append_ledger_entry, insert_row, row_of,
  has_hash, validate_chain_integrity, latest, has_sequence, has_instance, other_tenant,
  ensure_instance,
}
use provable_ai.Storage.Queries.{freeze_instance}
use provable_ai.Package.{verify_package, all_passed, CheckResult}
use provable_ai.Package.Offline.{verify_exported}
use provable_ai.Package.Offline.Stricter.{ZeroDigest}
use provable_ai.Engine.{
  default_tenant, record_decision, prepare, check_governance, has_text, versions, text_eq,
  active_versions, validate_payload, check_determinism, previous_link, build_proof, build_parts,
  validate_decision, hash_raw, build_hash_payload, canonical_hash, genesis_hash, is_valid_hash,
  calls_hash, hash_parts,
}
use provable_ai.Engine.Run.{record_all, dumps_of}
use provable_ai.Engine.Export.{Loads, export_proof, get_proof, get_chain}
use provable_ai.Engine.Archive.{Restored}
use provable_ai.Engine.Exported.{IsAvailable}
use provable_ai.Engine.Delivered.{AllRestored, record_all-export_proof}
use provable_ai.Text.{Bytes}
use provable_ai.Canonical.Encodable.{IsEncodable, canonical_encode_lem}
use provable_ai.Engine.ReadBack.{record_decision-get_proof}
use provable_ai.Engine.Lifecycle.{
  Lifecycle, compile, create_instance, compile-create_instance, already_exists,
}
use provable_ai.Engine.Tests.{
  approved, approved-IsValid, calls, loan, loan_proof, now, runs, entry_texts, escape_all,
  insert_entry, join, sort_entries, text_leb, after_colon, latest, canonical_encode, has_key,
  has_unknown, keys, missing, present, refused_value, validate_hash_payload, int_text,
  contributions_dump, ends_with_z, is_blank_text, ledger_dump, pairs_dump, signature_dump,
  validate_hash_field, ensure_instance, has_hash, has_instance, has_sequence, insert_row,
  other_tenant, row_of, satisfies_constraints, validate_chain_integrity, decimal,
}

abbrev loads : Loads
loads t = some (proof_dump loan_proof)

abbrev read : Reader
read v = some loan_proof

restored : (o : Option Text) → Restored loads o (proof_dump loan_proof)
restored none = tt
restored (some t) = (proof_dump loan_proof, refl, same (proof_dump loan_proof))

encoded : (b : Bytes) × (canonical_encode (proof_dump loan_proof) ≡ ok b)
unfolding record_all dumps_of record_decision prepare check_governance has_text versions text_eq
    active_versions after_colon validate_payload check_determinism previous_link latest chain_of
    build_proof build_parts validate_decision hash_raw build_hash_payload canonical_encode
    canonical_hash genesis_hash has_key has_unknown is_valid_hash keys missing present refused_value
    validate_hash_payload hexdigest calls_hash hash_parts sign_text utf8 dumps entry_texts
    escape_all insert_entry int_text join sort_entries context_dump contributions_dump decision_dump
    determinism_dump ends_with_z governance_dump is_blank_text ledger_dump pairs_dump proof_dump
    signature_dump validate_context validate_determinism validate_governance validate_hash_field
    validate_ledger validate_signature append_ledger_entry ensure_instance has_hash has_instance
    has_sequence insert_row other_tenant row_of satisfies_constraints validate_chain_integrity
    decimal fromhex hex is_int16 lower text_leb signed_hex all_bytes toy_sha256
encoded = (_, refl)

encodable : IsEncodable (proof_dump loan_proof)
encodable = (canonical_encode_lem (proof_dump loan_proof)).0 encoded

Restored-All : (ps : List ProofV1) → All (λ p. some loan_proof ≡ some p) ps → AllRestored loads ps
Restored-All [] h = tt
Restored-All (p ∷ ps) (e, h) =
    let same_proof : loan_proof ≡ p = ground (arith, e) in
    (
      subst (λ q. IsEncodable (proof_dump q) × Restored loads (dumps (proof_dump q)) (proof_dump q))
          same_proof (encodable, restored (dumps (proof_dump loan_proof))),
      Restored-All ps h,
    )

abbrev after : Db
after = (record_all toy_signer (commit approved) calls).0

recorded_runs :
    (length (chain_of default_tenant (codes "loan") after.tables.ledger) ≡ 1)
    × ((record_decision toy_signer now (commit approved) loan).1 ≡ ok loan_proof)
unfolding record_all dumps_of record_decision prepare check_governance has_text versions text_eq
    active_versions after_colon validate_payload check_determinism previous_link latest chain_of
    build_proof build_parts validate_decision hash_raw build_hash_payload canonical_encode
    canonical_hash genesis_hash has_key has_unknown is_valid_hash keys missing present refused_value
    validate_hash_payload hexdigest calls_hash hash_parts sign_text utf8 dumps entry_texts
    escape_all insert_entry int_text join sort_entries context_dump contributions_dump decision_dump
    determinism_dump ends_with_z governance_dump is_blank_text ledger_dump pairs_dump proof_dump
    signature_dump validate_context validate_determinism validate_governance validate_hash_field
    validate_ledger validate_signature append_ledger_entry ensure_instance has_hash has_instance
    has_sequence insert_row other_tenant row_of satisfies_constraints validate_chain_integrity
    decimal fromhex hex is_int16 lower text_leb signed_hex all_bytes toy_sha256
recorded_runs = (refl, refl)

some_rows : (rows : List Row) → length rows ≡ 1 → rows ≢ []
some_rows rows e empty = absurd (ground (arith, e, empty))

toy_signer-IsAvailable : IsAvailable toy_signer
unfolding signed_hex all_bytes toy_sha256
toy_signer-IsAvailable b = (hex (toy_sha256 b ++ toy_sha256 b), ground arith)

record_all-export_proof_example :
    (exported : Value) × (checks : List CheckResult) × (export_proof toy_signer loads
        (codes "loan")
        after
      ≡ (freeze_instance (codes "loan") default_tenant after, ok exported))
    × (verify_package toy exported ≡ some checks)
    × (all_passed checks ≡ true)
    × (((state : Value) × (verify_exported toy exported ≡ some (true, state))) ⊎ ZeroDigest toy)
record_all-export_proof_example =
    record_all-export_proof toy_signer loads (codes "loan") (commit approved) calls approved-IsValid
      tt (Restored-All (record_all toy_signer (commit approved) calls).1 runs.1)
      (some_rows (chain_of default_tenant (codes "loan") after.tables.ledger) recorded_runs.0)
      toy_signer-IsAvailable

record_decision-get_proof_example :
    (get_proof loads read
        (record_decision toy_signer now (commit approved) loan).0.tables
        loan.instance_id
        none
      ≡ ok (some loan_proof))
    × (get_proof loads read
          (record_decision toy_signer now (commit approved) loan).0.tables
          loan.instance_id
          (some loan_proof.ledger.sequence_id)
        ≡ ok (some loan_proof))
    × ((i : Text)
        → get_chain read (record_decision toy_signer now (commit approved) loan).0.tables i ≡ [])
record_decision-get_proof_example =
    record_decision-get_proof toy_signer loads read now (commit approved) loan loan_proof
      approved-IsValid recorded_runs.1 (restored (dumps (proof_dump loan_proof))) (λ w s. refl)

abbrev fresh : Lifecycle
fresh = record { protocols = []; instances = []; active = none }

abbrev spec_fields : Fields
spec_fields = field (text_key (codes "initial_state")) (str (codes "a")) end

abbrev spec_text : Text
spec_text = codes "{\"initial_state\":\"a\"}"

spec_runs :
    (dumps (obj spec_fields) ≡ some spec_text)
    × (lookup_field (codes "initial_state") spec_fields ≡ some (str (codes "a")))
unfolding dumps entry_texts escape_all insert_entry join sort_entries lookup_field text_eq text_leb
spec_runs = (refl, refl)

nothing_known : lookup (codes "loan") fresh.instances ≡ none
unfolding lookup
nothing_known = refl

compile-create_instance_example :
    let h = hexdigest toy (utf8 spec_text) in
    let compiled = compile toy fresh (commit approved) (obj spec_fields) in
    let created = create_instance compiled.0 compiled.1 (codes "loan") in
    let again = create_instance created.0 created.1 (codes "loan") in
    (compiled.2 ≡ ok h)
    × (created.2 ≡ ok (str (codes "a")))
    × (lookup (codes "loan") created.0.instances ≡ some (str (codes "a"), h))
    × (created.1.tables ≡ compiled.1.tables)
    × (again ≡ (created.0, created.1, err already_exists))
compile-create_instance_example =
    compile-create_instance toy fresh (commit approved) spec_fields spec_text (codes "loan")
      (str (codes "a")) spec_runs.0 spec_runs.1 nothing_known

record_decision-verify_proof_signature_example :
    verify_proof_signature toy (proof_dump loan_proof) none
    ≡ some (record { valid = true; hash_valid = true; sig_valid = true })
record_decision-verify_proof_signature_example =
    record_decision-verify_proof_signature toy_signer now (commit approved) loan loan_proof
      (proof_dump loan_proof) approved-IsValid recorded_runs.1 (same (proof_dump loan_proof))
