-- ===== src/Batch/Tests.antt =====
-- A batch of one proof.
use provable_ai.Canonical.{
  missing, canonical_hash, present, validate_hash_payload, refused_value, has_key, canonical_encode,
  validate_payload, keys, build_hash_payload, has_unknown, genesis_hash,
}
use provable_ai.Schema.{
  contributions_dump, ledger_dump, signature_dump, governance_dump, pairs_dump, decision_dump,
  to_hash_payload, context_dump, determinism_dump,
}
use provable_ai.Text.{has_text, text_leb, text_eq}
use provable_ai.Verifier.{recompute_hash}
use provable_ai.Json.{entry_texts, insert_entry, sort_entries, escape_all, join, int_text}
use provable_ai.Text.Decimal.{decimal}
use provable_ai.Json.Utf8.{utf8, has_surrogate}
use provable_ai.Json.Encode.{is_long}
use provable_ai.Canonical.Encodable.{IsEncodable}
use provable_ai.Crypto.{hexdigest}
use provable_ai.Base.{Option, none, some, ◌≡◌, ◌≢◌, refl, List, [], ◌∷◌, All, length, arith, ◌++◌}
use provable_ai.Base.Result.{ok}
use provable_ai.Text.{Text, codes}
use provable_ai.Json.{Value, dumps}
use provable_ai.Json.Sorted.{same}
use provable_ai.Crypto.Toy.{toy, toy_sha256}
use provable_ai.Signer.Toy.{toy_signer, signed_hex, all_bytes}
use provable_ai.Text.Hex.{hex}
use provable_ai.Schema.{proof_dump}
use provable_ai.Schema.Sample.{first_proof}
use provable_ai.Storage.{Row, Tables, row_of}
use provable_ai.Engine.{dict_of}
use provable_ai.Engine.Export.{Loads}
use provable_ai.Engine.Archive.{IsArchived, row-IsArchived, Restored}
use provable_ai.Engine.Exported.{IsAvailable}
use provable_ai.Batch.{BatchRequest, BatchExport, select_rows, build_batch_export}
use provable_ai.Batch.Delivered.{IsDelivered, build_batch_export-IsDelivered}

abbrev text_in : Option Text → Text
text_in none = []
text_in (some t) = t

abbrev row : Row
row = row_of (dict_of first_proof) (codes "{}") (text_in (dumps (proof_dump first_proof)))

abbrev tables : Tables
tables = record {
  ledger = row ∷ [];
  instances = [];
  approved_models = [];
  approved_agents = [];
  approved_policies = [];
  protocols = [];
}

abbrev loads : Loads
loads t = some (proof_dump first_proof)

abbrev whole : BatchRequest
whole = record {
  tenant_id = codes "default";
  from_date = none;
  to_date = some (codes "2026-01-01T00:00:00Z");
  exported_at = codes "2026-01-02T00:00:00Z";
}

first_hash : recompute_hash toy first_proof ≡ ok first_proof.ledger.current_hash
unfolding recompute_hash to_hash_payload build_hash_payload canonical_encode canonical_hash
    genesis_hash has_key has_unknown has_text keys missing present refused_value
    validate_hash_payload validate_payload hexdigest utf8 dumps entry_texts escape_all insert_entry
    int_text join sort_entries context_dump contributions_dump decision_dump determinism_dump
    governance_dump pairs_dump text_eq decimal hex text_leb toy_sha256
first_hash = refl

first_row :
    (row.current_hash ≡ first_proof.ledger.current_hash)
    × (row.previous_hash ≡ first_proof.ledger.previous_hash)
    × (dumps (proof_dump first_proof) ≡ some row.proof_json)
    × (length (select_rows whole.tenant_id whole.from_date whole.to_date tables.ledger) ≡ 1)
unfolding row_of select_rows text_eq text_leb utf8 dumps entry_texts escape_all insert_entry
    int_text join sort_entries context_dump contributions_dump decision_dump determinism_dump
    governance_dump ledger_dump pairs_dump proof_dump signature_dump decimal genesis_hash
first_row = (refl, refl, refl, refl)

encodable : IsEncodable (proof_dump first_proof)
unfolding has_surrogate is_long decimal context_dump contributions_dump decision_dump
    determinism_dump governance_dump ledger_dump pairs_dump proof_dump signature_dump genesis_hash
encodable = ground arith

restored : (o : Option Text) → Restored loads o (proof_dump first_proof)
restored none = tt
restored (some t) = (proof_dump first_proof, refl, same (proof_dump first_proof))

archived : All (IsArchived toy loads) tables.ledger
archived = (
  row-IsArchived toy loads row first_proof first_hash first_row.0 first_row.1 first_row.2 encodable
      (restored (dumps (proof_dump first_proof))),
  tt,
)

toy_signer-IsAvailable : IsAvailable toy_signer
unfolding signed_hex all_bytes toy_sha256
toy_signer-IsAvailable b = (hex (toy_sha256 b ++ toy_sha256 b), ground arith)

some_rows : (rows : List Row) → length rows ≡ 1 → rows ≢ []
some_rows rows e empty = absurd (ground (arith, e, empty))

-- Nothing that is formatted here is a list, a dict or a float.
abbrev no_repr : Value → Text
no_repr v = []

build_batch_export-IsDelivered_example :
    (delivered : BatchExport) × (build_batch_export toy_signer no_repr loads tables whole
      ≡ some delivered)
    × IsDelivered toy no_repr
        (length (select_rows whole.tenant_id whole.from_date whole.to_date tables.ledger))
        delivered
build_batch_export-IsDelivered_example =
    build_batch_export-IsDelivered toy_signer no_repr loads tables whole archived
      (some_rows (select_rows whole.tenant_id whole.from_date whole.to_date tables.ledger)
        first_row.3)
      toy_signer-IsAvailable
