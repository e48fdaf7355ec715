-- ===== src/Batch.antt =====
-- provable_ai/audit_batch.py: build_batch_export and verify_batch_signature; verify/verify_batch.py:
-- verify_batch.
pub mod Verify
pub mod Ids
pub mod Digest
pub mod Rows
pub mod Delivered
mod Tests
use provable_ai.Base.{
  ℕ, Option, none, some, Bool, true, false, ◌&&◌, List, [], ◌∷◌, ◌++◌, if◌then◌else◌, leb,
}
use provable_ai.Base.Int.{pos}
use provable_ai.Base.Optional.{◌>>=◌}
use provable_ai.Text.{Text, codes, text_eq, text_leb}
use provable_ai.Text.Hex.{fromhex}
use provable_ai.Json.{
  Value, Items, Fields, null, bool, int, str, arr, obj, nil, cons, end, field, text_key, int_text,
}
use provable_ai.Json.Utf8.{utf8}
use provable_ai.Json.Lookup.{get, lookup_field}
use provable_ai.Json.Spaced.{spaced, ascii_text}
use provable_ai.Crypto.{Crypto, hexdigest}
use provable_ai.Schema.{opt_str}
use provable_ai.Storage.{Row, Tables}
use provable_ai.Signer.{Signer}
use provable_ai.Merkle.{merkle_root}
use provable_ai.Package.{truthy, as_text}
use provable_ai.Engine.Export.{Loads, item_count}

-- f"{v}"; `repr` is what Python writes for a list, a dict or a float.
abbrev pub formatted : (Value → Text) → Value → Text
formatted repr null = codes "None"
formatted repr (bool true) = codes "True"
formatted repr (bool false) = codes "False"
formatted repr (int n) = int_text n
formatted repr (str s) = s
formatted repr v = repr v

-- v[k]; `none` is a KeyError or a TypeError
abbrev pub item : Text → Value → Option Value
item k (obj fs) = lookup_field k fs
item k _ = none

-- current_hash and sequence_id of proof["ledger"]
abbrev pub ledger_fields : Value → Option (Value × Value)
ledger_fields proof = do
  ledger ← item (codes "ledger") proof
  current_hash ← item (codes "current_hash") ledger
  sequence_id ← item (codes "sequence_id") ledger
  some (current_hash, sequence_id)

abbrev pub hash_of : Crypto → Option Text → Option Text
hash_of c none = none
hash_of c (some t) = some (hexdigest c (utf8 t))

-- _derive_proof_id
abbrev pub derive_from : Crypto → (Value → Text) → Value → Option (Value × Value) → Option Text
derive_from c repr proof (some (current_hash, sequence_id)) =
    some (hexdigest c (utf8 (formatted repr current_hash ++ 58 ∷ formatted repr sequence_id)))
derive_from c repr proof none = hash_of c (ascii_text (spaced proof))

unfoldable pub derive_proof_id : Crypto → (Value → Text) → Value → Option Text
derive_proof_id c repr proof = derive_from c repr proof (ledger_fields proof)

-- p.get("proof_id") or _derive_proof_id(p); an id that is no text makes the tree raise
unfoldable pub proof_id_of : Crypto → (Value → Text) → Value → Option Text
proof_id_of c repr p = do
  id ← get (codes "proof_id") null p
  if truthy id then as_text id else derive_proof_id c repr p

unfoldable pub proof_ids_of : Crypto → (Value → Text) → Items → Option (List Text)
proof_ids_of c repr nil = some []
proof_ids_of c repr (cons p ps) = do
  id ← proof_id_of c repr p
  ids ← proof_ids_of c repr ps
  some (id ∷ ids)

-- timestamp >= from_date, where a date is given, and timestamp <= to_date
abbrev pub not_before : Option Text → Text → Bool
not_before none timestamp = true
not_before (some []) timestamp = true
not_before (some (a ∷ d)) timestamp = text_leb (a ∷ d) timestamp

abbrev pub not_after : Option Text → Text → Bool
not_after none timestamp = true
not_after (some []) timestamp = true
not_after (some (a ∷ d)) timestamp = text_leb timestamp (a ∷ d)

abbrev pub is_selected : Text → Option Text → Option Text → Row → Bool
is_selected tenant from_date to_date r =
    text_eq r.tenant_id tenant
    && (not_before from_date r.timestamp && not_after to_date r.timestamp)

unfoldable pub select_rows : Text → Option Text → Option Text → List Row → List Row
select_rows tenant from_date to_date [] = []
select_rows tenant from_date to_date (r ∷ rs) =
    let rest = select_rows tenant from_date to_date rs in
    if is_selected tenant from_date to_date r then r ∷ rest else rest

-- ORDER BY instance_id, sequence_id
abbrev pub row_leb : Row → Row → Bool
row_leb r s =
    if text_eq r.instance_id s.instance_id
    then leb r.sequence_id s.sequence_id
    else text_leb r.instance_id s.instance_id

unfoldable pub insert_ordered : Row → List Row → List Row
insert_ordered r [] = r ∷ []
insert_ordered r (s ∷ rs) = if row_leb r s then r ∷ s ∷ rs else s ∷ insert_ordered r rs

unfoldable pub order_rows : List Row → List Row
order_rows [] = []
order_rows (r ∷ rs) = insert_ordered r (order_rows rs)

abbrev pub add_loaded : Option Value → Items → Items
add_loaded none vs = vs
add_loaded (some v) vs = cons v vs

-- The loop that passes over rows whose JSON does not load.
unfoldable pub load_rows : Loads → List Row → Items
load_rows loads [] = nil
load_rows loads (r ∷ rs) = add_loaded (loads r.proof_json) (load_rows loads rs)

-- _fetch_proofs
unfoldable pub fetch_proofs : Loads → Tables → Text → Option Text → Option Text → Items
fetch_proofs loads db tenant from_date to_date =
    load_rows loads (order_rows (select_rows tenant from_date to_date db.ledger))

-- The arguments of build_batch_export, and the time.
pub record BatchRequest : Type 0 where
  pub tenant_id : Text
  pub from_date : Option Text
  pub to_date : Option Text
  pub exported_at : Text

pub record BatchExport : Type 0 where
  pub batch_dict : Value
  pub merkle_root : Text
  pub proof_count : ℕ
  pub exported_at : Text

abbrev text_field : Text → Text → Fields → Fields
text_field k t fs = field (text_key k) (str t) fs

abbrev pub merkle_sig : {c : Crypto} → Signer c → BatchRequest → Text → Value
merkle_sig s r sig_hex = obj (
    text_field (codes "value") sig_hex (
      text_field (codes "public_key") s.public_key (
        text_field (codes "key_id") s.key_id (
          text_field (codes "algorithm") (codes "Ed25519")
            (text_field (codes "signed_at") r.exported_at end)))))

abbrev pub verification_info : {c : Crypto} → Signer c → Value
verification_info s = obj (
    text_field (codes "algorithm") (codes "Ed25519") (
      text_field (codes "public_key") s.public_key (
        text_field (codes "key_id") s.key_id (
          text_field (codes "instructions")
            (codes
              "Verify: recompute Merkle root from proof_ids, verify Ed25519 signature over root bytes using public_key.")
            end))))

abbrev pub batch_value : {c : Crypto} → Signer c → BatchRequest → Items → Text → Text → Value
batch_value s r proofs root sig_hex = obj (
    text_field (codes "type") (codes "zorynex-batch-v1") (
      text_field (codes "tenant_id") r.tenant_id (
        field (text_key (codes "from_date")) (opt_str r.from_date) (
          field (text_key (codes "to_date")) (opt_str r.to_date) (
            text_field (codes "exported_at") r.exported_at (
              field (text_key (codes "proof_count")) (int (pos (item_count proofs))) (
                text_field (codes "merkle_root") root (
                  field (text_key (codes "merkle_signature")) (merkle_sig s r sig_hex) (
                    field (text_key (codes "verification_info")) (verification_info s)
                      (field (text_key (codes "proofs")) (arr proofs) end))))))))))

-- build_batch_export after the proofs were fetched; `none` is an exception
unfoldable pub export_batch :
    {c : Crypto} → Signer c → (Value → Text) → BatchRequest → Items → Option BatchExport
export_batch {c} s repr r proofs = do
  proof_ids ← proof_ids_of c repr proofs
  root ← merkle_root c proof_ids
  root_bytes ← fromhex root
  sig_hex ← s.sign_hash root_bytes
  some (record {
    batch_dict = batch_value s r proofs root sig_hex;
    merkle_root = root;
    proof_count = item_count proofs;
    exported_at = r.exported_at;
  })

unfoldable pub build_batch_export :
    {c : Crypto} → Signer c → (Value → Text) → Loads → Tables → BatchRequest → Option BatchExport
build_batch_export s repr loads db r =
    export_batch s repr r (fetch_proofs loads db r.tenant_id r.from_date r.to_date)
