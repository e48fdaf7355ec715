-- ===== src/KeyRegistry.antt =====
-- provable_ai/audit_keyregistry.py: the signing keys of each tenant, in rows that are only appended
-- and are chained by hashes.
pub mod Rows
pub mod Chain
pub mod Kept
pub mod Rotation
pub mod Startup
pub mod Validity
mod Tests
use provable_ai.Json.Utf8.{utf8}
use provable_ai.Text.Hex.{fromhex}
use provable_ai.Base.{
  List, Option, Bool, false, ◌&&◌, ◌∷◌, some, true, none, not, [], if◌then◌else◌, ◌++◌, ◌||◌,
}
use provable_ai.Text.{codes, Text, text_eq, text_leb, is_empty}
use provable_ai.Base.Result.{Result, ok, err, ◌>>=◌}
use provable_ai.Json.{Value, obj, field, text_key, end, bool}
use provable_ai.Json.Ascii.{dumps_ascii}
use provable_ai.Schema.{str_field, opt_str}
use provable_ai.Crypto.{Crypto, hexdigest}
use provable_ai.AuditLog.{hash_pair}
use provable_ai.Canonical.{genesis_hash}

pub data Status : Type 0 where
  active : Status
  retired : Status

abbrev status_text : Status → Text
status_text active = codes "active"
status_text retired = codes "retired"

-- The columns of key_registry that the hashes cover.
pub record Key : Type 0 where
  pub key_id : Text
  pub tenant_id : Text
  pub public_key : Text
  pub algorithm : Text
  pub source : Text
  pub status : Status
  pub registered_at : Text
  pub retired_at : Option Text
  pub superseded_by : Option Text
  pub notes : Option Text

-- A row of key_registry, and a KeyRecord; the rows are kept in the order of their ids.
pub record KeyRow : Type 0 where
  pub key : Key
  pub row_hash : Text
  pub chain_hash : Text

pub data RegistryError : Type 0 where
  -- ValueError of register_key, with the key that is active
  has_active : Text → RegistryError
  -- TypeError of json.dumps
  not_json : RegistryError
  -- ValueError of bytes.fromhex
  not_hex : RegistryError

-- The dict that `_row_hash` writes out.
unfoldable pub key_content : Key → Value
key_content k = obj (
    str_field (codes "key_id") k.key_id (
      str_field (codes "tenant_id") k.tenant_id (
        str_field (codes "public_key") k.public_key (
          str_field (codes "algorithm") k.algorithm (
            str_field (codes "source") k.source (
              str_field (codes "status") (status_text k.status) (
                str_field (codes "registered_at") k.registered_at (
                  field (text_key (codes "retired_at")) (opt_str k.retired_at) (
                    field (text_key (codes "superseded_by")) (opt_str k.superseded_by)
                      (field (text_key (codes "notes")) (opt_str k.notes) end))))))))))

abbrev or_error {ℓ} : {A : Type ℓ} → RegistryError → Option A → Result RegistryError A
or_error e none = err e
or_error e (some a) = ok a

abbrev hash_ascii : Crypto → Option Text → Option Text
hash_ascii c none = none
hash_ascii c (some t) = some (hexdigest c (utf8 t))

-- _row_hash
unfoldable pub key_hash : Crypto → Key → Option Text
key_hash c k = hash_ascii c (dumps_ascii (key_content k))

-- WHERE tenant_id=? ORDER BY id ASC
unfoldable pub keys_of : Text → List KeyRow → List KeyRow
keys_of t [] = []
keys_of t (r ∷ rs) = let rest = keys_of t rs in if text_eq r.key.tenant_id t then r ∷ rest else rest

unfoldable pub last_chain_hash : Text → List KeyRow → Text
last_chain_hash prev [] = prev
last_chain_hash prev (r ∷ rs) = last_chain_hash r.chain_hash rs

-- _prev_chain_hash
abbrev pub prev_chain_hash : Text → List KeyRow → Text
prev_chain_hash t rows = last_chain_hash genesis_hash (keys_of t rows)

-- _insert_row
unfoldable pub insert_key : Crypto → List KeyRow → Key → Result RegistryError (List KeyRow × KeyRow)
insert_key c rows k = do
  rh ← or_error not_json (key_hash c k)
  ch ← or_error not_hex (hash_pair c (fromhex (prev_chain_hash k.tenant_id rows)) (fromhex rh))
  let row : KeyRow = record { key = k; row_hash = rh; chain_hash = ch } in
      ok (rows ++ row ∷ [], row)

-- ORDER BY id DESC LIMIT 1
unfoldable pub last_where : (KeyRow → Bool) → List KeyRow → Option KeyRow
last_where p [] = none
last_where p (r ∷ rs) = elim (last_where p rs) [
  | some s ↦ some s
  | none ↦ if p r then some r else none
]

-- ORDER BY id ASC LIMIT 1
unfoldable pub first_where : (KeyRow → Bool) → List KeyRow → Option KeyRow
first_where p [] = none
first_where p (r ∷ rs) = let rest = first_where p rs in if p r then some r else rest

abbrev pub has_status : Status → Status → Bool
has_status active active = true
has_status retired retired = true
has_status _ _ = false

-- tenant_id=? AND status=?
abbrev pub of_tenant : Text → Status → KeyRow → Bool
of_tenant t s r = text_eq r.key.tenant_id t && has_status s r.key.status

-- key_id=? AND tenant_id=? AND status=?
abbrev pub of_key : Text → Text → Status → KeyRow → Bool
of_key k t s r = text_eq r.key.key_id k && of_tenant t s r

-- get_active
unfoldable pub get_active : List KeyRow → Text → Option KeyRow
get_active rows t = last_where (of_tenant t active) rows

-- The arguments of the calls that register a key.
pub record NewKey : Type 0 where
  pub key_id : Text
  pub public_key : Text
  pub tenant_id : Text
  pub algorithm : Text
  pub source : Text
  pub notes : Option Text

-- The active row of a new key.
abbrev pub active_row : Text → NewKey → Key
active_row now k = record {
  key_id = k.key_id;
  tenant_id = k.tenant_id;
  public_key = k.public_key;
  algorithm = k.algorithm;
  source = k.source;
  status = active;
  registered_at = now;
  retired_at = none;
  superseded_by = none;
  notes = k.notes;
}

-- The retirement row of a key that the key `by` supersedes.
abbrev pub retirement : Text → Text → Text → Option Text → KeyRow → Key
retirement now t by notes old = record {
  key_id = old.key.key_id;
  tenant_id = t;
  public_key = old.key.public_key;
  algorithm = old.key.algorithm;
  source = old.key.source;
  status = retired;
  registered_at = old.key.registered_at;
  retired_at = some now;
  superseded_by = some by;
  notes = notes;
}

-- register_key
unfoldable pub register_key :
    Crypto → Text → List KeyRow → NewKey → Result RegistryError (List KeyRow × KeyRow)
register_key c now rows k = elim (last_where (of_key k.key_id k.tenant_id active) rows) [
  | some existing ↦ ok (rows, existing)
  | none ↦ elim (get_active rows k.tenant_id) [
    | some other ↦ err (has_active other.key.key_id)
    | none ↦ insert_key c rows (active_row now k)
  ]
]

-- The retirement row, where there is a key to retire.
abbrev pub retire :
    Crypto
    → Text
    → List KeyRow
    → NewKey
    → Option Text
    → Option KeyRow
    → Result RegistryError (List KeyRow × Option KeyRow)
retire c now rows k notes none = ok (rows, none)
retire c now rows k notes (some old) = do
  done ← insert_key c rows (retirement now k.tenant_id k.key_id notes old)
  ok (done.0, some done.1)

-- rotate_key. An exception in the second insert would leave the retirement row; it has none, since
-- the first insert left a hash.
unfoldable pub rotate_key :
    Crypto
    → Text
    → List KeyRow
    → NewKey
    → Result RegistryError (List KeyRow × KeyRow × Option KeyRow)
rotate_key c now rows k = do
  old ← retire c now rows k k.notes (get_active rows k.tenant_id)
  new ← insert_key c old.0 (active_row now k)
  ok (new.0, new.1, old.1)

abbrev pub startup_notes : Option Text
startup_notes = some (codes "Auto-retired during startup key registration")

-- The key that register_or_update retires: an active one that is not the new key.
abbrev pub other_than : Text → Option KeyRow → Option KeyRow
other_than k none = none
other_than k (some r) = if text_eq r.key.key_id k then none else some r

-- register_or_update, which takes no notes
unfoldable pub register_or_update :
    Crypto → Text → List KeyRow → NewKey → Result RegistryError (List KeyRow × KeyRow)
register_or_update c now rows k = elim (last_where (of_key k.key_id k.tenant_id active) rows) [
  | some existing ↦ ok (rows, existing)
  | none ↦ do
    old ← retire c now rows k startup_notes (other_than k.key_id (get_active rows k.tenant_id))
    insert_key c old.0 (active_row now (record k { notes = none }))
]

-- retired_at is set, not empty, and at or before the time
abbrev pub retired_by : Text → Option KeyRow → Bool
retired_by at none = false
retired_by at (some r) = elim r.key.retired_at [
  | none ↦ false
  | some t ↦ not (is_empty t) && text_leb t at
]

abbrev pub registered_by : Text → Option KeyRow → Bool
registered_by at none = false
registered_by at (some r) = text_leb r.key.registered_at at

-- was_active_at
unfoldable pub was_active_at : List KeyRow → Text → Text → Text → Bool
was_active_at rows k t at =
    registered_by at (first_where (of_key k t active) rows)
    && not (retired_by at (first_where (of_key k t retired) rows))

-- The loop of `verify_chain`: whether it finds no fault; `none` is an exception.
unfoldable pub walk_keys : Crypto → Text → List KeyRow → Option Bool
walk_keys c prev [] = some true
walk_keys c prev (r ∷ rs) =
    let rest = walk_keys c r.chain_hash rs in
    elim (key_hash c r.key) [
      | none ↦ none
      | some expected_rh ↦ elim (hash_pair c (fromhex prev) (fromhex expected_rh)) [
        | none ↦ none
        | some expected_ch ↦
            if not (text_eq r.row_hash expected_rh) || not (text_eq r.chain_hash expected_ch)
            then some false
            else rest
      ]
    ]

-- verify_chain, its "valid"
unfoldable pub verify_registry : Crypto → Text → List KeyRow → Option Bool
verify_registry c t rows = walk_keys c genesis_hash (keys_of t rows)
