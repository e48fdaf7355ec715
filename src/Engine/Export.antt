-- ===== src/Engine/Export.antt =====
-- provable_ai/engine.py: reading proofs back, export_proof, and the protocols and instances that the
-- engine keeps in memory.
use provable_ai.Base.{
  ℕ, Option, none, some, Bool, true, false, not, ◌&&◌, List, [], ◌∷◌, ◌++◌, if◌then◌else◌, suc,
}
use provable_ai.Base.Int.{pos}
use provable_ai.Base.Result.{Result, ok, err, ◌>>=◌}
use provable_ai.Text.{Text, Bytes, codes, text_eq, is_empty}
use provable_ai.Text.Hex.{fromhex}
use provable_ai.Text.Decimal.{decimal}
use provable_ai.Json.{
  Value, Items, Fields, bool, int, str, obj, arr, nil, cons, end, field, text_key,
}
use provable_ai.Json.Utf8.{utf8}
use provable_ai.Crypto.{Crypto, hexdigest}
use provable_ai.Schema.{ProofV1, Reader, model_validate}
use provable_ai.Storage.{Row, Tables, Db}
use provable_ai.Storage.Queries.{get_ledger_chain, get_ledger_entry, freeze_instance}
use provable_ai.Signer.{Signer}
use provable_ai.Package.{compute_instance_root, compute_package_hash, package_type}
use provable_ai.Engine.{default_tenant}

-- json.loads; `none` is a JSONDecodeError
abbrev pub Loads : Type 0
Loads = Text → Option Value

-- pj and pj != "{}"
abbrev pub is_stored : Text → Bool
is_stored pj = not (is_empty pj) && not (text_eq pj (codes "{}"))

-- entry.get("proof"), of an entry of get_ledger_entry
abbrev pub entry_proof : Loads → Row → Option Value
entry_proof loads r = if is_stored r.proof_json then loads r.proof_json else none

-- entry.get("proof"), of an entry of get_ledger_chain: the table has no such column
abbrev pub chain_proof : Row → Option Value
chain_proof r = none

pub data ReadError : Type 0 where
  -- ValidationError
  not_valid : ReadError

abbrev pub or_invalid : Option ProofV1 → Result ReadError (Option ProofV1)
or_invalid none = err not_valid
or_invalid (some p) = ok (some p)

-- The proof in an entry, if there is a dict that is not empty.
abbrev pub read_proof : Reader → Option Value → Result ReadError (Option ProofV1)
read_proof read (some (obj (field k v fs))) = or_invalid (model_validate read (obj (field k v fs)))
read_proof read _ = ok none

abbrev pub read_entry : Loads → Reader → Option Row → Result ReadError (Option ProofV1)
read_entry loads read none = ok none
read_entry loads read (some r) = read_proof read (entry_proof loads r)

unfoldable pub get_proof :
    Loads → Reader → Tables → Text → Option ℕ → Result ReadError (Option ProofV1)
get_proof loads read db i n = read_entry loads read (get_ledger_entry db i n default_tenant)

-- One round of the loop of `get_chain`, which passes over what is not valid.
abbrev add_read : Result ReadError (Option ProofV1) → List ProofV1 → List ProofV1
add_read (ok (some p)) ps = p ∷ ps
add_read (ok none) ps = ps
add_read (err e) ps = ps

unfoldable pub read_rows : Reader → List Row → List ProofV1
read_rows read [] = []
read_rows read (r ∷ rs) = add_read (read_proof read (chain_proof r)) (read_rows read rs)

unfoldable pub get_chain : Reader → Tables → Text → List ProofV1
get_chain read db i = read_rows read (get_ledger_chain db i default_tenant)

pub data ExportError : Type 0 where
  -- JSONDecodeError
  bad_json : ExportError
  -- AttributeError or TypeError of an entry
  bad_entry : ExportError
  not_hex : ExportError
  not_signed : ExportError
  -- what json.dumps and encode raise
  not_json : ExportError

abbrev pub or_fail {ℓ} : {A : Type ℓ} → ExportError → Option A → Result ExportError A
or_fail e none = err e
or_fail e (some a) = ok a

-- The loop over the chain that loads each stored proof.
unfoldable pub load_proofs : Loads → List Row → Option Items
load_proofs loads [] = some nil
load_proofs loads (r ∷ rs) = elim (load_proofs loads rs) [
  | none ↦ none
  | some vs ↦ elim (is_stored r.proof_json) [
    | false ↦ some vs
    | true ↦ elim (loads r.proof_json) [ none ↦ none | some v ↦ some (cons v vs) ]
  ]
]

-- _compute_instance_root
unfoldable pub root_of_chain : Crypto → Loads → Tables → Text → Result ExportError Text
root_of_chain c loads db i = do
  entries ← or_fail bad_json (load_proofs loads (get_ledger_chain db i default_tenant))
  or_fail bad_entry (compute_instance_root c entries)

abbrev sign_message : {c : Crypto} → Signer c → Option Bytes → Result ExportError Text
sign_message s none = err not_hex
sign_message s (some m) = or_fail not_signed (s.sign_hash m)

-- What export_proof has before it freezes the instance: proof_dicts, instance_root and sig_hex.
pub record SignedRoot : Type 0 where
  pub proof_dicts : Items
  pub instance_root : Text
  pub sig_hex : Text

unfoldable pub sign_chain :
    {c : Crypto} → Signer c → Loads → Tables → Text → Result ExportError SignedRoot
sign_chain {c} s loads db i = do
  proof_dicts ← or_fail bad_json (load_proofs loads (get_ledger_chain db i default_tenant))
  instance_root ← root_of_chain c loads db i
  sig_hex ← sign_message s (fromhex instance_root)
  ok (record { proof_dicts = proof_dicts; instance_root = instance_root; sig_hex = sig_hex })

-- len(items)
abbrev pub item_count : Items → ℕ
item_count nil = 0
item_count (cons v xs) = suc (item_count xs)

abbrev pub fingerprint : Crypto → Text → ℕ → Text
fingerprint c instance_root chain_len = hexdigest c (utf8 (instance_root ++ 58 ∷ decimal chain_len))

abbrev text_field : Text → Text → Fields → Fields
text_field k t fs = field (text_key k) (str t) fs

-- The package.
abbrev pub package_value : {c : Crypto} → Signer c → Text → SignedRoot → Text → Value
package_value {c} s i root package_hash =
    let chain_len = item_count root.proof_dicts in
    obj (
      field (text_key (codes "valid")) (bool true) (
        text_field (codes "type") package_type (
          text_field (codes "public_key") s.public_key (
            text_field (codes "signature") root.sig_hex (
              text_field (codes "package_hash") package_hash (
                text_field (codes "proof_fingerprint") (fingerprint c root.instance_root chain_len)
                  (field (text_key (codes "chain_length")) (int (pos chain_len)) (
                    field (text_key (codes "proof"))
                      (obj (
                        text_field (codes "instance_id") i (
                          text_field (codes "instance_root") root.instance_root
                            (field (text_key (codes "ledger")) (arr root.proof_dicts) end))))
                      end))))))))

unfoldable pub package_of : {c : Crypto} → Signer c → Text → SignedRoot → Result ExportError Value
package_of {c} s i root = do
  package_hash ← or_fail not_json (compute_package_hash c root.proof_dicts)
  ok (package_value s i root package_hash)

-- The rest of `export_proof`: the instance is frozen once the root is signed.
abbrev pub finish_export :
    {c : Crypto}
    → Signer c
    → Text
    → Db
    → Result ExportError SignedRoot
    → Db × Result ExportError Value
finish_export s i db (err e) = (db, err e)
finish_export s i db (ok root) = (freeze_instance i default_tenant db, package_of s i root)

unfoldable pub export_proof :
    {c : Crypto} → Signer c → Loads → Text → Db → Db × Result ExportError Value
export_proof s loads i db = finish_export s i db (sign_chain s loads db.tables i)
