-- ===== src/AuditLog.antt =====
-- provable_ai/audit_log.py: the log of verifications, chained by hashes per tenant.
pub mod Chain
pub mod Storable
pub mod Record
pub mod Tamper
pub mod Leaf
mod Tests
use provable_ai.Schema.{str_field, opt_str}
use provable_ai.Json.Encode.{dump_bytes, encode}
use provable_ai.Text.Hex.{fromhex}
use provable_ai.Base.Int.{ℤ, pos, negsuc}
use provable_ai.Canonical.{genesis_hash}
use provable_ai.Json.{Value, int_text, null, obj, int, field, text_key, end}
use provable_ai.Base.{
  Bool, Option, ℕ, List, ◌++◌, ◌+◌, some, [], ◌∷◌, false, length, if◌then◌else◌, true, none, not,
  ltb, ◌==◌, ◌&&◌, ◌||◌,
}
use provable_ai.Crypto.{Crypto, hexdigest, hash_bytes}
use Prim.Native.Nat.{ℕ}
use provable_ai.Text.{Text, Bytes, text_eq, codes}
use provable_ai.Base.Optional.{◌>>=◌}

-- VerificationAuditEntry, before the fields of the chain are set.
pub record Event : Type 0 where
  pub tenant_id : Text
  pub trace_id : Text
  pub instance_id : Option Text
  pub sequence_id : Option ℤ
  pub proof_id : Option Text
  pub verified_at : Text
  pub result : Text
  pub failure_code : Option Text
  pub failure_msg : Option Text
  pub key_id : Option Text
  pub governance_json : Option Text
  pub recorded_at : Text

-- A row of verification_audit.
pub record AuditRow : Type 0 where
  pub id : ℕ
  pub event : Event
  pub sequence_num : ℕ
  pub row_hash : Text
  pub prev_chain_hash : Text
  pub chain_hash : Text

abbrev opt_int : Option ℤ → Value
opt_int none = null
opt_int (some n) = int n

-- The dict that `_compute_row_hash` writes out.
unfoldable pub content : Event → ℕ → Value
content e sequence_num = obj (
    str_field (codes "tenant_id") e.tenant_id (
      str_field (codes "trace_id") e.trace_id (
        field (text_key (codes "instance_id")) (opt_str e.instance_id) (
          field (text_key (codes "sequence_id")) (opt_int e.sequence_id) (
            field (text_key (codes "sequence_num")) (int (pos sequence_num)) (
              field (text_key (codes "proof_id")) (opt_str e.proof_id) (
                str_field (codes "verified_at") e.verified_at (
                  str_field (codes "result") e.result (
                    field (text_key (codes "failure_code")) (opt_str e.failure_code) (
                      field (text_key (codes "failure_msg")) (opt_str e.failure_msg) (
                        field (text_key (codes "key_id")) (opt_str e.key_id) (
                          field (text_key (codes "governance_json")) (opt_str e.governance_json)
                            (str_field (codes "recorded_at") e.recorded_at end)))))))))))))

-- `_compute_row_hash`; `none` is an exception of json.dumps or encode.
unfoldable pub compute_row_hash : Crypto → Event → ℕ → Option Text
compute_row_hash c e n = hash_bytes c (dump_bytes (content e n))

abbrev pub hash_pair : Crypto → Option Bytes → Option Bytes → Option Text
hash_pair c (some a) (some b) = some (hexdigest c (a ++ b))
hash_pair c _ _ = none

-- `_compute_chain_hash`; `none` is a ValueError of bytes.fromhex
unfoldable pub compute_chain_hash : Crypto → Text → Text → Option Text
compute_chain_hash c prev row_hash = hash_pair c (fromhex prev) (fromhex row_hash)

-- WHERE tenant_id=? ORDER BY id ASC; the rows are kept in the order of their ids.
unfoldable pub rows_of : Text → List AuditRow → List AuditRow
rows_of t [] = []
rows_of t (r ∷ rs) =
    let rest = rows_of t rs in if text_eq r.event.tenant_id t then r ∷ rest else rest

-- The chain_hash of the last row, or the hash before the first.
unfoldable pub latest_hash : Text → List AuditRow → Text
latest_hash prev [] = prev
latest_hash prev (r ∷ rs) = latest_hash r.chain_hash rs

-- get_latest_chain_hash
abbrev pub get_latest_chain_hash : Text → List AuditRow → Text
get_latest_chain_hash t rows = latest_hash genesis_hash (rows_of t rows)

-- COALESCE(MAX(sequence_num), 0)
unfoldable pub max_sequence : List AuditRow → ℕ
max_sequence [] = 0
max_sequence (r ∷ rs) =
    let rest = max_sequence rs in if ltb rest r.sequence_num then r.sequence_num else rest

unfoldable pub max_id : List AuditRow → ℕ
max_id [] = 0
max_id (r ∷ rs) = let rest = max_id rs in if ltb rest r.id then r.id else rest

abbrev new_row : List AuditRow → Event → ℕ → Text → Text → Text → AuditRow
new_row rows e n row_hash prev chain_hash = record {
  id = max_id rows + 1;
  event = e;
  sequence_num = n;
  row_hash = row_hash;
  prev_chain_hash = prev;
  chain_hash = chain_hash;
}

-- An INTEGER of SQLite has 64 bits; a larger one raises OverflowError.
abbrev pub int64_limit : ℕ
int64_limit = 9_223_372_036_854_775_808

abbrev pub fits_int64 : Option ℤ → Bool
fits_int64 none = true
fits_int64 (some (pos n)) = ltb n int64_limit
fits_int64 (some (negsuc n)) = ltb n int64_limit

-- CHECK(result IN ('valid','invalid'))
unfoldable pub result_allowed : Text → Bool
result_allowed t = text_eq t (codes "valid") || text_eq t (codes "invalid")

-- Whether one of a tenant's rows has the number: UNIQUE(tenant_id, sequence_num).
unfoldable pub number_taken : ℕ → List AuditRow → Bool
number_taken n [] = false
number_taken n (r ∷ rs) = r.sequence_num == n || number_taken n rs

-- INSERT INTO verification_audit; `none` is OverflowError or IntegrityError.
unfoldable pub insert_row : List AuditRow → AuditRow → Option (List AuditRow)
unfolding number_taken result_allowed
insert_row rows r =
    if fits_int64 r.event.sequence_id
      && ltb r.sequence_num int64_limit
      && result_allowed r.event.result
      && not (number_taken r.sequence_num (rows_of r.event.tenant_id rows))
    then some (rows ++ r ∷ [])
    else none

-- From the hash chain on, `record`; `none` is an exception, which leaves the rows as they are.
unfoldable pub record_event : Crypto → List AuditRow → Event → Option (List AuditRow)
record_event c rows e =
    let prev = get_latest_chain_hash e.tenant_id rows in
    let n = max_sequence (rows_of e.tenant_id rows) + 1 in
    do
      row_hash ← compute_row_hash c e n
      chain_hash ← compute_chain_hash c prev row_hash
      insert_row rows (new_row rows e n row_hash prev chain_hash)

pub record ChainVerificationResult : Type 0 where
  pub valid : Bool
  pub total_rows : ℕ
  pub broken_at_id : Option ℕ

abbrev pub broken : ℕ → AuditRow → ChainVerificationResult
broken total r = record { valid = false; total_rows = total; broken_at_id = some r.id }

-- The loop of `verify_chain`; `none` is an exception.
unfoldable pub walk : Crypto → ℕ → Text → List AuditRow → Option ChainVerificationResult
walk c total prev [] = some (record { valid = true; total_rows = total; broken_at_id = none })
walk c total prev (r ∷ rs) =
    let rest = walk c total r.chain_hash rs in
    do
      expected_row_hash ← compute_row_hash c r.event r.sequence_num
      expected_chain_hash ← compute_chain_hash c prev expected_row_hash
      if not (text_eq r.row_hash expected_row_hash)
          then some (broken total r)
          else if not (text_eq r.chain_hash expected_chain_hash)
          then some (broken total r)
          else rest

-- verify_chain
unfoldable pub verify_audit : Crypto → Text → List AuditRow → Option ChainVerificationResult
verify_audit c t rows = walk c (length (rows_of t rows)) genesis_hash (rows_of t rows)

-- compute_audit_leaf
abbrev or_empty : Option Text → Text
or_empty none = []
or_empty (some t) = t

abbrev number_text : Option ℤ → Text
number_text none = []
number_text (some n) = int_text n

unfoldable pub leaf_content : Event → Text
leaf_content e =
    e.tenant_id
    ++ 124
      ∷ (or_empty e.instance_id
          ++ 124
            ∷ (number_text e.sequence_id
                ++ 124 ∷ (e.result ++ 124 ∷ (e.verified_at ++ 124 ∷ or_empty e.failure_code))))

-- `none` is the exception of encode.
unfoldable pub compute_audit_leaf : Crypto → Event → Option Text
compute_audit_leaf c e = hash_bytes c (encode (leaf_content e))
