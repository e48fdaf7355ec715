-- ===== src/Canonical.antt =====
-- provable_ai/canonical.py: which values may be hashed, what is hashed for a decision, and the
-- canonical bytes and hash of it.
pub mod Accepts
pub mod Encodable
pub mod Scope
pub mod Hashes
mod Tests
use provable_ai.Base.{
  ℕ, suc, ◌&&◌, ◌||◌, not, Bool, true, false, Option, none, some, List, [], ◌∷◌, ◌++◌, length,
  replicate, ◌==◌, if◌then◌else◌,
}
use provable_ai.Base.Int.{pos}
use provable_ai.Base.Result.{Result, ok, err, ◌>>=◌, ◌>>◌}
use provable_ai.Text.{Text, Bytes, codes, has_text, text_eq}
use provable_ai.Text.Hex.{is_int16}
use provable_ai.Text.Decimal.{decimal}
use provable_ai.Json.{
  Value, Items, Fields, Key, Forbidden, null, bool, int, str, arr, obj, foreign, nil, cons, end,
  field, text_key, other_key,
}
use provable_ai.Json.Utf8.{utf8}
use provable_ai.Json.Encode.{EncodeError, dump_bytes}
use provable_ai.Crypto.{Crypto, hexdigest}

-- A step of the path that an error names, innermost first.
pub data Segment : Type 0 where
  at_key : Text → Segment
  at_index : ℕ → Segment
  bad_key : Text → Segment

pub data CanonicalError : Type 0 where
  -- CanonicalJsonError
  non_canonical : List Segment → CanonicalError
  -- the ValueErrors of `validate_hash_payload`
  not_a_dict : CanonicalError
  missing_fields : List Text → CanonicalError
  excluded_fields : List Text → CanonicalError
  unknown_fields : CanonicalError
  -- what json.dumps and encode raise
  encode_error : EncodeError → CanonicalError

abbrev pub first_error : Option (List Segment) → Option (List Segment) → Option (List Segment)
first_error none next = next
first_error (some e) next = some e

-- `_validate_payload`, the path of the first value that it refuses
unfoldable mutual
  pub refused_value : List Segment → Value → Option (List Segment)
  refused_value path (obj fs) = refused_fields path fs
  refused_value path (arr xs) = refused_items path 0 xs
  refused_value path (foreign kind text) = some path
  refused_value path _ = none

  pub refused_items : List Segment → ℕ → Items → Option (List Segment)
  refused_items path i nil = none
  refused_items path i (cons v xs) =
      first_error (refused_value (at_index i ∷ path) v) (refused_items path (suc i) xs)

  pub refused_fields : List Segment → Fields → Option (List Segment)
  refused_fields path end = none
  refused_fields path (field (other_key t) v fs) = some (bad_key t ∷ path)
  refused_fields path (field (text_key k) v fs) =
      first_error (refused_value (at_key k ∷ path) v) (refused_fields path fs)

unfoldable pub validate_payload : Value → Result CanonicalError (Unit {0})
unfolding refused_value
validate_payload v = elim (refused_value [] v) [ none ↦ ok tt | some p ↦ err (non_canonical p) ]

abbrev pub required_hash_fields : List Text
required_hash_fields =
    codes "decision"
    ∷ codes "decision_context"
    ∷ codes "determinism"
    ∷ codes "governance"
    ∷ codes "previous_hash"
    ∷ codes "sequence_id"
    ∷ []

abbrev pub excluded_hash_fields : List Text
excluded_hash_fields =
    codes "current_hash"
    ∷ codes "instance_id"
    ∷ codes "key_id"
    ∷ codes "proof_id"
    ∷ codes "public_key"
    ∷ codes "signature"
    ∷ codes "tenant_id"
    ∷ codes "timestamp"
    ∷ codes "type"
    ∷ []

-- payload.keys()
unfoldable pub keys : Fields → List Key
keys end = []
keys (field k v fs) = k ∷ keys fs

unfoldable pub has_key : Text → List Key → Bool
has_key t [] = false
has_key t (text_key k ∷ ks) = text_eq t k || has_key t ks
has_key t (other_key k ∷ ks) = has_key t ks

-- _REQUIRED_HASH_FIELDS - payload.keys()
unfoldable pub missing : List Text → List Key → List Text
missing [] ks = []
missing (t ∷ ts) ks = if has_key t ks then missing ts ks else t ∷ missing ts ks

-- _EXCLUDED_HASH_FIELDS & payload.keys()
unfoldable pub present : List Text → List Key → List Text
present [] ks = []
present (t ∷ ts) ks = if has_key t ks then t ∷ present ts ks else present ts ks

-- whether payload.keys() - _REQUIRED_HASH_FIELDS is not empty
unfoldable pub has_unknown : List Text → List Key → Bool
has_unknown ts [] = false
has_unknown ts (text_key k ∷ ks) = not (has_text k ts) || has_unknown ts ks
has_unknown ts (other_key k ∷ ks) = true

abbrev pub refuse_if_any :
    (List Text → CanonicalError) → List Text → Result CanonicalError (Unit {0})
refuse_if_any e [] = ok tt
refuse_if_any e (t ∷ ts) = err (e (t ∷ ts))

unfoldable pub validate_hash_payload : Value → Result CanonicalError (Unit {0})
unfolding validate_payload keys missing present has_unknown has_key has_text
validate_hash_payload (obj fs) = do
  refuse_if_any missing_fields (missing required_hash_fields (keys fs))
  refuse_if_any excluded_fields (present excluded_hash_fields (keys fs))
  if has_unknown required_hash_fields (keys fs) then err unknown_fields else ok tt
  validate_payload (obj fs)
validate_hash_payload _ = err not_a_dict

abbrev pub lift_encode : Result EncodeError Bytes → Result CanonicalError Bytes
lift_encode (ok b) = ok b
lift_encode (err e) = err (encode_error e)

unfoldable pub canonical_encode : Value → Result CanonicalError Bytes
unfolding validate_payload dump_bytes
canonical_encode v = do validate_payload v; lift_encode (dump_bytes v)

unfoldable pub canonical_hash : Crypto → Value → Result CanonicalError Text
unfolding canonical_encode
canonical_hash c v = do b ← canonical_encode v; ok (hexdigest c b)

abbrev pub hash_fields : Value → Value → Value → Value → Text → ℕ → Fields
hash_fields decision decision_context governance determinism previous_hash sequence_id =
    field (text_key (codes "decision")) decision (
      field (text_key (codes "decision_context")) decision_context (
        field (text_key (codes "governance")) governance (
          field (text_key (codes "determinism")) determinism (
            field (text_key (codes "previous_hash")) (str previous_hash)
              (field (text_key (codes "sequence_id")) (int (pos sequence_id)) end)))))

unfoldable pub build_hash_payload :
    Value → Value → Value → Value → Text → ℕ → Result CanonicalError Value
unfolding validate_hash_payload
build_hash_payload decision decision_context governance determinism previous_hash sequence_id =
    let payload =
      obj
        (hash_fields decision decision_context governance determinism previous_hash sequence_id) in
    do validate_hash_payload payload; ok payload

unfoldable pub genesis_hash : Text
genesis_hash = replicate 64 48

unfoldable pub is_valid_hash : Text → Bool
is_valid_hash value = length value == 64 && is_int16 value

unfoldable pub compute_proof_id : Crypto → Text → ℕ → Text
compute_proof_id c current_hash sequence_id =
    hexdigest c (utf8 (current_hash ++ 58 ∷ decimal sequence_id))
