-- ===== src/Pii.antt =====
-- provable_ai/pii.py: personal data in a dict replaced by its hash.
pub mod Scrubbed
mod Tests
use provable_ai.Json.Encode.{EncodeError, encode, dump_bytes}
use provable_ai.Base.Result.{Result, ok, err}
use provable_ai.Base.{
  Option, List, some, [], Bool, if◌then◌else◌, map, false, ◌&&◌, none, ◌∷◌, not, ◌++◌, length, ◌==◌,
}
use provable_ai.Crypto.{Crypto, hexdigest}
use provable_ai.Json.{Fields, Value, str, field, text_key, other_key, end}
use provable_ai.Text.{Text, Bytes, starts_with, has_text, codes, lower}

-- SENSITIVE_FIELDS
unfoldable pub sensitive_fields : List Text
sensitive_fields = map codes (
    "name" ∷ "full_name" ∷ "first_name" ∷ "last_name" ∷ "given_name" ∷ "surname" ∷ "ssn"
    ∷ "social_security_number" ∷ "national_id" ∷ "passport" ∷ "passport_number" ∷ "driver_license"
    ∷ "tax_id" ∷ "ein" ∷ "email" ∷ "email_address" ∷ "phone" ∷ "phone_number" ∷ "mobile" ∷ "address"
    ∷ "street_address" ∷ "city" ∷ "zip_code" ∷ "postal_code" ∷ "account_number" ∷ "bank_account"
    ∷ "routing_number" ∷ "card_number" ∷ "credit_card" ∷ "cvv" ∷ "card_cvv" ∷ "dob"
    ∷ "date_of_birth" ∷ "birth_date" ∷ "diagnosis" ∷ "condition" ∷ [])

-- key.lower() in SENSITIVE_FIELDS
abbrev pub is_sensitive : Text → Bool
is_sensitive key = has_text (lower key) sensitive_fields

-- What is hashed: a str itself, another value as JSON.
abbrev raw_bytes : Value → Result EncodeError Bytes
raw_bytes (str s) = encode s
raw_bytes v = dump_bytes v

abbrev pub tagged : Crypto → Result EncodeError Bytes → Option Text
tagged c (err e) = none
tagged c (ok raw) = some (codes "sha256:" ++ hexdigest c raw)

-- `none` is an exception of json.dumps or encode.
unfoldable pub hash_sensitive : Crypto → Value → Option Text
hash_sensitive c v = tagged c (raw_bytes v)

unfoldable pub is_hashed : Text → Bool
is_hashed s = starts_with (codes "sha256:") s && length s == 71

abbrev pub is_hashed_value : Value → Bool
is_hashed_value (str s) = is_hashed s
is_hashed_value v = false

abbrev pub as_str : Option Text → Option Value
as_str none = none
as_str (some t) = some (str t)

-- The value that scrub_inputs keeps under a key.
unfoldable pub scrub_value : Crypto → Text → Value → Option Value
scrub_value c key v =
    if is_sensitive key && not (is_hashed_value v) then as_str (hash_sensitive c v) else some v

abbrev pub add_field : Text → Option Value → Option Fields → Option Fields
add_field k (some v) (some fs) = some (field (text_key k) v fs)
add_field k _ _ = none

-- `scrub_inputs`; `none` is an exception, of json.dumps or of a key without `lower`.
unfoldable pub scrub_inputs : Crypto → Fields → Option Fields
scrub_inputs c end = some end
scrub_inputs c (field (text_key k) v fs) = add_field k (scrub_value c k v) (scrub_inputs c fs)
scrub_inputs c (field (other_key k) v fs) = none

abbrev pub add_violation : Bool → Text → Option (List Text) → Option (List Text)
add_violation found k none = none
add_violation found k (some ks) = some (if found then k ∷ ks else ks)

-- The keys that assert_no_pii reports; it raises ValueError if there are any. `none` is the
-- AttributeError of a key without `lower`.
unfoldable pub violations : Fields → Option (List Text)
violations end = some []
violations (field (text_key k) v fs) =
    add_violation (is_sensitive k && not (is_hashed_value v)) k (violations fs)
violations (field (other_key k) v fs) = none
