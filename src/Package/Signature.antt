-- ===== src/Package/Signature.antt =====
-- verify/verify_signature.py: the hash and the signature of one proof.
use provable_ai.Base.{
  ℕ, suc, Option, none, some, Bool, true, false, ◌&&◌, ◌==◌, length, [], if◌then◌else◌, ◌∷◌,
}
use provable_ai.Base.Optional.{◌>>=◌}
use provable_ai.Text.{Text, codes}
use provable_ai.Json.{Value, Items, Fields, null, str, arr, obj, end, field, cons, nil}
use provable_ai.Json.Lookup.{get}
use provable_ai.Crypto.{Crypto}
use provable_ai.Package.{is_str, truthy, recompute_entry_hash, verify_ed25519_hex}

pub record SignatureVerdict : Type 0 where
  pub valid : Bool
  pub hash_valid : Bool
  pub sig_valid : Bool

abbrev pub no_verdict : SignatureVerdict
no_verdict = record { valid = false; hash_valid = false; sig_valid = false }

abbrev pub hash_only : SignatureVerdict
hash_only = record { valid = false; hash_valid = true; sig_valid = false }

-- A hash mismatch, with `stored_hash[:16]` in its text, which raises where it has no slices.
abbrev pub hash_failure : Value → Option SignatureVerdict
hash_failure (str s) = some no_verdict
hash_failure (arr xs) = some no_verdict
hash_failure _ = none

abbrev pub field_count : Fields → ℕ
field_count end = 0
field_count (field k v fs) = suc (field_count fs)

abbrev pub items_length : Items → ℕ
items_length nil = 0
items_length (cons v xs) = suc (items_length xs)

-- len(v); `none` is its TypeError
abbrev pub length_of : Value → Option ℕ
length_of (str s) = some (length s)
length_of (arr xs) = some (items_length xs)
length_of (obj fs) = some (field_count fs)
length_of _ = none

-- override_pubkey or public_key
abbrev pub chosen_key : Option Text → Value → Value
chosen_key none public_key = public_key
chosen_key (some []) public_key = public_key
chosen_key (some (a ∷ k)) public_key = str (a ∷ k)

-- The test of a signature that has a length, `n`; one that has none raises in either way, since the
-- text of the failure asks for it too.
abbrev pub sized_signature : Crypto → Value → Text → Value → ℕ → SignatureVerdict
sized_signature c public_key computed_hash sig_value n =
    if n == 128 && verify_ed25519_hex c public_key computed_hash sig_value
    then record { valid = true; hash_valid = true; sig_valid = true }
    else hash_only

-- "Step 2: verify Ed25519 signature"
abbrev pub check_value : Crypto → Value → Text → Value → Option SignatureVerdict
check_value c public_key computed_hash sig_value =
    let checked = (do
      n ← length_of sig_value
      some (sized_signature c public_key computed_hash sig_value n)) in
    if truthy public_key then checked else some hash_only

-- verify_proof_signature; `none` is an exception
unfoldable pub verify_proof_signature : Crypto → Value → Option Text → Option SignatureVerdict
verify_proof_signature c proof override_pubkey = do
  sig_block ← get (codes "signature") (obj end) proof
  key_id ← get (codes "key_id") null sig_block
  ledger ← get (codes "ledger") (obj end) proof
  stored_hash ← get (codes "current_hash") (str []) ledger
  computed_hash ← recompute_entry_hash c proof
  sig_value ← get (codes "value") (str []) sig_block
  public_key ← get (codes "public_key") (str []) sig_block
  if is_str computed_hash stored_hash
      then check_value c (chosen_key override_pubkey public_key) computed_hash sig_value
      else hash_failure stored_hash
