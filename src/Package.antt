-- ===== src/Package.antt =====
-- verify/verify_package.py: an exported package of proofs, tested from its JSON alone.
pub mod Parts
pub mod RootSigned
pub mod Sound
pub mod Offline
pub mod Same
pub mod Order
pub mod Proof
pub mod Signature
mod Tests
use provable_ai.Base.{
  Option, none, some, Bool, true, false, not, ◌&&◌, ◌||◌, List, [], ◌∷◌, ◌++◌, if◌then◌else◌, ◌==◌,
}
use provable_ai.Base.Int.{pos, negsuc}
use provable_ai.Base.Optional.{◌>>=◌}
use provable_ai.Text.{Text, Bytes, codes, text_eq, is_empty}
use provable_ai.Text.Hex.{fromhex}
use provable_ai.Json.{
  Value, Items, null, bool, int, str, arr, obj, foreign, float, nil, cons, end, field, text_key,
}
use provable_ai.Json.Encode.{dump_bytes, encode}
use provable_ai.Json.Lookup.{get}
use provable_ai.Canonical.{genesis_hash}
use provable_ai.Crypto.{Crypto, hash_bytes}

-- v == t, for a text t
abbrev pub is_str : Text → Value → Bool
is_str t (str s) = text_eq s t
is_str t _ = false

abbrev pub as_text : Value → Option Text
as_text (str s) = some s
as_text _ = none

-- Whether `if v` runs its branch, for what json.load makes.
abbrev pub truthy : Value → Bool
truthy null = false
truthy (bool b) = b
truthy (int (pos n)) = not (n == 0)
truthy (int (negsuc n)) = true
truthy (str s) = not (is_empty s)
truthy (arr nil) = false
truthy (arr (cons v xs)) = true
truthy (obj end) = false
truthy (obj (field k v fs)) = true
truthy (foreign float (some t)) = not (text_eq t (codes "0.0") || text_eq t (codes "-0.0"))
truthy (foreign kind t) = true

abbrev pub hash_content : Value → Value → Value → Value → Value → Value → Value
hash_content decision decision_context governance determinism previous_hash sequence_id = obj (
    field (text_key (codes "decision")) decision (
      field (text_key (codes "decision_context")) decision_context (
        field (text_key (codes "governance")) governance (
          field (text_key (codes "determinism")) determinism (
            field (text_key (codes "previous_hash")) previous_hash
              (field (text_key (codes "sequence_id")) sequence_id end))))))

-- SHA-256 of json.dumps(v), with sorted keys; `none` is an exception of json.dumps or encode.
unfoldable pub dumped_hash : Crypto → Value → Option Text
unfolding dump_bytes
dumped_hash c v = hash_bytes c (dump_bytes v)

-- `_recompute_hash`; `none` is an exception, here and below.
unfoldable pub recompute_entry_hash : Crypto → Value → Option Text
recompute_entry_hash c entry = do
  ledger ← get (codes "ledger") (obj end) entry
  decision ← get (codes "decision") (obj end) entry
  decision_context ← get (codes "decision_context") (obj end) entry
  governance ← get (codes "governance") (obj end) entry
  determinism ← get (codes "determinism") (obj end) entry
  previous_hash ← get (codes "previous_hash") (str []) ledger
  sequence_id ← get (codes "sequence_id") (int (pos 0)) ledger
  dumped_hash c
      (hash_content decision decision_context governance determinism previous_hash sequence_id)

-- e.get("ledger", {}).get("current_hash", "")
abbrev pub entry_hash : Value → Option Value
entry_hash entry = do
  ledger ← get (codes "ledger") (obj end) entry
  get (codes "current_hash") (str []) ledger

unfoldable pub join_hashes : Items → Option Text
join_hashes nil = some []
join_hashes (cons e es) = do
  h ← entry_hash e
  t ← as_text h
  rest ← join_hashes es
  some (t ++ rest)

unfoldable pub compute_instance_root : Crypto → Items → Option Text
unfolding encode
compute_instance_root c entries = do t ← join_hashes entries; hash_bytes c (encode t)

unfoldable pub compute_package_hash : Crypto → Items → Option Text
unfolding dumped_hash
compute_package_hash c entries = dumped_hash c (arr entries)

abbrev pub verify_texts : Crypto → Option Bytes → Option Bytes → Option Bytes → Bool
verify_texts c (some public_key) (some message) (some signature) =
    c.ed25519_verify public_key message signature
verify_texts c _ _ _ = false

-- bytes.fromhex(v), of a value that may be no text
abbrev pub hex_of : Value → Option Bytes
hex_of (str s) = fromhex s
hex_of _ = none

-- `_verify_ed25519`, which passes over every exception
unfoldable pub verify_ed25519_hex : Crypto → Value → Text → Value → Bool
verify_ed25519_hex c public_key_hex message_hex sig_hex =
    verify_texts c (hex_of public_key_hex) (fromhex message_hex) (hex_of sig_hex)

pub data CheckResult : Type 0 where
  passed failed skipped : CheckResult

-- c.fail(...) with `stored[:32]` in the text, which raises where `stored` has no slices
abbrev pub fail_showing : Value → Option CheckResult
fail_showing (str s) = some failed
fail_showing (arr xs) = some failed
fail_showing _ = none

abbrev pub package_type : Text
package_type = codes "provable-ai-proof-package"

-- A ledger that is a list and not empty.
abbrev pub non_empty_list : Value → Option Items
non_empty_list (arr (cons e es)) = some (cons e es)
non_empty_list _ = none

-- package.get("proof", {})
abbrev pub block_of : Value → Option Value
block_of exported = get (codes "proof") (obj end) exported

-- Check 1, with the ledger if it passed
unfoldable pub check_structure : Value → Option (Option Items)
check_structure exported = do
  kind ← get (codes "type") null exported
  let opened = (do
    proof_block ← block_of exported
    ledger ← get (codes "ledger") (arr nil) proof_block
    some (non_empty_list ledger))
  if is_str package_type kind then opened else some none

-- Check 2
abbrev pub compare_hash : Value → Text → Option CheckResult
compare_hash stored computed = if is_str computed stored then some passed else fail_showing stored

unfoldable pub check_package_hash : Crypto → Value → Items → Option CheckResult
check_package_hash c exported ledger = do
  stored ← get (codes "package_hash") (str []) exported
  if truthy stored then compute_package_hash c ledger >>= compare_hash stored else some skipped

-- prev_hash if prev_hash else genesis
abbrev pub expected_previous : Option Text → Text
expected_previous none = genesis_hash
expected_previous (some t) = if is_empty t then genesis_hash else t

-- One round of the loop of check 3, with what the rounds after it answer
abbrev pub link_result :
    Option Text → Text → Value → Value → Option CheckResult → Option CheckResult
link_result prev_hash computed stored_hash previous_hash rest =
    if not (is_str computed stored_hash)
    then fail_showing stored_hash
    else if is_str (expected_previous prev_hash) previous_hash
    then rest
    else some failed

-- Check 3, the loop; the stored hash that it keeps is the computed one
unfoldable pub check_links : Crypto → Option Text → Items → Option CheckResult
check_links c prev_hash nil = some passed
check_links c prev_hash (cons entry es) = do
  ledger_block ← get (codes "ledger") (obj end) entry
  stored_hash ← get (codes "current_hash") (str []) ledger_block
  previous_hash ← get (codes "previous_hash") (str genesis_hash) ledger_block
  computed ← recompute_entry_hash c entry
  link_result prev_hash computed stored_hash previous_hash (check_links c (some computed) es)

abbrev pub last_item : Value → Items → Value
last_item v nil = v
last_item v (cons w xs) = last_item w xs

-- ledger[-1].get("decision", {}).get("to_state", default)
unfoldable pub final_state_of : Value → Items → Option Value
final_state_of default nil = none
final_state_of default (cons e es) = do
  decision ← get (codes "decision") (obj end) (last_item e es)
  get (codes "to_state") default decision

abbrev pub after_links : Items → CheckResult → Option CheckResult
after_links ledger failed = some failed
after_links ledger r = final_state_of (str (codes "unknown")) ledger >>= λ state. some r

unfoldable pub check_chain : Crypto → Items → Option CheckResult
check_chain c ledger = check_links c none ledger >>= after_links ledger

-- Check 4, where a key and a signature are there
abbrev pub compare_root : Crypto → Value → Value → Value → Text → Option CheckResult
compare_root c public_key sig_hex stored_root computed =
    if truthy stored_root && not (is_str computed stored_root)
    then fail_showing stored_root
    else if verify_ed25519_hex c public_key computed sig_hex
    then some passed
    else some failed

unfoldable pub check_signer : Crypto → Value → Items → Option CheckResult
check_signer c exported ledger = do
  public_key ← get (codes "public_key") (str []) exported
  sig_hex ← get (codes "signature") (str []) exported
  proof_block ← block_of exported
  stored_root ← get (codes "instance_root") (str []) proof_block
  let compared = compute_instance_root c ledger >>= compare_root c public_key sig_hex stored_root
  if truthy public_key && truthy sig_hex then compared else some failed

abbrev pub verify_opened : Crypto → Value → Option Items → Option (List CheckResult)
verify_opened c exported none = some (failed ∷ [])
verify_opened c exported (some ledger) = do
  c2 ← check_package_hash c exported ledger
  c3 ← check_chain c ledger
  c4 ← check_signer c exported ledger
  some (passed ∷ c2 ∷ c3 ∷ c4 ∷ [])

-- verify_package, its checks
unfoldable pub verify_package : Crypto → Value → Option (List CheckResult)
verify_package c exported = check_structure exported >>= verify_opened c exported

abbrev pub check_passed : CheckResult → Bool
check_passed passed = true
check_passed failed = false
check_passed skipped = true

-- all(c.passed for c in checks)
unfoldable pub all_passed : List CheckResult → Bool
all_passed [] = true
all_passed (r ∷ rs) = check_passed r && all_passed rs
