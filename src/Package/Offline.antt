-- ===== src/Package/Offline.antt =====
-- tools/offline_verify.py: the other verifier of exported packages.
pub mod Stricter
pub mod Forged
use provable_ai.Base.{Option, none, some, Bool, true, false, ◌&&◌, not, [], if◌then◌else◌}
use provable_ai.Base.Optional.{◌>>=◌}
use provable_ai.Text.{Text, codes}
use provable_ai.Json.{Value, Items, Fields, null, str, obj, arr, nil, cons, end}
use provable_ai.Json.Lookup.{get, list_items}
use provable_ai.Crypto.{Crypto}
use provable_ai.Package.{
  is_str, truthy, package_type, block_of, dumped_hash, recompute_entry_hash, compute_instance_root,
  verify_ed25519_hex, entry_hash, final_state_of,
}

-- The answer, and the final state, which is None where there is none.
abbrev pub Answer : Type 0
Answer = Bool × Value

abbrev pub refused : Answer
refused = (false, null)

-- A refusal with `stored[:16]` in its text, which raises where `stored` has no slices.
abbrev pub refuse_showing : Value → Option Bool
refuse_showing (str s) = some false
refuse_showing (arr xs) = some false
refuse_showing _ = none

-- "Check 1: package_hash covers full ledger structure"
abbrev pub same_package_hash : Value → Text → Option Bool
same_package_hash stored computed =
    if is_str computed stored then some true else refuse_showing stored

unfoldable pub package_hash_ok : Crypto → Value → Value → Option Bool
package_hash_ok c stored ledger =
    if truthy stored then dumped_hash c ledger >>= same_package_hash stored else some true

-- prev_hash is None or chain_prev
abbrev pub follows : Option Text → Value → Bool
follows none chain_prev = true
follows (some t) chain_prev = is_str t chain_prev

-- "Check 2: per-proof canonical hash integrity", with the links
unfoldable pub links_ok : Crypto → Option Text → Items → Option Bool
links_ok c prev_hash nil = some true
links_ok c prev_hash (cons entry es) = do
  stored_hash ← entry_hash entry
  computed ← recompute_entry_hash c entry
  ledger_block ← get (codes "ledger") (obj end) entry
  chain_prev ← get (codes "previous_hash") (str []) ledger_block
  let rest = links_ok c (some computed) es
  if is_str computed stored_hash && follows prev_hash chain_prev then rest else some false

-- Checks 3 and 4, and the answer.
abbrev pub after_root : Crypto → Value → Value → Value → Items → Text → Option Answer
after_root c stored_root sig_hex pub_key_hex ledger computed_root =
    let proof_valid = (do state ← final_state_of null ledger; some (true, state)) in
    if truthy stored_root && not (is_str computed_root stored_root)
    then some refused
    else if (truthy sig_hex && truthy pub_key_hex)
        && not (verify_ed25519_hex c pub_key_hex computed_root sig_hex)
    then some refused
    else proof_valid

abbrev pub or_refused : Option Answer → Bool → Option Answer
or_refused next true = next
or_refused next false = some refused

-- The checks of a ledger that is not empty.
unfoldable pub verify_ledger : Crypto → Value → Value → Value → Value → Value → Option Answer
verify_ledger c stored_root stored_pkg_h sig_hex pub_key_hex ledger = do
  untampered ← package_hash_ok c stored_pkg_h ledger
  let checked = (do
    entries ← list_items ledger
    linked ← links_ok c none entries
    let signed =
        compute_instance_root c entries >>= after_root c stored_root sig_hex pub_key_hex entries
    or_refused signed linked)
  or_refused checked untampered

-- verify_proof, after the file was read
unfoldable pub verify_exported : Crypto → Value → Option Answer
verify_exported c exported = do
  kind ← get (codes "type") null exported
  let opened = (do
    proof_block ← block_of exported
    ledger ← get (codes "ledger") (arr nil) proof_block
    stored_root ← get (codes "instance_root") (str []) proof_block
    stored_pkg_h ← get (codes "package_hash") (str []) exported
    sig_hex ← get (codes "signature") (str []) exported
    pub_key_hex ← get (codes "public_key") (str []) exported
    if truthy ledger
        then verify_ledger c stored_root stored_pkg_h sig_hex pub_key_hex ledger
        else some (true, null))
  if is_str package_type kind then opened else some refused

-- verify_proof, with what reading the file gave
unfoldable pub verify_proof_file : Crypto → Option Value → Option Answer
verify_proof_file c none = some refused
verify_proof_file c (some exported) = verify_exported c exported
