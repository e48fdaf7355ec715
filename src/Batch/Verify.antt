-- ===== src/Batch/Verify.antt =====
-- provable_ai/audit_batch.py: verify_batch_signature; verify/verify_batch.py: build_merkle_root and
-- verify_batch.
use provable_ai.Base.{
  ℕ, zero, suc, Option, none, some, Bool, true, false, ◌&&◌, ◌==◌, List, [], ◌∷◌, length,
  if◌then◌else◌, leb,
}
use provable_ai.Base.Optional.{◌>>=◌}
use provable_ai.Text.{Text, Bytes, codes}
use provable_ai.Text.Hex.{fromhex}
use provable_ai.Text.Sorted.{sort_texts}
use provable_ai.Json.{Value, Items, null, str, arr, obj, nil, cons, end}
use provable_ai.Json.Lookup.{get}
use provable_ai.Crypto.{Crypto}
use provable_ai.Canonical.{genesis_hash}
use provable_ai.Merkle.{merkle_root, leaves_of, pad, next_level, first}
use provable_ai.Package.{truthy, as_text, is_str, hex_of, verify_ed25519_hex}
use provable_ai.Engine.Export.{item_count}
use provable_ai.Batch.{proof_ids_of}

pub record BatchVerdict : Type 0 where
  pub valid : Bool
  pub merkle_root_valid : Bool
  pub signature_valid : Bool
  pub proof_count : ℕ

-- What `for p in v` meets: a value that is no list has no dicts in it.
abbrev pub iterated : Value → Option Items
iterated (arr xs) = some xs
iterated (obj end) = some nil
iterated (str []) = some nil
iterated _ = none

-- The answer to an exception other than BadSignatureError.
abbrev pub batch_error : BatchVerdict
batch_error = record {
  valid = false;
  merkle_root_valid = false;
  signature_valid = false;
  proof_count = 0;
}

-- The answer to another root; `claimed_root[:16]` raises where it has no slices.
abbrev pub root_mismatch : Value → Items → BatchVerdict
root_mismatch (str s) proofs = record batch_error { proof_count = item_count proofs }
root_mismatch (arr xs) proofs = record batch_error { proof_count = item_count proofs }
root_mismatch _ proofs = batch_error

-- What PyNaCl does: another length of the key or the signature is a ValueError.
abbrev pub signature_verdict : Crypto → Bytes → Bytes → Bytes → Items → BatchVerdict
signature_verdict c public_key message signature proofs =
    if length public_key == 32 && length signature == 64
    then (if c.ed25519_verify public_key message signature
        then record {
          valid = true;
          merkle_root_valid = true;
          signature_valid = true;
          proof_count = item_count proofs;
        }
        else record {
          valid = false;
          merkle_root_valid = true;
          signature_valid = false;
          proof_count = item_count proofs;
        })
    else batch_error

-- "Step 2 - verify Ed25519 signature over the root bytes"
abbrev pub check_bytes :
    Crypto → Option Bytes → Option Bytes → Option Bytes → Items → Option BatchVerdict
check_bytes c (some pub_bytes) (some root_bytes) (some sig_bytes) proofs =
    some (signature_verdict c pub_bytes root_bytes sig_bytes proofs)
check_bytes c _ _ _ proofs = none

abbrev pub check_root : Crypto → Value → Value → Value → Items → Text → Option BatchVerdict
check_root c claimed_root sig_hex pub_hex proofs computed_root =
    if is_str computed_root claimed_root
    then check_bytes c (hex_of pub_hex) (fromhex computed_root) (hex_of sig_hex) proofs
    else some (root_mismatch claimed_root proofs)

-- The body of the try block; `none` is an exception.
unfoldable pub try_batch : Crypto → (Value → Text) → Value → Option BatchVerdict
try_batch c repr batch_dict = do
  listed ← get (codes "proofs") (arr nil) batch_dict
  claimed_root ← get (codes "merkle_root") (str []) batch_dict
  sig_block ← get (codes "merkle_signature") (obj end) batch_dict
  sig_hex ← get (codes "value") (str []) sig_block
  pub_hex ← get (codes "public_key") (str []) sig_block
  proofs ← iterated listed
  proof_ids ← proof_ids_of c repr proofs
  computed_root ← merkle_root c proof_ids
  check_root c claimed_root sig_hex pub_hex proofs computed_root

abbrev pub or_error : Option BatchVerdict → BatchVerdict
or_error none = batch_error
or_error (some verdict) = verdict

-- verify_batch_signature
unfoldable pub verify_batch_signature : Crypto → (Value → Text) → Value → BatchVerdict
verify_batch_signature c repr batch_dict = or_error (try_batch c repr batch_dict)

-- The loop of `build_merkle_root`; `none` is an exception or too little fuel.
unfoldable pub root_loop : ℕ → Crypto → List Text → Option Text
root_loop zero c current = none
root_loop (suc fuel) c current =
    let rest = (do next ← next_level c (pad current); root_loop fuel c next) in
    if leb (length current) 1 then first current else rest

-- build_merkle_root
unfoldable pub build_merkle_root : Crypto → List Text → Option Text
build_merkle_root c [] = some genesis_hash
build_merkle_root c (i ∷ ids) =
    let leaves = leaves_of c (sort_texts (i ∷ ids)) in root_loop (length leaves) c leaves

-- [p.get("proof_id") for p in proofs if p.get("proof_id")]; an id that is no text makes the tree
-- raise
unfoldable pub given_ids : Items → Option (List Text)
given_ids nil = some []
given_ids (cons p ps) = do
  id ← get (codes "proof_id") null p
  ids ← given_ids ps
  let with_id = (do t ← as_text id; some (t ∷ ids))
  if truthy id then with_id else some ids

-- A failure with `stored_root[:16]` in its text.
abbrev pub other_root : Value → ℕ → Option BatchVerdict
other_root (str s) n = some (record batch_error { proof_count = n })
other_root (arr xs) n = some (record batch_error { proof_count = n })
other_root _ n = none

abbrev pub signed_batch : Crypto → Value → Value → Text → ℕ → BatchVerdict
signed_batch c sig_value public_key computed_root n =
    let signed =
      (truthy sig_value && truthy public_key)
      && verify_ed25519_hex c public_key computed_root sig_value in
    record { valid = signed; merkle_root_valid = true; signature_valid = signed; proof_count = n }

-- The rest of `verify_batch`, once the root was computed.
abbrev pub after_merkle : Crypto → Value → Value → ℕ → Text → Option BatchVerdict
after_merkle c batch stored_root n computed_root =
    let checked = (do
      sig_block ← get (codes "merkle_signature") (obj end) batch
      sig_value ← get (codes "value") (str []) sig_block
      public_key ← get (codes "public_key") (str []) sig_block
      some (signed_batch c sig_value public_key computed_root n)) in
    if is_str computed_root stored_root then checked else other_root stored_root n

-- verify_batch; `none` is an exception
unfoldable pub verify_batch : Crypto → Value → Option BatchVerdict
verify_batch c batch = do
  listed ← get (codes "proofs") (arr nil) batch
  proofs ← iterated listed
  proof_ids ← given_ids proofs
  stored_root ← get (codes "merkle_root") (str []) batch
  computed_root ← build_merkle_root c proof_ids
  after_merkle c batch stored_root (length proof_ids) computed_root
