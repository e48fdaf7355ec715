-- ===== src/Package/Tests.antt =====
-- A package with one proof, signed with the small signature.
use provable_ai.Text.Decimal.{decimal}
use provable_ai.Json.Lookup.{lookup_field, get}
use provable_ai.Canonical.{genesis_hash}
use provable_ai.Base.{
  Option, none, some, ◌≡◌, ◌≢◌, refl, List, [], ◌∷◌, ◌⊎◌, true, arith, replicate,
}
use provable_ai.Text.{Text, codes, text_eq, text_leb}
use provable_ai.Text.Hex.{fromhex, hex}
use provable_ai.Json.{
  Value, Items, Fields, str, obj, arr, nil, cons, end, field, text_key, dumps, entry_texts,
  escape_all, insert_entry, int_text, join, sort_entries,
}
use provable_ai.Json.Sorted.{same_obj, swap}
use provable_ai.Crypto.Toy.{toy, toy_sha256}
use provable_ai.Signer.Toy.{signed_hex}
use provable_ai.Schema.{
  proof_dump, context_dump, contributions_dump, decision_dump, determinism_dump, governance_dump,
  ledger_dump, pairs_dump, signature_dump,
}
use provable_ai.Schema.Sample.{first_proof}
use provable_ai.Package.{
  compute_instance_root, compute_package_hash, package_type, verify_package, all_passed,
  CheckResult, passed, recompute_entry_hash, check_structure, check_package_hash, check_chain,
  check_links, check_signer, join_hashes, final_state_of, dumped_hash, verify_ed25519_hex, get,
}
use provable_ai.Package.Sound.{IsAccepted, verify_package-IsAccepted}
use provable_ai.Package.Order.{verify_package-SameValue}
use provable_ai.Package.Offline.{verify_exported}
use provable_ai.Package.Offline.Stricter.{ZeroDigest, verify_package-verify_exported}
use provable_ai.Package.Offline.Forged.{verify_exported-unsigned, bare_package}
use provable_ai.Crypto.{hexdigest}
use provable_ai.Json.Utf8.{utf8}
use provable_ai.Signer.Toy.{all_bytes}

abbrev text_in : Option Text → Text
text_in none = []
text_in (some t) = t

abbrev entries : Items
entries = cons (proof_dump first_proof) nil

abbrev root : Text
root = text_in (compute_instance_root toy entries)

abbrev root_signature : Text
root_signature = text_in (signed_hex (text_in (fromhex root)))

abbrev package_hash : Text
package_hash = text_in (compute_package_hash toy entries)

abbrev block : Value
block = obj (
    field (text_key (codes "instance_root")) (str root)
      (field (text_key (codes "ledger")) (arr entries) end))

-- The fields of the package but the first two.
abbrev other_fields : Fields
other_fields = field (text_key (codes "signature")) (str root_signature) (
    field (text_key (codes "package_hash")) (str package_hash)
      (field (text_key (codes "proof")) block end))

abbrev key_field : Value
key_field = str (replicate 64 50)

abbrev sample : Value
sample = obj (
    field (text_key (codes "type")) (str package_type)
      (field (text_key (codes "public_key")) key_field other_fields))

-- The same, its first two entries in the other order.
abbrev reordered : Value
reordered = obj (
    field (text_key (codes "public_key")) key_field
      (field (text_key (codes "type")) (str package_type) other_fields))

abbrev four : List CheckResult
four = passed ∷ passed ∷ passed ∷ passed ∷ []

sample_passes : verify_package toy sample ≡ some four
unfolding verify_package all_passed check_structure check_package_hash check_chain check_links
    check_signer compute_instance_root compute_package_hash join_hashes final_state_of
    recompute_entry_hash dumped_hash verify_ed25519_hex get lookup_field text_eq genesis_hash
    hexdigest utf8 dumps entry_texts escape_all insert_entry int_text join sort_entries context_dump
    contributions_dump decision_dump determinism_dump governance_dump ledger_dump pairs_dump
    proof_dump signature_dump decimal fromhex hex text_leb signed_hex all_bytes toy_sha256
sample_passes = refl

other_keys : codes "type" ≢ codes "public_key"
other_keys e = absurd (ground (arith, e))

all_four : all_passed four ≡ true
unfolding all_passed
all_four = refl

sample_accepted : IsAccepted toy sample
sample_accepted = (verify_package-IsAccepted toy sample).0 (four, sample_passes, all_four)

verify_package-SameValue_example : verify_package toy sample ≡ verify_package toy reordered
verify_package-SameValue_example = verify_package-SameValue toy (
    same_obj (
      swap (codes "type") (codes "public_key") (str package_type) key_field other_fields
        other_keys))

verify_package-verify_exported_example :
    ((state : Value) × (verify_exported toy sample ≡ some (true, state))) ⊎ ZeroDigest toy
verify_package-verify_exported_example =
    verify_package-verify_exported toy sample four sample_passes all_four

verify_exported-unsigned_example :
    (¬ (
      (checks : List CheckResult) × (verify_package toy (bare_package sample_accepted.ledger)
        ≡ some checks)
      × (all_passed checks ≡ true)))
    × (((state : Value) × (verify_exported toy (bare_package sample_accepted.ledger)
            ≡ some (true, state)))
        ⊎ ZeroDigest toy)
verify_exported-unsigned_example =
    verify_exported-unsigned toy sample nil sample_accepted.ledger sample_accepted refl
