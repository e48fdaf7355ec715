-- ===== src/Verifier/Tests.antt =====
-- A chain of one proof, under the small hash and signature.
use provable_ai.Schema.Sample.{first_proof, sevens}
use provable_ai.Verifier.Sound.{IsSound, IsLinked, verify_chain-IsLinked}
use provable_ai.Crypto.{hexdigest}
use provable_ai.Text.{text_leb, text_eq, lower}
use provable_ai.Json.Utf8.{utf8}
use provable_ai.Crypto.Toy.{toy_sha256, toy}
use provable_ai.Text.Hex.{hex, is_int16, fromhex}
use provable_ai.Text.Decimal.{decimal}
use provable_ai.Json.{
  sort_entries, insert_entry, entry_texts, join, escape_all, int_text, dumps, null,
}
use provable_ai.Canonical.{canonical_hash, genesis_hash, build_hash_payload}
use provable_ai.Verifier.{
  recompute_hash, codes, canonical_hash, text_leb, utf8, hexdigest, ok, verify_chain,
  verify_ed25519, determinism_consistent,
}
use provable_ai.Schema.{
  Reader, to_hash_payload, decision_dump, context_dump, governance_dump, determinism_dump,
  pairs_dump, contributions_dump, to_sign_bytes, model_validate, validate_proof, validate_decision,
  validate_context, validate_hash_field, validate_governance, validate_determinism, validate_ledger,
  validate_signature, ends_with_z, is_blank_text,
}
use provable_ai.Base.{◌≡◌, refl, some, replicate, [], ◌∷◌, ◌++◌, true, ◌↔◌, ◌≢◌}

abbrev read_first : Reader
read_first d = some first_proof

stored_hash : recompute_hash toy first_proof ≡ ok (codes "27f9" ++ sevens 30)
unfolding recompute_hash to_hash_payload sort_entries insert_entry text_leb entry_texts join
    escape_all int_text decimal utf8 hexdigest hex toy_sha256 decision_dump context_dump
    governance_dump determinism_dump pairs_dump contributions_dump dumps build_hash_payload text_eq
    canonical_hash genesis_hash
stored_hash = refl

validated : model_validate read_first null ≡ some first_proof
unfolding model_validate validate_proof validate_decision validate_context validate_hash_field
    validate_governance validate_determinism validate_ledger validate_signature ends_with_z
    is_blank_text text_eq is_int16 genesis_hash lower
validated = refl

first-IsSound : IsSound toy genesis_hash 1 first_proof
unfolding to_sign_bytes verify_ed25519 determinism_consistent hex text_eq fromhex
first-IsSound = record {
  hashed = stored_hash;
  message = 39 ∷ 249 ∷ replicate 30 7;
  sign_bytes = refl;
  signed = refl;
  previous = refl;
  sequence = refl;
  consistent = refl;
}

verify_chain-IsLinked_example :
    ((verify_chain toy read_first [] (null ∷ [])).valid ≡ true)
    ↔ (((null ∷ []) ≢ []) × IsLinked toy read_first genesis_hash 1 (null ∷ []))
verify_chain-IsLinked_example = verify_chain-IsLinked toy read_first [] (null ∷ [])

first_chain_valid : (verify_chain toy read_first [] (null ∷ [])).valid ≡ true
first_chain_valid =
    verify_chain-IsLinked_example.1 ((λ e. cc), (first_proof, validated, first-IsSound, tt))
