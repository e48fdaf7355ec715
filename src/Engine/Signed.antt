-- ===== src/Engine/Signed.antt =====
-- A recorded proof under verify/verify_signature.py.
use provable_ai.Base.{ℕ, none, some, ◌≡◌, refl, true, arith, length, sym, ◌∙◌, []}
use provable_ai.Base.Result.{ok}
use provable_ai.Text.{Text, Bytes, codes, text_eq}
use provable_ai.Json.{Value, null, str, obj, end}
use provable_ai.Json.Sorted.{SameValue}
use provable_ai.Json.Lookup.{get, lookup_field}
use provable_ai.Crypto.{Crypto}
use provable_ai.Schema.{
  ProofV1, Signature, proof_dump, signature_dump, ledger_dump, to_sign_bytes, validate_signature,
  validate_hash_field,
}
use provable_ai.Storage.{Db}
use provable_ai.Storage.Append.{IsValid}
use provable_ai.Signer.{Signer}
use provable_ai.Verifier.{verify_ed25519}
use provable_ai.Package.{verify_ed25519_hex, recompute_entry_hash}
use provable_ai.Package.Parts.{is_str_refl}
use provable_ai.Package.Same.{recompute_entry_hash-SameValue}
use provable_ai.Package.Proof.{recompute_entry_hash-recompute_hash}
use provable_ai.Package.Signature.{verify_proof_signature}
use provable_ai.Engine.{Request, record_decision}
use provable_ai.Engine.Build.{IsSealed}
use provable_ai.Engine.Recorded.{record_decision-Outcome}
use provable_ai.Engine.Verified.{recorded}
use provable_ai.Engine.Archive.{read_same, read_text}
use provable_ai.Engine.Exported.{with_key, long_truthy}

signature_sizes :
    (sg : Signature)
    → validate_signature sg ≡ some sg
    → (length sg.value ≡ 128) × (length sg.public_key ≡ 64)
unfolding validate_signature validate_hash_field
signature_sizes sg h = (ground (arith, h), ground (arith, h))

dump-parts :
    (p : ProofV1)
    → (get (codes "signature") (obj end) (proof_dump p) ≡ some (signature_dump p.signature))
      × (get (codes "ledger") (obj end) (proof_dump p) ≡ some (ledger_dump p.ledger))
      × (get (codes "current_hash") (str []) (ledger_dump p.ledger)
          ≡ some (str p.ledger.current_hash))
      × (get (codes "key_id") null (signature_dump p.signature) ≡ some (str p.signature.key_id))
      × (get (codes "value") (str []) (signature_dump p.signature) ≡ some (str p.signature.value))
      × (get (codes "public_key") (str []) (signature_dump p.signature)
          ≡ some (str p.signature.public_key))
unfolding get lookup_field text_eq proof_dump ledger_dump signature_dump
dump-parts p = (refl, refl, refl, refl, refl, refl)

-- A signature over the bytes that the hash stands for, as this verifier tests it.
signed-hex :
    (c : Crypto) (p : ProofV1) (m : Bytes)
    → to_sign_bytes p ≡ some m
    → verify_ed25519 c p.signature.public_key m p.signature.value ≡ true
    → verify_ed25519_hex c
        (str p.signature.public_key)
        p.ledger.current_hash
        (str p.signature.value)
      ≡ true
unfolding verify_ed25519 verify_ed25519_hex to_sign_bytes
signed-hex c p m e h = rw e (with_key c _ _ _ h)

sealed-verdict :
    {c : Crypto} {prev : Text} {n : ℕ} {r : Request} {p : ProofV1} (w : Value)
    → IsSealed c prev n r p
    → SameValue (proof_dump p) w
    → verify_proof_signature c w none
      ≡ some (record { valid = true; hash_valid = true; sig_valid = true })
unfolding verify_proof_signature
sealed-verdict {c} {p = p} w h s =
    let (d0, d1, d2, d3, d4, d5) = dump-parts p in
    let (block, at_block, same_block) = read_same (codes "signature") (obj end) s d0 in
    let (ledger, at_ledger, same_ledger) = read_same (codes "ledger") (obj end) s d1 in
    let hash = p.ledger.current_hash in
    let computed : recompute_entry_hash c w ≡ some hash =
      sym (recompute_entry_hash-SameValue c s)
      ∙ recompute_entry_hash-recompute_hash c p hash h.hashed in
    let (size, key_size) = signature_sizes p.signature h.signature_fixed in
    rw at_block (
      rw (read_text (codes "key_id") null same_block d3) (
        rw at_ledger (
          rw (read_text (codes "current_hash") (str []) same_ledger d2) (
            rw computed (
              rw (read_text (codes "value") (str []) same_block d4) (
                rw (read_text (codes "public_key") (str []) same_block d5) (
                  rw (is_str_refl hash) (
                    rw (long_truthy p.signature.public_key 63 key_size)
                      (rw size (rw (signed-hex c p h.message h.sign_bytes h.signed) refl))))))))))

-- A proof that `record_decision` returned from valid tables passes verify_signature.py without a key
-- from outside, hash and signature, whatever the order of the entries of its dump.
pub record_decision-verify_proof_signature :
    {c : Crypto} (s : Signer c) (now : Text) (db : Db) (r : Request) (p : ProofV1) (w : Value)
    → IsValid db
    → (record_decision s now db r).1 ≡ ok p
    → SameValue (proof_dump p) w
    → verify_proof_signature c w none
      ≡ some (record { valid = true; hash_valid = true; sig_valid = true })
record_decision-verify_proof_signature s now db r p w v returned same_dump =
    let h =
      recorded db r p (record_decision s now db r) (record_decision-Outcome s now db r v)
        returned in
    sealed-verdict w h.sealed same_dump
