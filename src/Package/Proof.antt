-- ===== src/Package/Proof.antt =====
-- The dump of a ProofV1 as an entry of a package.
use provable_ai.Base.{some, ◌≡◌, refl, arith, ◌∙◌, subst}
use provable_ai.Base.Result.{ok, >>=-eq-ok}
use provable_ai.Text.{Text, text_eq}
use provable_ai.Json.{Value, str, int}
use provable_ai.Json.Lookup.{get, lookup_field}
use provable_ai.Canonical.{
  canonical_hash, canonical_encode, build_hash_payload, validate_hash_payload, validate_payload,
}
use provable_ai.Canonical.Encodable.{lift_encode-ok}
use provable_ai.Json.Encode.{dump_bytes}
use provable_ai.Schema.{
  ProofV1, proof_dump, ledger_dump, to_hash_payload, decision_dump, context_dump, governance_dump,
  determinism_dump,
}
use provable_ai.Verifier.{recompute_hash}
use provable_ai.Crypto.{Crypto}
use provable_ai.Package.{recompute_entry_hash, dumped_hash, hash_content, pos}
use provable_ai.Package.Parts.{IsEntry}

-- What to_hash_payload makes is what `_recompute_hash` reads from the dump.
abbrev content_of : ProofV1 → Value
content_of p =
    hash_content (decision_dump p.decision) (context_dump p.decision_context)
      (governance_dump p.governance) (determinism_dump p.determinism) (str p.ledger.previous_hash)
      (int (pos p.ledger.sequence_id))

dump-content :
    (c : Crypto) (p : ProofV1)
    → recompute_entry_hash c (proof_dump p) ≡ dumped_hash c (content_of p)
unfolding recompute_entry_hash get lookup_field text_eq proof_dump ledger_dump
dump-content c p = refl

payload-content :
    (p : ProofV1) {payload : Value} → to_hash_payload p ≡ ok payload → payload ≡ content_of p
unfolding to_hash_payload build_hash_payload
payload-content p h =
    let (_, _, h1) = >>=-eq-ok (validate_hash_payload (content_of p)) _ h in ground (arith, h1)

hash-dumped :
    (c : Crypto) (v : Value) {h : Text} → canonical_hash c v ≡ ok h → dumped_hash c v ≡ some h
unfolding canonical_hash canonical_encode dumped_hash
hash-dumped c v e =
    let (b, e1, e2) = >>=-eq-ok (canonical_encode v) _ e in
    let (_, _, e3) = >>=-eq-ok (validate_payload v) _ e1 in
    let bytes = lift_encode-ok (dump_bytes v) e3 in rw bytes (ground (arith, e2))

-- The hash that the package verifiers recompute from the dump of a proof is the one that verifier.py
-- recomputes from the proof itself.
pub recompute_entry_hash-recompute_hash :
    (c : Crypto) (p : ProofV1) (h : Text)
    → recompute_hash c p ≡ ok h
    → recompute_entry_hash c (proof_dump p) ≡ some h
unfolding recompute_hash
recompute_entry_hash-recompute_hash c p h e =
    let (payload, built, hashed) = >>=-eq-ok (to_hash_payload p) _ e in
    dump-content c p
    ∙ hash-dumped c (content_of p)
        (subst (λ v. canonical_hash c v ≡ ok h) (payload-content p built) hashed)

-- The dump of a proof that stores its own hash is an entry behind its previous hash.
pub dump-IsEntry :
    (c : Crypto) (p : ProofV1)
    → recompute_hash c p ≡ ok p.ledger.current_hash
    → IsEntry c p.ledger.previous_hash p.ledger.current_hash (proof_dump p)
unfolding get lookup_field text_eq proof_dump ledger_dump
dump-IsEntry c p e = record {
  block = ledger_dump p.ledger;
  read = refl;
  stored = refl;
  previous = refl;
  computed = recompute_entry_hash-recompute_hash c p p.ledger.current_hash e;
}
