-- ===== src/Engine/Build.antt =====
-- What holds of a proof that steps 5 to 8 of record_decision built.
use provable_ai.Verifier.{recompute_hash, verify_ed25519}
use provable_ai.Schema.Fixed.{
  validate_hash_field_digits, require-eq-some, validate_ledger_fixed, validate_signature_fixed,
}
use provable_ai.Schema.{to_hash_payload, to_sign_bytes, validate_proof}
use provable_ai.Base.{◌≡◌, some, arith, subst, sym, ap, ℕ, true, refl, ◌∙◌}
use provable_ai.Canonical.Hashes.{
  IsDigest, hexdigest-IsDigest, canonical_hash-hexdigest, fromhex-hexdigest,
}
use provable_ai.Text.{Text}
use provable_ai.Base.Result.{ok, >>=-eq-ok}
use provable_ai.Engine.{
  Request, build_parts, Crypto, Parts, lift_canonical, Value, or_raise, schema_error, calls_hash,
  sign_text, hash_parts, Signer, ProofV1, build_hash_payload, decision_dump, Bytes, context_dump,
  fromhex, validate_ledger, governance_dump, not_signed, determinism_dump, raw_ledger,
  validate_signature, canonical_hash, raw_signature, own_fields_ok, joined, build_proof, Signature,
  Ledger,
}
use provable_ai.Engine.SubModels.{
  or_raise-eq-ok, lift_canonical-eq-ok, digest-fixed, build_parts-IsParts, IsParts,
}

hash_parts-eq-ok :
    (c : Crypto) (parts : Parts) (prev : Text) (n : ℕ) {hash : Text}
    → hash_parts c parts prev n ≡ ok hash
    → (payload : Value) × (build_hash_payload
          (decision_dump parts.decision)
          (context_dump parts.decision_context)
          (governance_dump parts.governance)
          (determinism_dump parts.determinism)
          prev
          n
        ≡ ok payload)
      × (canonical_hash c payload ≡ ok hash)
unfolding hash_parts
hash_parts-eq-ok c parts prev n h =
    let (payload, built, hashed) = >>=-eq-ok (lift_canonical _) _ h in
    (payload, lift_canonical-eq-ok _ built, lift_canonical-eq-ok _ hashed)

sign_text-eq-ok :
    {c : Crypto} (s : Signer c) (hash : Text) (m : Bytes) {value : Text}
    → fromhex hash ≡ some m
    → sign_text s hash ≡ ok value
    → s.sign_hash m ≡ some value
unfolding sign_text
sign_text-eq-ok s hash m e h = or_raise-eq-ok not_signed (s.sign_hash m) (ground (arith, e, h))

-- A proof that verifies at place `n` behind the hash `prev`, but for its determinism fields, and
-- that its own validators leave as it is.
pub record IsSealed (c : Crypto) (prev : Text) (n : ℕ) (r : Request) (p : ProofV1) : Type 0 where
  pub hashed : recompute_hash c p ≡ ok p.ledger.current_hash
  pub message : Bytes
  pub sign_bytes : to_sign_bytes p ≡ some message
  pub signed : verify_ed25519 c p.signature.public_key message p.signature.value ≡ true
  pub sequence : p.ledger.sequence_id ≡ n
  pub previous : p.ledger.previous_hash ≡ prev
  pub validated : validate_proof p ≡ some p
  pub signature_fixed : validate_signature p.signature ≡ some p.signature
  pub mode : p.determinism.mode ≡ r.determinism_mode
  pub seed : p.determinism.seed ≡ r.random_seed
  pub calls : calls_hash c r ≡ ok p.determinism.external_calls_hash
  pub instance_id : p.instance_id ≡ r.instance_id

joined-IsSealed :
    {c : Crypto} (s : Signer c) (now prev : Text) (n : ℕ) (r : Request) (parts : Parts)
    (hash value : Text)
    → IsParts c r parts
    → hash_parts c parts prev n ≡ ok hash
    → sign_text s hash ≡ ok value
    → validate_ledger (raw_ledger now prev n hash) ≡ some (raw_ledger now prev n hash)
    → validate_signature (raw_signature s value) ≡ some (raw_signature s value)
    → own_fields_ok (joined r parts (raw_ledger now prev n hash) (raw_signature s value)) ≡ true
    → IsSealed c prev n r (joined r parts (raw_ledger now prev n hash) (raw_signature s value))
unfolding recompute_hash to_hash_payload to_sign_bytes validate_proof
joined-IsSealed {c} s now prev n r parts hash value h eh ev el es own =
    let (payload, built, hashed) = hash_parts-eq-ok c parts prev n eh in
    let (b, _, digest) = canonical_hash-hexdigest c payload hash hashed in
    let readable : fromhex hash ≡ some (c.sha256 b) = rw digest (fromhex-hexdigest c b) in
    record {
      hashed = rw built hashed;
      message = c.sha256 b;
      sign_bytes = readable;
      signed =
          s.sign_hash-verifies (c.sha256 b) value (c.sha256-bytes b)
            (sign_text-eq-ok s hash (c.sha256 b) readable ev);
      sequence = refl;
      previous = refl;
      validated =
          rw own (
            rw h.decision (rw h.context (rw h.governance (rw h.determinism (rw el (rw es refl))))));
      signature_fixed = es;
      mode = h.mode;
      seed = h.seed;
      calls = h.calls;
      instance_id = refl;
    }

hash_parts-IsDigest :
    (c : Crypto) (parts : Parts) (prev : Text) (n : ℕ) {hash : Text}
    → hash_parts c parts prev n ≡ ok hash
    → (b : Bytes) × (fromhex hash ≡ some b) × IsDigest hash
hash_parts-IsDigest c parts prev n {hash} h =
    let (payload, _, hashed) = hash_parts-eq-ok c parts prev n h in
    let (b, _, e) = canonical_hash-hexdigest c payload hash hashed in
    rw e (c.sha256 b, fromhex-hexdigest c b, hexdigest-IsDigest c b)

raw_signature_fixed :
    {c : Crypto} (s : Signer c) (m : Bytes) {value : Text} {sg : Signature}
    → s.sign_hash m ≡ some value
    → validate_signature (raw_signature s value) ≡ some sg
    → (raw_signature s value ≡ sg) × (validate_signature sg ≡ some sg)
raw_signature_fixed s m {value} h e =
    let (digits, size) = s.sign_hash-hex m value h in
    validate_signature_fixed (raw_signature s value)
      (validate_hash_field_digits 64 s.public_key (omega arith) s.public_key-hex.0
        s.public_key-hex.1)
      (validate_hash_field_digits 128 value (omega arith) digits size) e

finish-IsSealed :
    {c : Crypto} (s : Signer c) (now prev : Text) (n : ℕ) (r : Request) (parts : Parts)
    (hash value : Text) (l : Ledger) (sg : Signature)
    → IsParts c r parts
    → hash_parts c parts prev n ≡ ok hash
    → sign_text s hash ≡ ok value
    → validate_ledger (raw_ledger now prev n hash) ≡ some l
    → validate_signature (raw_signature s value) ≡ some sg
    → own_fields_ok (joined r parts l sg) ≡ true
    → l.previous_hash ≡ prev
    → IsSealed c prev n r (joined r parts l sg)
finish-IsSealed {c} s now prev n r parts hash value l sg h eh ev el es own same_prev =
    let (b, readable, digest) = hash_parts-IsDigest c parts prev n eh in
    let (same_l, fixed_l) =
      validate_ledger_fixed (raw_ledger now prev n hash) (digest-fixed hash digest) same_prev el in
    let (same_sg, fixed_sg) = raw_signature_fixed s b (sign_text-eq-ok s hash b readable ev) es in
    let sealed =
      joined-IsSealed s now prev n r parts hash value h eh ev (el ∙ ap some (sym same_l))
        (es ∙ ap some (sym same_sg)) own in
    subst (IsSealed c prev n r)
      (ap (λ x. joined r parts x (raw_signature s value)) same_l
        ∙ ap (λ x. joined r parts l x) same_sg)
      sealed

-- A proof that was built for a hash that the validators left as it is.
pub build_proof-IsSealed :
    {c : Crypto} (s : Signer c) (now prev : Text) (n : ℕ) (r : Request) {p : ProofV1}
    → build_proof s now prev n r ≡ ok p
    → p.ledger.previous_hash ≡ prev
    → IsSealed c prev n r p
unfolding build_proof
build_proof-IsSealed {c} s now prev n r {p} h same_prev =
    let (parts, eparts, h1) = >>=-eq-ok (build_parts c r) _ h in
    let (hash, ehash, h2) = >>=-eq-ok (hash_parts c parts prev n) _ h1 in
    let (value, evalue, h3) = >>=-eq-ok (sign_text s hash) _ h2 in
    let (l, el, h4) =
      >>=-eq-ok (or_raise schema_error (validate_ledger (raw_ledger now prev n hash))) _ h3 in
    let (sg, esg, h5) =
      >>=-eq-ok (or_raise schema_error (validate_signature (raw_signature s value))) _ h4 in
    let (own, same) =
      require-eq-some (own_fields_ok (joined r parts l sg)) (joined r parts l sg)
        (or_raise-eq-ok schema_error _ h5) in
    let kept : l.previous_hash ≡ prev =
      ap (λ (x : ProofV1). x.ledger.previous_hash) same ∙ same_prev in
    subst (IsSealed c prev n r) same (
      finish-IsSealed s now prev n r parts hash value l sg (build_parts-IsParts c r eparts) ehash
        evalue (or_raise-eq-ok schema_error (validate_ledger (raw_ledger now prev n hash)) el)
        (or_raise-eq-ok schema_error (validate_signature (raw_signature s value)) esg) own kept)

pub build_proof-instance_id :
    {c : Crypto} (s : Signer c) (now prev : Text) (n : ℕ) (r : Request) {p : ProofV1}
    → build_proof s now prev n r ≡ ok p
    → p.instance_id ≡ r.instance_id
unfolding build_proof
build_proof-instance_id {c} s now prev n r {p} h =
    let (parts, _, h1) = >>=-eq-ok (build_parts c r) _ h in
    let (hash, _, h2) = >>=-eq-ok (hash_parts c parts prev n) _ h1 in
    let (value, _, h3) = >>=-eq-ok (sign_text s hash) _ h2 in
    let (l, _, h4) =
      >>=-eq-ok (or_raise schema_error (validate_ledger (raw_ledger now prev n hash))) _ h3 in
    let (sg, _, h5) =
      >>=-eq-ok (or_raise schema_error (validate_signature (raw_signature s value))) _ h4 in
    let (_, same) =
      require-eq-some (own_fields_ok (joined r parts l sg)) (joined r parts l sg)
        (or_raise-eq-ok schema_error _ h5) in
    sym (ap (λ (x : ProofV1). x.instance_id) same)
