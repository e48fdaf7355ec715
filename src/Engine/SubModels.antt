-- ===== src/Engine/SubModels.antt =====
-- What holds of the sub-models that step 5 of record_decision builds.
use provable_ai.Schema.Fixed.{
  validate_hash_field_digits, validate_determinism_fixed, validate_decision_fixed,
  validate_context_fixed, validate_governance_fixed,
}
use provable_ai.Schema.{validate_hash_field}
use provable_ai.Base.{Option, ◌≡◌, some, arith, none, inl, inr, subst, sym, ap, ◌∙◌}
use provable_ai.Json.Encode.{dump_bytes}
use provable_ai.Canonical.Hashes.{IsDigest, hexdigest-IsDigest}
use provable_ai.Text.{Text}
use provable_ai.Base.Result.{Result, ok, >>=-eq-ok, err, Result-cases}
use provable_ai.Engine.{
  EngineError, hash_raw, Request, build_parts, Crypto, CanonicalError, Parts, Option,
  lift_canonical, Value, validate_decision, or_raise, validate_context, schema_error,
  validate_governance, raw_decision, validate_determinism, raw_context, raw_governance, hexdigest,
  calls_hash, raw_determinism, Determinism,
}

pub or_raise-eq-ok {ℓ} :
    {A : Type ℓ} (e : EngineError) (o : Option A) {a : A} → or_raise e o ≡ ok a → o ≡ some a
or_raise-eq-ok e none h = cc
or_raise-eq-ok e (some a) h = ground arith

pub lift_canonical-eq-ok {ℓ} :
    {A : Type ℓ} (r : Result CanonicalError A) {a : A} → lift_canonical r ≡ ok a → r ≡ ok a
lift_canonical-eq-ok (ok a) h = ground arith
lift_canonical-eq-ok (err e) h = cc

pub hash_raw-IsDigest : (c : Crypto) (v : Value) {t : Text} → hash_raw c v ≡ ok t → IsDigest t
unfolding hash_raw
hash_raw-IsDigest c v {t} h = elim (Result-cases (dump_bytes v)) [
  | inr (x, refused) ↦ absurd (ground arith)
  | inl (b, e) ↦
      let same : hexdigest c b ≡ t = ground arith in subst IsDigest same (hexdigest-IsDigest c b)
]

pub digest-fixed : (t : Text) → IsDigest t → validate_hash_field 64 t ≡ some t
digest-fixed t (digits, size) = validate_hash_field_digits 64 t (omega arith) digits size

-- The sub-models pass their validators again, and they say what the request says.
pub record IsParts (c : Crypto) (r : Request) (parts : Parts) : Type 0 where
  pub decision : validate_decision parts.decision ≡ some parts.decision
  pub context : validate_context parts.decision_context ≡ some parts.decision_context
  pub governance : validate_governance parts.governance ≡ some parts.governance
  pub determinism : validate_determinism parts.determinism ≡ some parts.determinism
  pub mode : parts.determinism.mode ≡ r.determinism_mode
  pub seed : parts.determinism.seed ≡ r.random_seed
  pub calls : calls_hash c r ≡ ok parts.determinism.external_calls_hash

pub build_parts-IsParts :
    (c : Crypto) (r : Request) {parts : Parts} → build_parts c r ≡ ok parts → IsParts c r parts
unfolding build_parts
build_parts-IsParts c r {parts} h =
    let (d, ed, h1) = >>=-eq-ok (or_raise schema_error (validate_decision (raw_decision r))) _ h in
    let (i, ei, h2) = >>=-eq-ok (hash_raw c r.raw_inputs) _ h1 in
    let (dc, edc, h3) =
      >>=-eq-ok (or_raise schema_error (validate_context (raw_context r i))) _ h2 in
    let (g, eg, h4) =
      >>=-eq-ok (or_raise schema_error (validate_governance (raw_governance r))) _ h3 in
    let (calls, ecalls, h5) = >>=-eq-ok (calls_hash c r) _ h4 in
    let (det, edet, h6) =
      >>=-eq-ok (or_raise schema_error (validate_determinism (raw_determinism r calls))) _ h5 in
    let fixed_det =
      validate_determinism_fixed (raw_determinism r calls)
        (or_raise-eq-ok schema_error (validate_determinism (raw_determinism r calls)) edet) in
    let built : IsParts c r
        (record { decision = d; decision_context = dc; governance = g; determinism = det }) =
      record {
        decision =
            (validate_decision_fixed (raw_decision r)
              (or_raise-eq-ok schema_error (validate_decision (raw_decision r)) ed)).1;
        context =
            (validate_context_fixed (raw_context r i)
              (digest-fixed i (hash_raw-IsDigest c r.raw_inputs ei))
              (or_raise-eq-ok schema_error (validate_context (raw_context r i)) edc)).1;
        governance =
            (validate_governance_fixed (raw_governance r)
              (or_raise-eq-ok schema_error (validate_governance (raw_governance r)) eg)).1;
        determinism = fixed_det.1;
        mode = sym (ap (λ (x : Determinism). x.mode) fixed_det.0);
        seed = sym (ap (λ (x : Determinism). x.seed) fixed_det.0);
        calls = ecalls ∙ ap (λ (x : Determinism). ok x.external_calls_hash) fixed_det.0;
      } in
    let same : record { decision = d; decision_context = dc; governance = g; determinism = det }
        ≡ parts =
      ground arith in
    subst (IsParts c r) same built
