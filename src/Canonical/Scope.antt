-- ===== src/Canonical/Scope.antt =====
-- What is hashed for a decision: the six fields of `_REQUIRED_HASH_FIELDS` and nothing else.
use provable_ai.Text.{text_eq_iff, text_eq, has_text}
use provable_ai.Canonical.Accepts.{
  validate_payload-IsCanonical, FieldsCanonical, IsCanonical, refused-none,
}
use provable_ai.Base.{
  ℕ, ◌≡◌, [], false, ◌↔◌, arith, List, true, All, ◌∷◌, refl, Bool, if◌then◌else◌, sym, ◌∙◌, map,
  some, Option-cases, inl, inr, ◌⊎◌,
}
use provable_ai.Canonical.{
  build_hash_payload, Text, missing, required_hash_fields, ℕ, keys, ok, validate_payload, obj,
  has_unknown, hash_fields, ◌>>◌, present, has_key, text_eq, has_text, validate_hash_payload, Key,
  text_key, other_key, excluded_hash_fields, Result, CanonicalError, refuse_if_any, missing_fields,
  excluded_fields, err, unknown_fields, codes, int, pos, str, Segment, non_canonical, refused_value,
}
use provable_ai.Json.{Fields, Value, null}
use provable_ai.Json.Lookup.{lookup_field}

-- The keys of a payload are six texts and no others: each required field stands among them, and
-- each of them is a required field.
abbrev pub HasScope : Fields → Type 0
HasScope fs =
    (missing required_hash_fields (keys fs) ≡ [])
    × (has_unknown required_hash_fields (keys fs) ≡ false)

has_key-unknown :
    (t : Text) (ts : List Text) (ks : List Key)
    → has_key t ks ≡ true
    → has_text t ts ≡ false
    → has_unknown ts ks ≡ true
unfolding has_key has_unknown
has_key-unknown t ts [] h n = cc
has_key-unknown t ts (text_key k ∷ ks) h n =
    ground (arith, text_eq_iff t k, has_key-unknown t ts ks)
has_key-unknown t ts (other_key k ∷ ks) h n = refl

-- A text that is not required is not among the keys if none of these is unknown.
not_present :
    (t : Text) (ks : List Key)
    → has_text t required_hash_fields ≡ false
    → has_unknown required_hash_fields ks ≡ false
    → has_key t ks ≡ false
not_present t ks n h = ground (arith, has_key-unknown t required_hash_fields ks)

present-none :
    (ts : List Text) (ks : List Key)
    → All (λ t. has_text t required_hash_fields ≡ false) ts
    → has_unknown required_hash_fields ks ≡ false
    → present ts ks ≡ []
unfolding present
present-none [] ks a h = refl
present-none (t ∷ ts) ks a h = rw (not_present t ks a.0 h) (present-none ts ks a.1 h)

excluded_not_required : All (λ t. has_text t required_hash_fields ≡ false) excluded_hash_fields
unfolding has_text text_eq
excluded_not_required = ground arith

gates :
    (m e : List Text) (u : Bool) (r : Result CanonicalError (Unit {0}))
    → ((refuse_if_any missing_fields m
          >> (refuse_if_any excluded_fields e >> ((if u then err unknown_fields else ok tt) >> r)))
        ≡ ok tt)
      ↔ ((m ≡ []) × (e ≡ []) × (u ≡ false) × (r ≡ ok tt))
gates [] [] false r = ground arith
gates [] [] true r = ground arith
gates [] (t ∷ e) u r = ground arith
gates (t ∷ m) e u r = ground arith

validate_hash_payload_step :
    (fs : Fields)
    → validate_hash_payload (obj fs) ≡ (
        refuse_if_any missing_fields (missing required_hash_fields (keys fs))
        >> (refuse_if_any excluded_fields (present excluded_hash_fields (keys fs))
            >> ((if has_unknown required_hash_fields (keys fs) then err unknown_fields else ok tt)
                >> validate_payload (obj fs))))
unfolding validate_hash_payload
validate_hash_payload_step fs = refl

-- A dict whose keys are the six required fields, each present and no other, with canonical values.
abbrev pub IsHashPayload : Value → Type 0
IsHashPayload (obj fs) = HasScope fs × FieldsCanonical fs
IsHashPayload _ = ⊥

-- `validate_hash_payload` accepts exactly the dicts whose keys are the six required fields, each
-- present and no other, and whose values `_validate_payload` accepts.
pub validate_hash_payload_lem : (v : Value) → (validate_hash_payload v ≡ ok tt) ↔ IsHashPayload v
validate_hash_payload_lem (obj fs) =
    let ks = keys fs in
    let gate =
      gates (missing required_hash_fields ks) (present excluded_hash_fields ks)
        (has_unknown required_hash_fields ks) (validate_payload (obj fs)) in
    let payload = validate_payload-IsCanonical (obj fs) in
    (
      λ h.
          let (m, e, u, r) = gate.0 (sym (validate_hash_payload_step fs) ∙ h) in
          ((m, u), payload.0 r),
      λ p.
          let ((m, u), c) = p in
          validate_hash_payload_step fs
          ∙ gate.1
              (m, present-none excluded_hash_fields ks excluded_not_required u, u, payload.1 c),
    )
validate_hash_payload_lem null = unfold validate_hash_payload in ((λ h. cc), (λ p. absurd p))
validate_hash_payload_lem _ = unfold validate_hash_payload in ((λ h. cc), (λ p. absurd p))

build_hash_payload_step :
    (d dc g det : Value) (previous_hash : Text) (sequence_id : ℕ)
    → build_hash_payload d dc g det previous_hash sequence_id ≡ (
        validate_payload (obj (hash_fields d dc g det previous_hash sequence_id))
        >> ok (obj (hash_fields d dc g det previous_hash sequence_id)))
unfolding build_hash_payload text_eq
build_hash_payload_step d dc g det previous_hash sequence_id = refl

-- A dict with six entries and no others, each with its value.
abbrev pub IsScope : Value → Value → Value → Value → Text → ℕ → Fields → Type 0
IsScope d dc g det previous_hash sequence_id fs =
    (keys fs
      ≡ map text_key (
          codes "decision"
          ∷ codes "decision_context"
          ∷ codes "governance"
          ∷ codes "determinism"
          ∷ codes "previous_hash"
          ∷ codes "sequence_id"
          ∷ []))
    × (lookup_field (codes "decision") fs ≡ some d)
    × (lookup_field (codes "decision_context") fs ≡ some dc)
    × (lookup_field (codes "governance") fs ≡ some g)
    × (lookup_field (codes "determinism") fs ≡ some det)
    × (lookup_field (codes "previous_hash") fs ≡ some (str previous_hash))
    × (lookup_field (codes "sequence_id") fs ≡ some (int (pos sequence_id)))

abbrev pub PartsCanonical : Value → Value → Value → Value → Type 0
PartsCanonical d dc g det = IsCanonical d × IsCanonical dc × IsCanonical g × IsCanonical det

hash_fields-IsScope :
    (d dc g det : Value) (previous_hash : Text) (sequence_id : ℕ)
    → IsScope d dc g det previous_hash sequence_id
        (hash_fields d dc g det previous_hash sequence_id)
unfolding keys lookup_field text_eq
hash_fields-IsScope d dc g det previous_hash sequence_id =
    (refl, refl, refl, refl, refl, refl, refl)

validate_payload-refused :
    (v : Value) {path : List Segment}
    → refused_value [] v ≡ some path
    → (validate_payload v ≡ err (non_canonical path)) × ¬ IsCanonical v
unfolding validate_payload
validate_payload-refused v e = (ground (arith, e), λ h. cc (e, (refused-none [] v).1 h))

-- `build_hash_payload` makes a dict with the keys decision, decision_context, governance,
-- determinism, previous_hash and sequence_id and no others, each with the argument of that name. It
-- returns this dict if the four parts are made of canonical values; otherwise it raises
-- CanonicalJsonError. It has no other outcome: its tests for missing, excluded and unknown fields
-- never fail.
pub build_hash_payload_lem :
    (d dc g det : Value) (previous_hash : Text) (sequence_id : ℕ)
    → (fs : Fields) × IsScope d dc g det previous_hash sequence_id fs
      × (((build_hash_payload d dc g det previous_hash sequence_id ≡ ok (obj fs))
            × PartsCanonical d dc g det)
          ⊎ ((path : List Segment) × (build_hash_payload d dc g det previous_hash sequence_id
                ≡ err (non_canonical path))
              × ¬ PartsCanonical d dc g det))
build_hash_payload_lem d dc g det previous_hash sequence_id =
    let fs = hash_fields d dc g det previous_hash sequence_id in
    let step = build_hash_payload_step d dc g det previous_hash sequence_id in
    (
      fs,
      hash_fields-IsScope d dc g det previous_hash sequence_id,
      elim (Option-cases (refused_value [] (obj fs))) [
        | inl accepted ↦
            let canonical = (refused-none [] (obj fs)).0 accepted in
            let valid = (validate_payload-IsCanonical (obj fs)).1 canonical in
            inl (
              step ∙ rw valid refl,
              (canonical.0, canonical.1.0, canonical.1.1.0, canonical.1.1.1.0),
            )
        | inr (path, refused) ↦
            let (raised, not_canonical) = validate_payload-refused (obj fs) refused in
            inr (
              path,
              step ∙ rw raised refl,
              λ (a, b, e, f). not_canonical (a, (b, (e, (f, (tt, (tt, tt)))))),
            )
      ],
    )
