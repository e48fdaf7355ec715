-- ===== src/Schema/Fixed.antt =====
-- Validators that return leave alone what they returned.
use provable_ai.Text.Hex.{IsHexDigit, is_int16_digits}
use provable_ai.Base.{
  Bool, ℕ, ◌<◌, All, ◌≡◌, some, length, ◌∷◌, true, arith, subst, false, [], ◌∙◌, refl, ap, sym,
  Option,
}
use provable_ai.Text.{lower}
use provable_ai.Schema.{
  validate_context, validate_decision, validate_governance, validate_determinism, validate_ledger,
  validate_hash_field, Ledger, require, Governance, Text, DecisionContext, Decision, Determinism,
  Signature, validate_signature,
}

pub require-eq-some {ℓ} :
    {A : Type ℓ} (b : Bool) (a : A) {a' : A} → require b a ≡ some a' → (b ≡ true) × (a ≡ a')
require-eq-some true a h = (refl, ground arith)
require-eq-some false a h = cc

pub lower_digits : (s : Text) → All IsHexDigit s → lower s ≡ s
unfolding lower
lower_digits [] h = refl
lower_digits (c ∷ s) (hc, h) = ground (arith, lower_digits s h)

-- A lowercase hexadecimal text of the right length passes unchanged.
pub validate_hash_field_digits :
    (n : ℕ) (s : Text) → 0 < n → All IsHexDigit s → length s ≡ n → validate_hash_field n s ≡ some s
unfolding validate_hash_field
validate_hash_field_digits n [] pos_n h l = absurd (omega arith)
validate_hash_field_digits n (c ∷ s) pos_n h l =
    ground (arith, is_int16_digits c s h, lower_digits (c ∷ s) h)

abbrev fixed_point {ℓ} :
    {A : Type ℓ} (f : A → Option A) {a a' : A} → f a ≡ some a' → a ≡ a' → f a' ≡ some a'
fixed_point f {a} {a'} h same = subst (λ x. f x ≡ some x) same (h ∙ ap some (sym same))

pub validate_decision_fixed :
    (d : Decision) {d' : Decision}
    → validate_decision d ≡ some d'
    → (d ≡ d') × (validate_decision d' ≡ some d')
validate_decision_fixed d {d'} h =
    let same : d ≡ d' = unfold validate_decision in (require-eq-some _ d h).1 in
    (same, fixed_point validate_decision h same)

pub validate_governance_fixed :
    (g : Governance) {g' : Governance}
    → validate_governance g ≡ some g'
    → (g ≡ g') × (validate_governance g' ≡ some g')
validate_governance_fixed g {g'} h =
    let same : g ≡ g' = unfold validate_governance in (require-eq-some _ g h).1 in
    (same, fixed_point validate_governance h same)

pub validate_determinism_fixed :
    (d : Determinism) {d' : Determinism}
    → validate_determinism d ≡ some d'
    → (d ≡ d') × (validate_determinism d' ≡ some d')
validate_determinism_fixed d {d'} h =
    let same : d ≡ d' = unfold validate_determinism in (require-eq-some _ d h).1 in
    (same, fixed_point validate_determinism h same)

-- With a digest as inputs_hash, a validated context is the one that was given.
pub validate_context_fixed :
    (d : DecisionContext) {d' : DecisionContext}
    → validate_hash_field 64 d.inputs_hash ≡ some d.inputs_hash
    → validate_context d ≡ some d'
    → (d ≡ d') × (validate_context d' ≡ some d')
validate_context_fixed d {d'} e h =
    let same : d ≡ d' = unfold validate_context in ground (arith, e, h) in
    (same, fixed_point validate_context h same)

-- A ledger part with a digest as its hash, and whose previous_hash was not changed, is the one that
-- was given.
pub validate_ledger_fixed :
    (l : Ledger) {l' : Ledger}
    → validate_hash_field 64 l.current_hash ≡ some l.current_hash
    → l'.previous_hash ≡ l.previous_hash
    → validate_ledger l ≡ some l'
    → (l ≡ l') × (validate_ledger l' ≡ some l')
validate_ledger_fixed l {l'} e p h =
    let same : l ≡ l' = unfold validate_ledger in ground (arith, e, h, p) in
    (same, fixed_point validate_ledger h same)

pub validate_signature_fixed :
    (s : Signature) {s' : Signature}
    → validate_hash_field 64 s.public_key ≡ some s.public_key
    → validate_hash_field 128 s.value ≡ some s.value
    → validate_signature s ≡ some s'
    → (s ≡ s') × (validate_signature s' ≡ some s')
validate_signature_fixed s {s'} e f h =
    let same : s ≡ s' = unfold validate_signature in ground (arith, e, f, h) in
    (same, fixed_point validate_signature h same)
