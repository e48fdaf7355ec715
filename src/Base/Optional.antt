-- ===== src/Base/Optional.antt =====
-- Steps that may give nothing, in sequence.
use provable_ai.Base.{Option, none, some, ◌≡◌, refl}

infixl 5 ◌>>=◌
abbrev pub ◌>>=◌ {ℓ κ} : {A : Type ℓ} {B : Type κ} → Option A → (A → Option B) → Option B
found >>= next = elim found [ none ↦ none | some a ↦ next a ]

-- A chain gives something where its first step does and the next one does.
pub >>=-eq-some {ℓ κ} :
    {A : Type ℓ} {B : Type κ} (first : Option A) (next : A → Option B) {value : B}
    → first >>= next ≡ some value
    → (a : A) × (first ≡ some a) × (next a ≡ some value)
>>=-eq-some none next found = cc
>>=-eq-some (some a) next found = (a, refl, found)
