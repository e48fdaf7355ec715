-- ===== src/Text/Int.antt =====
-- int(s) for a text of ASCII characters: blanks around it, a sign, and digits that single
use provable_ai.Text.Decimal.{decimal, digits_from}
use provable_ai.Text.Hex.{strip_step, is_blank}
use provable_ai.Base.{◌≤◌, All, Bool-cases, ap, ltb, inl, inr, ◌/◌, ◌%◌, ◌∙◌}
-- underscores may part.
use provable_ai.Text.Decimal.{digits_from, decimal}
use provable_ai.Base.{
  ℕ, Option, suc, some, none, Bool, ◌∷◌, if◌then◌else◌, zero, [], ◌*◌, ◌==◌, false, ◌+◌, ◌-◌, true,
  leb, ◌&&◌, ◌≤◌, All, ◌≡◌, ◌<◌, refl, arith,
}
use Prim.Native.Nat.{ℕ, suc}
use provable_ai.Text.{Text}
use provable_ai.Text.Hex.{strip_left, strip_right}
use provable_ai.Base.Int.{ℤ, pos, negsuc}

read_digits : ℕ → Bool → Text → Option ℕ
read_digits acc after_digit [] = if after_digit then some acc else none
read_digits acc after_digit (c ∷ s) =
    let digit = read_digits (10 * acc + (c - 48)) true s in
    let underscore = read_digits acc false s in
    if leb 48 c && leb c 57 then digit else if c == 95 && after_digit then underscore else none

abbrev negated : ℕ → ℤ
negated zero = pos 0
negated (suc n) = negsuc n

abbrev positive : Option ℕ → Option ℤ
positive none = none
positive (some n) = some (pos n)

abbrev negative : Option ℕ → Option ℤ
negative none = none
negative (some n) = some (negated n)

read_signed : Text → Option ℤ
unfolding read_digits
read_signed [] = none
read_signed (c ∷ s) =
    if c == 45
    then negative (read_digits 0 false s)
    else if c == 43
    then positive (read_digits 0 false s)
    else positive (read_digits 0 false (c ∷ s))

-- `none` is its ValueError.
unfoldable pub read_int : Text → Option ℤ
unfolding read_signed strip_left strip_right
read_int s = read_signed (strip_left (strip_right s))

read_digits-digit :
    (acc d : ℕ) (flag : Bool) (s : Text)
    → d ≤ 9
    → read_digits acc flag ((48 + d) ∷ s) ≡ read_digits (10 * acc + d) true s
unfolding read_digits
read_digits-digit acc d flag s h =
    let low : leb 48 (48 + d) ≡ true = ground (arith, h) in
    let high : leb (48 + d) 57 ≡ true = ground (arith, h) in
    let value : 10 * acc + ((48 + d) - 48) ≡ 10 * acc + d = omega arith in
    rw low (rw high (ap (λ n. read_digits n true s) value))

-- The digits that `decimal` writes are read back.
read_digits-digits :
    (fuel n : ℕ) (acc : Text)
    → n < fuel
    → read_digits 0 false (digits_from fuel n acc) ≡ read_digits n true acc
unfolding read_digits digits_from
read_digits-digits zero n acc h = absurd (omega (arith, h))
read_digits-digits (suc fuel) n acc h = elim (Bool-cases (ltb n 10)) [
  | inl small ↦
      let value : 10 * 0 + n ≡ n = omega arith in
      let whole : read_digits 0 false ((48 + n) ∷ acc) ≡ read_digits n true acc =
        read_digits-digit 0 n false acc (ground (arith, small))
        ∙ ap (λ m. read_digits m true acc) value in
      rw small whole
  | inr large ↦
      let value : 10 * (n / 10) + n % 10 ≡ n = omega arith in
      rw large (
        read_digits-digits fuel (n / 10) ((48 + n % 10) ∷ acc) (ground (arith, h, large))
        ∙ (read_digits-digit (n / 10) (n % 10) true acc (omega arith)
            ∙ ap (λ m. read_digits m true acc) value))
]

abbrev IsDigitChar : ℕ → Type 0
IsDigitChar c = (48 ≤ c) × (c ≤ 57)

digits_from-digits :
    (fuel n : ℕ) (acc : Text) → All IsDigitChar acc → All IsDigitChar (digits_from fuel n acc)
unfolding digits_from
digits_from-digits zero n acc h = h
digits_from-digits (suc fuel) n acc h = elim (Bool-cases (ltb n 10)) [
  | inl small ↦ rw small (ground (arith, small), h)
  | inr large ↦ rw large (digits_from-digits fuel (n / 10) ((48 + n % 10) ∷ acc) (omega arith, h))
]

strip-kept : (c : ℕ) (s : Text) → is_blank c ≡ false → strip_step c s ≡ c ∷ s
strip-kept c [] h = rw h refl
strip-kept c (d ∷ s) h = refl

strip_right-digits : (s : Text) → All IsDigitChar s → strip_right s ≡ s
unfolding strip_right
strip_right-digits [] h = refl
strip_right-digits (c ∷ s) (hc, h) =
    let black : is_blank c ≡ false = ground (arith, hc) in
    rw (strip_right-digits s h) (strip-kept c s black)

read_signed-digits :
    (s : Text) → All IsDigitChar s → read_signed (strip_left s) ≡ positive (read_digits 0 false s)
unfolding read_signed strip_left read_digits
read_signed-digits [] h = refl
read_signed-digits (c ∷ s) (hc, h) =
    let black : is_blank c ≡ false = ground (arith, hc) in
    let no_minus : (c == 45) ≡ false = ground (arith, hc) in
    let no_plus : (c == 43) ≡ false = ground (arith, hc) in rw black (rw no_minus (rw no_plus refl))

pub read_int-decimal : (n : ℕ) → read_int (decimal n) ≡ some (pos n)
unfolding read_int decimal read_digits
read_int-decimal n =
    rw (strip_right-digits (digits_from (suc n) n []) (digits_from-digits (suc n) n [] tt)) (
      rw (read_signed-digits (digits_from (suc n) n []) (digits_from-digits (suc n) n [] tt))
        (rw (read_digits-digits (suc n) n [] (omega arith)) refl))
