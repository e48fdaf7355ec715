-- ===== src/Text/Hex.antt =====
-- bytes.hex(), bytes.fromhex(s) and int(s, 16).
use provable_ai.Base.{
  ℕ, ◌+◌, ◌-◌, ◌*◌, ◌/◌, ◌%◌, Bool, true, false, ◌&&◌, ◌||◌, Option, none, some, List, [], ◌∷◌,
  ◌==◌, leb, ltb, if◌then◌else◌, ◌≤◌, not, All, length, ◌<◌, arith, ◌⊎◌, ◌≡◌, refl, ◌∙◌, ap, suc,
  sym, zero,
}

abbrev pub hex_digit : ℕ → ℕ
hex_digit n = if ltb n 10 then 48 + n else 87 + n

-- b.hex(), two lowercase digits for each byte
unfoldable pub hex : List ℕ → List ℕ
hex [] = []
hex (b ∷ bs) = hex_digit (b / 16) ∷ hex_digit (b % 16) ∷ hex bs

abbrev pub digit_value : ℕ → Option ℕ
digit_value c =
    if leb 48 c && leb c 57
    then some (c - 48)
    else if leb 97 c && leb c 102
    then some (c - 87)
    else if leb 65 c && leb c 70
    then some (c - 55)
    else none

abbrev pub is_space : ℕ → Bool
is_space c = (leb 9 c && leb c 13) || c == 32

abbrev byte_of : Option ℕ → Option ℕ → Option (List ℕ) → Option (List ℕ)
byte_of (some a) (some b) (some bs) = some ((16 * a + b) ∷ bs)
byte_of _ _ _ = none

-- bytes.fromhex(s); `none` is its ValueError. White space between bytes is skipped.
unfoldable pub fromhex : List ℕ → Option (List ℕ)
fromhex [] = some []
fromhex (c ∷ []) = if is_space c then some [] else none
fromhex (c ∷ d ∷ s) = elim (is_space c) [
  | true ↦ fromhex (d ∷ s)
  | false ↦ byte_of (digit_value c) (digit_value d) (fromhex s)
]

-- A character that `int` strips; those beyond Latin-1 are not listed.
abbrev pub is_blank : ℕ → Bool
is_blank c = is_space c || (leb 28 c && leb c 31) || c == 0x85 || c == 0xa0

unfoldable pub strip_left : List ℕ → List ℕ
strip_left [] = []
strip_left (c ∷ s) = if is_blank c then strip_left s else c ∷ s

abbrev pub strip_step : ℕ → List ℕ → List ℕ
strip_step c [] = if is_blank c then [] else c ∷ []
strip_step c (d ∷ s) = c ∷ d ∷ s

unfoldable pub strip_right : List ℕ → List ℕ
strip_right [] = []
strip_right (c ∷ s) = strip_step c (strip_right s)

drop_sign : List ℕ → List ℕ
drop_sign [] = []
drop_sign (c ∷ s) = if c == 43 || c == 45 then s else c ∷ s

-- Digits with single underscores between them. The flag says that an underscore may stand next.
hex_number : Bool → List ℕ → Bool
hex_number after_digit [] = after_digit
hex_number after_digit (c ∷ s) =
    let rest = hex_number (not (c == 95)) s in
    if c == 95 then after_digit && rest else elim (digit_value c) [ none ↦ false | some v ↦ rest ]

hex_body : List ℕ → Bool
unfolding hex_number
hex_body [] = false
hex_body (c ∷ []) = hex_number false (c ∷ [])
hex_body (c ∷ d ∷ []) = hex_number false (c ∷ d ∷ [])
hex_body (c ∷ d ∷ e ∷ s) =
    if c == 48 && (d == 120 || d == 88)
    then hex_number true (e ∷ s)
    else hex_number false (c ∷ d ∷ e ∷ s)

-- Whether `int(s, 16)` returns: white space is stripped, a sign, the prefix 0x and single
-- underscores are accepted, and so are both cases. Digits beyond ASCII are not listed.
unfoldable pub is_int16 : List ℕ → Bool
unfolding strip_left strip_right drop_sign hex_body
is_int16 s = hex_body (drop_sign (strip_right (strip_left s)))

-- A lowercase hexadecimal digit.
abbrev pub IsHexDigit : ℕ → Type 0
IsHexDigit c = ((48 ≤ c) × (c ≤ 57)) ⊎ ((97 ≤ c) × (c ≤ 102))

pub hex-digits : (b : List ℕ) → All (λ x. x < 256) b → All IsHexDigit (hex b)
unfolding hex
hex-digits [] h = tt
hex-digits (x ∷ b) h = (ground arith, (ground arith, hex-digits b h.1))

pub length-hex : (b : List ℕ) → length (hex b) ≡ 2 * length b
unfolding hex
length-hex [] = refl
length-hex (x ∷ b) = omega (arith, length-hex b)

value-digit : (x : ℕ) → x < 16 → digit_value (hex_digit x) ≡ some x
value-digit x h = ground arith

space-digit : (x : ℕ) → x < 16 → is_space (hex_digit x) ≡ false
space-digit x h = ground arith

fromhex-step :
    (c d a b : ℕ) (s bs : List ℕ)
    → is_space c ≡ false
    → digit_value c ≡ some a
    → digit_value d ≡ some b
    → fromhex s ≡ some bs
    → fromhex (c ∷ d ∷ s) ≡ some ((16 * a + b) ∷ bs)
unfolding fromhex
fromhex-step c d a b s bs sp ec ed es = ground arith

-- `bytes.fromhex` undoes `hex`.
pub fromhex-hex : (b : List ℕ) → All (λ x. x < 256) b → fromhex (hex b) ≡ some b
unfolding hex
fromhex-hex [] h = unfold fromhex in refl
fromhex-hex (x ∷ b) h =
    fromhex-step (hex_digit (x / 16)) (hex_digit (x % 16)) (x / 16) (x % 16) (hex b) b
      (space-digit (x / 16) (omega arith)) (value-digit (x / 16) (omega arith))
      (value-digit (x % 16) (omega arith)) (fromhex-hex b h.1)
    ∙ ap (λ (y : ℕ). some (y ∷ b)) (omega arith)

strip_left_digits : (s : List ℕ) → All IsHexDigit s → strip_left s ≡ s
unfolding strip_left
strip_left_digits [] h = refl
strip_left_digits (c ∷ s) h = ground arith

strip_right_digits : (s : List ℕ) → All IsHexDigit s → strip_right s ≡ s
unfolding strip_right
strip_right_digits [] h = refl
strip_right_digits (c ∷ []) h = ground arith
strip_right_digits (c ∷ d ∷ s) h = rw (strip_right_digits (d ∷ s) h.1) refl

hex_number_digits :
    (b : Bool) (c : ℕ) (s : List ℕ) → All IsHexDigit (c ∷ s) → hex_number b (c ∷ s) ≡ true
unfolding hex_number
hex_number_digits b c [] h = ground arith
hex_number_digits b c (d ∷ s) h = ground (arith, hex_number_digits true d s h.1)

hex_body_digits : (c : ℕ) (s : List ℕ) → All IsHexDigit (c ∷ s) → hex_body (c ∷ s) ≡ true
unfolding hex_body
hex_body_digits c [] h = hex_number_digits false c [] h
hex_body_digits c (d ∷ []) h = hex_number_digits false c (d ∷ []) h
hex_body_digits c (d ∷ e ∷ s) h = ground (arith, hex_number_digits false c (d ∷ e ∷ s) h)

drop_sign_digits : (c : ℕ) (s : List ℕ) → IsHexDigit c → drop_sign (c ∷ s) ≡ c ∷ s
unfolding drop_sign
drop_sign_digits c s h = ground arith

-- `int(s, 16)` reads every text of lowercase digits.
pub is_int16_digits : (c : ℕ) (s : List ℕ) → All IsHexDigit (c ∷ s) → is_int16 (c ∷ s) ≡ true
unfolding is_int16
is_int16_digits c s h =
    rw (strip_left_digits (c ∷ s) h, strip_right_digits (c ∷ s) h, drop_sign_digits c s h.0)
      (hex_body_digits c s h)

-- `int(s, 16)` also reads digits behind the prefix 0x.
pub is_int16_prefixed :
    (c : ℕ) (s : List ℕ) → All IsHexDigit (c ∷ s) → is_int16 (48 ∷ 120 ∷ c ∷ s) ≡ true
unfolding is_int16
is_int16_prefixed c s h = rw (strip_right_digits (c ∷ s) h) (hex_number_digits true c s h)

digit-not_space : (c : ℕ) → IsHexDigit c → is_space c ≡ false
digit-not_space c h = ground arith

byte_of-some :
    (a b : Option ℕ) (o : Option (List ℕ)) {t : List ℕ}
    → byte_of a b o ≡ some t
    → (x : ℕ) × (bs : List ℕ) × (o ≡ some bs) × (t ≡ x ∷ bs)
byte_of-some (some a) (some b) (some bs) h = (16 * a + b, bs, refl, ground (arith, h))
byte_of-some (some a) (some b) none h = cc
byte_of-some (some a) none o h = cc
byte_of-some none b o h = cc

fromhex-digits :
    (c d : ℕ) (s : List ℕ)
    → IsHexDigit c
    → fromhex (c ∷ d ∷ s) ≡ byte_of (digit_value c) (digit_value d) (fromhex s)
unfolding fromhex
fromhex-digits c d s h = ground (arith, digit-not_space c h)

-- Twice as many digits as bytes.
pub length-fromhex :
    (s : List ℕ) (n : ℕ) {b : List ℕ}
    → All IsHexDigit s
    → length s ≡ 2 * n
    → fromhex s ≡ some b
    → length b ≡ n
unfolding fromhex
length-fromhex [] n h e f = ground (arith, e, f)
length-fromhex (c ∷ []) n h e f = absurd (omega (arith, e))
length-fromhex (c ∷ d ∷ s) zero h e f = absurd (omega (arith, e))
length-fromhex (c ∷ d ∷ s) (suc n) (hc, (hd, h)) e f =
    let (x, bs, g, same) =
      byte_of-some (digit_value c) (digit_value d) (fromhex s)
        (sym (fromhex-digits c d s hc) ∙ f) in
    rw same (ap suc (length-fromhex s n h (omega (arith, e)) g))
