-- ===== src/Signer/Toy.antt =====
-- The signer of the small signature: a message, twice.
use provable_ai.Schema.{is_blank_text}
use provable_ai.Signer.{Signer, is_blank_text}
use provable_ai.Crypto.Toy.{toy}
use provable_ai.Base.{
  Option, ◌≡◌, Bool, some, if◌then◌else◌, true, length, All, ◌∷◌, replicate, ltb, ◌==◌, arith, ◌&&◌,
  [], ◌++◌, none, sym, All-append, length-append, false, refl,
}
use provable_ai.Text.Hex.{fromhex, IsHexDigit, hex, hex-digits, length-hex, fromhex-hex}
use provable_ai.Verifier.{verify_ed25519}
use provable_ai.Text.{Bytes, Text, IsByte, codes, text_eq_refl}

unfoldable pub all_bytes : Bytes → Bool
all_bytes [] = true
all_bytes (b ∷ m) = ltb b 256 && all_bytes m

unfoldable pub signed_hex : Bytes → Option Text
signed_hex m = if length m == 32 && all_bytes m then some (hex (m ++ m)) else none

all_bytes-All : (m : Bytes) → all_bytes m ≡ true → All IsByte m
unfolding all_bytes
all_bytes-All [] h = tt
all_bytes-All (b ∷ m) h = (ground arith, all_bytes-All m (ground arith))

pub signed_hex-digits :
    (m : Bytes) (s : Text) → signed_hex m ≡ some s → All IsHexDigit s × (length s ≡ 128)
unfolding signed_hex
signed_hex-digits m s h =
    let small : length m ≡ 32 = ground arith in
    let bytes : All IsByte m = all_bytes-All m (ground arith) in
    let e : hex (m ++ m) ≡ s = ground arith in
    rw (sym e) (
      hex-digits (m ++ m) (All-append IsByte m m bytes bytes),
      omega (arith, length-hex (m ++ m), length-append m m, small),
    )

pub signed_hex-verifies :
    (m : Bytes) (s : Text) → signed_hex m ≡ some s → verify_ed25519 toy (replicate 64 50) m s ≡ true
unfolding signed_hex verify_ed25519 fromhex
signed_hex-verifies m s h =
    let bytes : All IsByte m = all_bytes-All m (ground arith) in
    let e : hex (m ++ m) ≡ s = ground arith in
    rw (sym e)
      (rw (fromhex-hex (m ++ m) (All-append IsByte m m bytes bytes)) (text_eq_refl (m ++ m)))

pub twos_hex : All IsHexDigit (replicate 64 50)
twos_hex = ground arith

pub key_not_blank : is_blank_text (codes "k") ≡ false
unfolding is_blank_text
key_not_blank = refl

abbrev pub toy_signer : Signer toy
toy_signer = record {
  sign_hash = signed_hex;
  public_key = replicate 64 50;
  key_id = codes "k";
  sign_hash-hex = signed_hex-digits;
  public_key-hex = (twos_hex, refl);
  key_id_not_blank = key_not_blank;
  sign_hash-verifies = λ m s bytes h. signed_hex-verifies m s h;
}
