-- ===== src/Json/Ascii.antt =====
-- json.dumps with its default ensure_ascii=True: what ensure_ascii=False writes, with each
-- character beyond ~ as an escape, those beyond U+FFFF as two.
use provable_ai.Base.{ℕ, Option, ◌∷◌, if◌then◌else◌, some, none, ltb, ◌++◌, ◌/◌, [], ◌+◌, ◌%◌, ◌-◌}
use provable_ai.Json.{Value, dumps, ℕ, Option, Text, codes}
use provable_ai.Text.Hex.{hex_digit}

abbrev unicode_escape : ℕ → Text
unicode_escape n =
    codes "\\u"
    ++ hex_digit (n / 4096)
      ∷ hex_digit (n / 256 % 16)
      ∷ hex_digit (n / 16 % 16)
      ∷ hex_digit (n % 16)
      ∷ []

abbrev ascii_char : ℕ → Text
ascii_char c =
    if ltb c 127
    then c ∷ []
    else if ltb c 65536
    then unicode_escape c
    else unicode_escape (55296 + (c - 65536) / 1024) ++ unicode_escape (56320 + (c - 65536) % 1024)

unfoldable pub to_ascii : Text → Text
to_ascii [] = []
to_ascii (c ∷ s) = ascii_char c ++ to_ascii s

abbrev ascii_of : Option Text → Option Text
ascii_of none = none
ascii_of (some t) = some (to_ascii t)

unfoldable pub dumps_ascii : Value → Option Text
dumps_ascii v = ascii_of (dumps v)
