-- ===== src/Json/Utf8.antt =====
-- The bytes of s.encode("utf-8"), and the code points for which it raises: in a `str` of Python
-- every surrogate is a lone one.
use provable_ai.Base.{
  ℕ, ◌+◌, ◌/◌, ◌%◌, List, [], ◌∷◌, ◌++◌, ltb, leb, if◌then◌else◌, Bool, false, ◌&&◌, ◌||◌,
}

abbrev pub encode_char : ℕ → List ℕ
encode_char c =
    if ltb c 128
    then c ∷ []
    else if ltb c 2048
    then (192 + c / 64) ∷ (128 + c % 64) ∷ []
    else if ltb c 65536
    then (224 + c / 4096) ∷ (128 + c / 64 % 64) ∷ (128 + c % 64) ∷ []
    else (240 + c / 262144) ∷ (128 + c / 4096 % 64) ∷ (128 + c / 64 % 64) ∷ (128 + c % 64) ∷ []

unfoldable pub utf8 : List ℕ → List ℕ
utf8 [] = []
utf8 (c ∷ s) = encode_char c ++ utf8 s

abbrev pub is_surrogate : ℕ → Bool
is_surrogate c = leb 55296 c && leb c 57343

unfoldable pub has_surrogate : List ℕ → Bool
has_surrogate [] = false
has_surrogate (c ∷ s) = is_surrogate c || has_surrogate s
