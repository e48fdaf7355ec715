-- ===== src/Canonical/Tests.antt =====
-- Canonical hashes of concrete values.
use provable_ai.Crypto.{hexdigest}
use provable_ai.Json.Utf8.{utf8}
use provable_ai.Text.Decimal.{decimal}
use provable_ai.Canonical.Scope.{build_hash_payload_lem, IsScope, PartsCanonical}
use provable_ai.Json.Sorted.{same_obj, swap}
use provable_ai.Canonical.Accepts.{
  canonical_hash-SameValue, IsCanonical, validate_payload-IsCanonical,
}
use provable_ai.Canonical.Encodable.{IsEncodable, canonical_encode_lem}
use provable_ai.Text.Hex.{fromhex, hex}
use provable_ai.Base.{◌∷◌, ◌≢◌, ◌≡◌, true, ◌↔◌, some, [], length, refl, inl, ◌⊎◌, List}
use provable_ai.Crypto.Toy.{toy, toy_sha256}
use provable_ai.Text.{codes, text_leb, text_eq, text_ne}
use provable_ai.Json.Encode.{lone_surrogate}
use provable_ai.Json.{
  Value, Fields, str, dumps, sort_entries, insert_entry, entry_texts, float, join, escape_all,
  int_text,
}
use provable_ai.Canonical.Hashes.{IsDigest, hashes_are_valid}
use provable_ai.Canonical.{
  build_hash_payload, canonical_hash, validate_payload, is_valid_hash, ◌∷◌, Text, int, arr, obj,
  field, pos, cons, err, ok, Segment, non_canonical, encode_error, foreign, text_key, Bytes,
  canonical_encode, null, at_index, nil, end, decimal, hexdigest, text_eq, utf8,
}

abbrev one : Value
one = int (pos 1)

abbrev ab : Value
ab = obj (field (text_key (codes "a")) one (field (text_key (codes "b")) (arr (cons null nil)) end))

abbrev ba : Value
ba = obj (field (text_key (codes "b")) (arr (cons null nil)) (field (text_key (codes "a")) one end))

ab_text : dumps ba ≡ some (codes "{\"a\":1,\"b\":[null]}")
unfolding dumps sort_entries insert_entry text_leb entry_texts join escape_all int_text decimal
ab_text = refl

abbrev with_float : Value
with_float = arr (cons one (cons (foreign float (some (codes "0.5"))) nil))

refused_float : validate_payload with_float ≡ err (non_canonical (at_index 1 ∷ []))
unfolding validate_payload
refused_float = refl

a_ne_b : codes "a" ≢ codes "b"
unfolding text_eq
a_ne_b = text_ne (codes "a") (codes "b") refl

abbrev ab_hash : Text
ab_hash = hexdigest toy (utf8 (codes "{\"a\":1,\"b\":[null]}"))

ab_hashed : canonical_hash toy ab ≡ ok ab_hash
unfolding canonical_hash hexdigest hex toy_sha256 dumps sort_entries insert_entry text_leb
    entry_texts join escape_all int_text decimal utf8
ab_hashed = refl

validate_payload-IsCanonical_example : (validate_payload ab ≡ ok tt) ↔ IsCanonical ab
validate_payload-IsCanonical_example = validate_payload-IsCanonical ab

canonical_encode_lem_example : ((b : Bytes) × (canonical_encode ab ≡ ok b)) ↔ IsEncodable ab
canonical_encode_lem_example = canonical_encode_lem ab

abbrev surrogate : Value
surrogate = str (55296 ∷ [])

-- A text of one lone surrogate is accepted and cannot be encoded.
refused_surrogate :
    (validate_payload surrogate ≡ ok tt)
    × (canonical_encode surrogate ≡ err (encode_error lone_surrogate))
unfolding validate_payload canonical_encode dumps escape_all
refused_surrogate = (refl, refl)

canonical_hash-SameValue_example : canonical_hash toy ba ≡ ok ab_hash
canonical_hash-SameValue_example =
    canonical_hash-SameValue toy {v = ab} {w = ba} ab_hash
      (same_obj (swap (codes "a") (codes "b") one (arr (cons null nil)) end a_ne_b)) ab_hashed

build_hash_payload_lem_example :
    (fs : Fields) × IsScope ab ba ab ba (codes "0") 1 fs
    × (((build_hash_payload ab ba ab ba (codes "0") 1 ≡ ok (obj fs)) × PartsCanonical ab ba ab ba)
        ⊎ ((path : List Segment) × (build_hash_payload ab ba ab ba (codes "0") 1
              ≡ err (non_canonical path))
            × ¬ PartsCanonical ab ba ab ba))
build_hash_payload_lem_example = build_hash_payload_lem ab ba ab ba (codes "0") 1

hashes_are_valid_example :
    IsDigest ab_hash
    × (is_valid_hash ab_hash ≡ true)
    × ((b : Bytes) × (fromhex ab_hash ≡ some b) × (length b ≡ 32))
hashes_are_valid_example = hashes_are_valid toy ab ab_hash (inl ab_hashed)
