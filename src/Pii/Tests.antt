-- ===== src/Pii/Tests.antt =====
-- A dict with an address.
use provable_ai.Text.{has_text, text_eq, lower, starts_with}
use provable_ai.Pii.Scrubbed.{scrub_inputs-clean}
use provable_ai.Base.{◌≡◌, some, [], refl, ◌++◌}
use provable_ai.Crypto.Toy.{toy}
use provable_ai.Pii.{
  scrub_inputs, violations, codes, hexdigest, scrub_value, sensitive_fields, is_hashed,
  hash_sensitive,
}
use provable_ai.Json.Utf8.{utf8}
use provable_ai.Json.Encode.{encode}
use provable_ai.Json.{Fields, field, text_key, str, end}

abbrev before : Fields
before = field (text_key (codes "Email")) (str (codes "a@b.c")) end

abbrev after : Fields
after =
    field (text_key (codes "Email")) (str (codes "sha256:" ++ hexdigest toy (utf8 (codes "a@b.c"))))
      end

scrubbed : scrub_inputs toy before ≡ some after
unfolding scrub_inputs scrub_value has_text sensitive_fields text_eq lower is_hashed starts_with
    hash_sensitive encode
scrubbed = refl

scrub_inputs-clean_example : (violations after ≡ some []) × (scrub_inputs toy after ≡ some after)
scrub_inputs-clean_example = scrub_inputs-clean toy before after scrubbed
