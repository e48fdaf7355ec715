-- ===== src/Pii/Scrubbed.antt =====
-- What scrub_inputs leaves behind.
use provable_ai.Base.Result.{Result-cases}
use provable_ai.Json.{end, str}
use provable_ai.Canonical.Hashes.{length-hexdigest}
use provable_ai.Base.{
  Option, ◌≡◌, ◌++◌, some, [], ◌&&◌, true, subst, not, arith, false, none, inl, refl, inr, length,
}
use provable_ai.Text.{Text, starts_with}
use provable_ai.Pii.{
  scrub_inputs, hash_sensitive, is_hashed, scrub_value, violations, starts_with, Crypto, Option,
  Value, Fields, as_str, add_field, codes, is_hashed_value, field, is_sensitive, hexdigest, Bytes,
  text_key, other_key, raw_bytes,
}

is_hashed-tagged :
    (c : Crypto) (raw : Bytes) → is_hashed (codes "sha256:" ++ hexdigest c raw) ≡ true
unfolding is_hashed starts_with
is_hashed-tagged c raw = ground (arith, length-hexdigest c raw)

hashed_value :
    (c : Crypto) (v w : Value) → as_str (hash_sensitive c v) ≡ some w → is_hashed_value w ≡ true
unfolding hash_sensitive
hashed_value c v w h = elim (Result-cases (raw_bytes v)) [
  | inr (x, refused) ↦ absurd (ground arith)
  | inl (raw, e) ↦
      let written : str (codes "sha256:" ++ hexdigest c raw) ≡ w = ground arith in
      subst (λ x. is_hashed_value x ≡ true) written (is_hashed-tagged c raw)
]

scrub_value-clean :
    (c : Crypto) (k : Text) (v w : Value)
    → scrub_value c k v ≡ some w
    → (is_sensitive k && not (is_hashed_value w)) ≡ false
unfolding scrub_value
scrub_value-clean c k v w h = ground (arith, hashed_value c v w)

add_field-eq-some :
    (k : Text) (v : Option Value) (fs : Option Fields) {gs : Fields}
    → add_field k v fs ≡ some gs
    → (w : Value) × (hs : Fields) × (v ≡ some w) × (fs ≡ some hs) × (field (text_key k) w hs ≡ gs)
add_field-eq-some k (some v) (some fs) h = (v, fs, refl, refl, ground arith)
add_field-eq-some k (some v) none h = cc
add_field-eq-some k none fs h = cc

-- A dict that `scrub_inputs` returns passes `assert_no_pii`, and `scrub_inputs` leaves it as it is.
pub scrub_inputs-clean :
    (c : Crypto) (fs gs : Fields)
    → scrub_inputs c fs ≡ some gs
    → (violations gs ≡ some []) × (scrub_inputs c gs ≡ some gs)
unfolding scrub_inputs violations scrub_value
scrub_inputs-clean c end gs h =
    let empty : end ≡ gs = ground arith in
    subst (λ x. (violations x ≡ some []) × (scrub_inputs c x ≡ some x)) empty (refl, refl)
scrub_inputs-clean c (field (other_key k) v fs) gs h = cc
scrub_inputs-clean c (field (text_key k) v fs) gs h =
    let (w, hs, ew, ehs, whole) = add_field-eq-some k (scrub_value c k v) (scrub_inputs c fs) h in
    let (clean, fixed) = scrub_inputs-clean c fs hs ehs in
    let kept = scrub_value-clean c k v w ew in
    subst (λ x. (violations x ≡ some []) × (scrub_inputs c x ≡ some x)) whole
      (ground arith, rw kept (rw fixed refl))

-- A text that starts with sha256: and has 71 characters counts as hashed, whatever follows the
-- prefix: `scrub_inputs` leaves it under every key, and `assert_no_pii` finds nothing.
pub scrub_inputs_tagged :
    (c : Crypto) (k rest : Text)
    → length rest ≡ 64
    → (scrub_inputs c (field (text_key k) (str (codes "sha256:" ++ rest)) end)
        ≡ some (field (text_key k) (str (codes "sha256:" ++ rest)) end))
      × (violations (field (text_key k) (str (codes "sha256:" ++ rest)) end) ≡ some [])
unfolding scrub_inputs violations scrub_value is_hashed starts_with
scrub_inputs_tagged c k rest l = (ground arith, ground arith)
