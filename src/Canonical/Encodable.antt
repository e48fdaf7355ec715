-- ===== src/Canonical/Encodable.antt =====
-- Which values `canonical_encode` of canonical.py turns into bytes.
use provable_ai.Base.{Bool, true, false, ◌||◌, List, [], ◌∷◌, some, ◌≡◌, ◌↔◌, refl, ap, arith}
use provable_ai.Base.Result.{ok, err, Result, >>=-eq-ok}
use provable_ai.Text.{Text, Bytes}
use provable_ai.Json.{
  Value, Items, Fields, null, bool, int, str, arr, obj, foreign, nil, cons, end, field, text_key,
  other_key, dumps, dump_items, dump_fields, Entry, entry_texts, sort_entries, wrap_items,
  wrap_entries,
}
use provable_ai.Json.Utf8.{utf8, has_surrogate}
use provable_ai.Json.Surrogates.{
  any_surrogate, any_in_entries, has_surrogate-quote, has_surrogate-int_text, has_surrogate-wrapped,
  has_surrogate-sorted,
}
use provable_ai.Json.Encode.{
  is_long, has_long_int, has_long_item, has_long_field, dump_bytes, EncodeError,
}
use provable_ai.Canonical.{canonical_encode, validate_payload, lift_encode}
use provable_ai.Canonical.Accepts.{
  IsCanonical, AllCanonical, FieldsCanonical, validate_payload-IsCanonical,
}

-- A value that is made of None, booleans, integers of at most 4300 digits, texts without
-- surrogates, lists, and dicts whose keys are such texts.
abbrev mutual
  pub IsEncodable : Value → Type 0
  IsEncodable (int n) = is_long n ≡ false
  IsEncodable (str s) = has_surrogate s ≡ false
  IsEncodable (arr xs) = AllEncodable xs
  IsEncodable (obj fs) = FieldsEncodable fs
  IsEncodable (foreign kind text) = ⊥
  IsEncodable _ = Unit

  pub AllEncodable : Items → Type 0
  AllEncodable nil = Unit
  AllEncodable (cons v xs) = IsEncodable v × AllEncodable xs

  pub FieldsEncodable : Fields → Type 0
  FieldsEncodable end = Unit
  FieldsEncodable (field (text_key k) v fs) =
      (has_surrogate k ≡ false) × IsEncodable v × FieldsEncodable fs
  FieldsEncodable (field (other_key k) v fs) = ⊥

-- What json.dumps writes for a value of canonical types, and when this can be encoded.
abbrev Written : Value → Type 0
Written v =
    (t : Text) × (dumps v ≡ some t)
    × (((has_long_int v ≡ false) × (has_surrogate t ≡ false)) ↔ IsEncodable v)

abbrev WrittenItems : Items → Type 0
WrittenItems xs =
    (ts : List Text) × (dump_items xs ≡ some ts)
    × (((has_long_item xs ≡ false) × (any_surrogate ts ≡ false)) ↔ AllEncodable xs)

abbrev WrittenFields : Fields → Type 0
WrittenFields fs =
    (es : List Entry) × (dump_fields fs ≡ some es)
    × (((has_long_field fs ≡ false) × (any_in_entries es ≡ false)) ↔ FieldsEncodable fs)

or-false : (a b : Bool) → ((a || b) ≡ false) ↔ ((a ≡ false) × (b ≡ false))
or-false false b = ground arith
or-false true b = ground arith

-- Two parts and a key before them are encodable exactly if each is.
both_parts :
    (k a b p q : Bool) {P Q : Type 0}
    → ((a ≡ false) × (p ≡ false)) ↔ P
    → ((b ≡ false) × (q ≡ false)) ↔ Q
    → (((a || b) ≡ false) × (((k || p) || q) ≡ false)) ↔ ((k ≡ false) × P × Q)
both_parts k a b p q one two = (
  λ h.
      let ints = (or-false a b).0 h.0 in
      let texts = (or-false (k || p) q).0 h.1 in
      let keyed = (or-false k p).0 texts.0 in
      (keyed.0, one.0 (ints.0, keyed.1), two.0 (ints.1, texts.1)),
  λ h.
      let first = one.1 h.1 in
      let rest = two.1 h.2 in
      (
        (or-false a b).1 (first.0, rest.0),
        (or-false (k || p) q).1 ((or-false k p).1 (h.0, first.1), rest.1),
      ),
)

item_parts :
    (a b p q : Bool) {P Q : Type 0}
    → ((a ≡ false) × (p ≡ false)) ↔ P
    → ((b ≡ false) × (q ≡ false)) ↔ Q
    → (((a || b) ≡ false) × ((p || q) ≡ false)) ↔ (P × Q)
item_parts a b p q one two =
    let keyed = both_parts false a b p q one two in
    (λ h. let r = keyed.0 h in (r.1, r.2), λ h. keyed.1 (refl, h.0, h.1))

mutual
  unfolding dumps has_long_int any_surrogate any_in_entries has_surrogate

  written : (v : Value) → IsCanonical v → Written v
  written null h = (_, refl, ground arith)
  written (bool true) h = (_, refl, ground arith)
  written (bool false) h = (_, refl, ground arith)
  written (int n) h = (_, refl, ground (arith, has_surrogate-int_text n))
  written (str s) h = (_, refl, ground (arith, has_surrogate-quote s))
  written (arr xs) h =
      let (ts, e, iff) = written_items xs h in
      (_, ap wrap_items e, ground (arith, has_surrogate-wrapped 91 93 ts refl refl))
  written (obj fs) h =
      let (es, e, iff) = written_fields fs h in
      (
        _,
        ap wrap_entries e,
        rw (has_surrogate-wrapped 123 125 (entry_texts (sort_entries es)) refl refl)
            (rw (has_surrogate-sorted es) iff),
      )
  written (foreign kind text) h = absurd h

  written_items : (xs : Items) → AllCanonical xs → WrittenItems xs
  written_items nil h = ([], refl, ground arith)
  written_items (cons v xs) h =
      let (t, e, iff) = written v h.0 in
      let (ts, es, iffs) = written_items xs h.1 in
      (
        t ∷ ts,
        cc (e, es),
        item_parts (has_long_int v) (has_long_item xs) (has_surrogate t) (any_surrogate ts) iff
            iffs,
      )

  written_fields : (fs : Fields) → FieldsCanonical fs → WrittenFields fs
  written_fields end h = ([], refl, ground arith)
  written_fields (field (text_key k) v fs) h =
      let (t, e, iff) = written v h.0 in
      let (es, ees, iffs) = written_fields fs h.1 in
      (
        (k, t) ∷ es,
        cc (e, ees),
        both_parts (has_surrogate k) (has_long_int v) (has_long_field fs) (has_surrogate t)
            (any_in_entries es) iff iffs,
      )
  written_fields (field (other_key k) v fs) h = absurd h

mutual
  IsEncodable-IsCanonical : (v : Value) → IsEncodable v → IsCanonical v
  IsEncodable-IsCanonical null h = tt
  IsEncodable-IsCanonical (bool b) h = tt
  IsEncodable-IsCanonical (int n) h = tt
  IsEncodable-IsCanonical (str s) h = tt
  IsEncodable-IsCanonical (arr xs) h = AllEncodable-AllCanonical xs h
  IsEncodable-IsCanonical (obj fs) h = FieldsEncodable-FieldsCanonical fs h
  IsEncodable-IsCanonical (foreign kind text) h = absurd h

  AllEncodable-AllCanonical : (xs : Items) → AllEncodable xs → AllCanonical xs
  AllEncodable-AllCanonical nil h = tt
  AllEncodable-AllCanonical (cons v xs) h =
      (IsEncodable-IsCanonical v h.0, AllEncodable-AllCanonical xs h.1)

  FieldsEncodable-FieldsCanonical : (fs : Fields) → FieldsEncodable fs → FieldsCanonical fs
  FieldsEncodable-FieldsCanonical end h = tt
  FieldsEncodable-FieldsCanonical (field (text_key k) v fs) h =
      (IsEncodable-IsCanonical v h.1, FieldsEncodable-FieldsCanonical fs h.2)
  FieldsEncodable-FieldsCanonical (field (other_key k) v fs) h = absurd h

-- What is encodable is dumped and encoded.
pub dump_bytes-some :
    (v : Value) → IsCanonical v → ((b : Bytes) × (dump_bytes v ≡ ok b)) ↔ IsEncodable v
unfolding dump_bytes
dump_bytes-some v h =
    let (t, e, iff) = written v h in
    (λ (b, f). iff.0 (ground (arith, e, f)), λ k. (utf8 t, ground (arith, e, iff.1 k)))

pub IsEncodable-dump_bytes : (v : Value) → IsEncodable v → (b : Bytes) × (dump_bytes v ≡ ok b)
IsEncodable-dump_bytes v h = (dump_bytes-some v (IsEncodable-IsCanonical v h)).1 h

pub lift_encode-ok : (r : Result EncodeError Bytes) {b : Bytes} → lift_encode r ≡ ok b → r ≡ ok b
lift_encode-ok (ok b) e = ground (arith, e)
lift_encode-ok (err x) e = cc

-- `canonical_encode` returns bytes exactly if the value is made of None, booleans, integers of at
-- most 4300 digits, texts without surrogates, lists, and dicts whose keys are such texts, at every
-- depth. Of the values that `_validate_payload` accepts these are the ones that do not make
-- `json.dumps` or `encode` raise.
pub canonical_encode_lem : (v : Value) → ((b : Bytes) × (canonical_encode v ≡ ok b)) ↔ IsEncodable v
unfolding canonical_encode
canonical_encode_lem v = (
  λ (b, e).
      let (_, accepted, written) = >>=-eq-ok (validate_payload v) _ e in
      (dump_bytes-some v ((validate_payload-IsCanonical v).0 accepted)).0
        (b, lift_encode-ok (dump_bytes v) written),
  λ h.
      let (b, e) = IsEncodable-dump_bytes v h in
      (b, rw ((validate_payload-IsCanonical v).1 (IsEncodable-IsCanonical v h), e) refl),
)
