-- ===== src/Canonical/Accepts.antt =====
-- Which values `_validate_payload` of canonical.py accepts.
use provable_ai.Json.{
  Value, dumps, nil, wrap_items, end, wrap_entries, dump_items, Entry, dump_fields, null,
}
use provable_ai.Canonical.{
  Segment, validate_payload, refused_value, canonical_hash, arr, Items, Crypto, obj, ok, Fields,
  text_key, bool, foreign, first_error, cons, int, other_key, field, str, refused_items, at_index,
  refused_fields, at_key,
}
use provable_ai.Base.{
  Option, List, ◌≡◌, some, none, ◌↔◌, arith, [], ap, ℕ, ◌∷◌, suc, refl, true, false,
}
use provable_ai.Text.{Text}
use provable_ai.Json.Sorted.{
  SameValue, SameItems, SameFields, same, same_arr, same_obj, same_nil, same_cons, same_end,
  same_field, swap, chain,
}
use provable_ai.Json.Encode.{dump_bytes-SameValue}

-- A value that is made of None, booleans, integers, texts, lists and dicts with text keys alone.
abbrev mutual
  pub IsCanonical : Value → Type 0
  IsCanonical (arr xs) = AllCanonical xs
  IsCanonical (obj fs) = FieldsCanonical fs
  IsCanonical (foreign kind text) = ⊥
  IsCanonical _ = Unit

  pub AllCanonical : Items → Type 0
  AllCanonical nil = Unit
  AllCanonical (cons v xs) = IsCanonical v × AllCanonical xs

  pub FieldsCanonical : Fields → Type 0
  FieldsCanonical end = Unit
  FieldsCanonical (field (text_key k) v fs) = IsCanonical v × FieldsCanonical fs
  FieldsCanonical (field (other_key k) v fs) = ⊥

first-none : (a b : Option (List Segment)) → ((a ≡ none) × (b ≡ none)) ↔ (first_error a b ≡ none)
first-none none b = ground arith
first-none (some e) b = ground arith

mutual
  unfolding refused_value

  accepted : (path : List Segment) (v : Value) → IsCanonical v → refused_value path v ≡ none
  accepted path null h = refl
  accepted path (bool b) h = refl
  accepted path (int n) h = refl
  accepted path (str s) h = refl
  accepted path (arr xs) h = accepted_items path 0 xs h
  accepted path (obj fs) h = accepted_fields path fs h
  accepted path (foreign kind text) h = absurd h

  accepted_items :
      (path : List Segment) (i : ℕ) (xs : Items) → AllCanonical xs → refused_items path i xs ≡ none
  accepted_items path i nil h = refl
  accepted_items path i (cons v xs) h =
      (first-none _ _).0 (accepted (at_index i ∷ path) v h.0, accepted_items path (suc i) xs h.1)

  accepted_fields :
      (path : List Segment) (fs : Fields) → FieldsCanonical fs → refused_fields path fs ≡ none
  accepted_fields path end h = refl
  accepted_fields path (field (text_key k) v fs) h =
      (first-none _ _).0 (accepted (at_key k ∷ path) v h.0, accepted_fields path fs h.1)
  accepted_fields path (field (other_key k) v fs) h = absurd h

mutual
  unfolding refused_value

  accepts : (path : List Segment) (v : Value) → refused_value path v ≡ none → IsCanonical v
  accepts path null h = tt
  accepts path (bool b) h = tt
  accepts path (int n) h = tt
  accepts path (str s) h = tt
  accepts path (arr xs) h = accepts_items path 0 xs h
  accepts path (obj fs) h = accepts_fields path fs h
  accepts path (foreign kind text) h = cc

  accepts_items :
      (path : List Segment) (i : ℕ) (xs : Items) → refused_items path i xs ≡ none → AllCanonical xs
  accepts_items path i nil h = tt
  accepts_items path i (cons v xs) h =
      let (e, es) = (first-none _ _).1 h in
      (accepts (at_index i ∷ path) v e, accepts_items path (suc i) xs es)

  accepts_fields :
      (path : List Segment) (fs : Fields) → refused_fields path fs ≡ none → FieldsCanonical fs
  accepts_fields path end h = tt
  accepts_fields path (field (text_key k) v fs) h =
      let (e, es) = (first-none _ _).1 h in
      (accepts (at_key k ∷ path) v e, accepts_fields path fs es)
  accepts_fields path (field (other_key k) v fs) h = cc

pub refused-none : (path : List Segment) (v : Value) → (refused_value path v ≡ none) ↔ IsCanonical v
refused-none path v = (accepts path v, accepted path v)

-- `_validate_payload` accepts exactly the values that are made of None, booleans, integers, texts,
-- lists and dicts with text keys alone, at every depth.
pub validate_payload-IsCanonical : (v : Value) → (validate_payload v ≡ ok tt) ↔ IsCanonical v
unfolding validate_payload
validate_payload-IsCanonical v = ground (arith, refused-none [] v)

mutual
  unfolding dumps

  pub dumps-some : (v : Value) → IsCanonical v → (t : Text) × (dumps v ≡ some t)
  dumps-some null h = (_, refl)
  dumps-some (bool true) h = (_, refl)
  dumps-some (bool false) h = (_, refl)
  dumps-some (int n) h = (_, refl)
  dumps-some (str s) h = (_, refl)
  dumps-some (arr xs) h = let (ts, e) = items_some xs h in (_, ap wrap_items e)
  dumps-some (obj fs) h = let (es, e) = fields_some fs h in (_, ap wrap_entries e)
  dumps-some (foreign kind text) h = absurd h

  items_some : (xs : Items) → AllCanonical xs → (ts : List Text) × (dump_items xs ≡ some ts)
  items_some nil h = ([], refl)
  items_some (cons v xs) h =
      let (t, e) = dumps-some v h.0 in let (ts, es) = items_some xs h.1 in (t ∷ ts, cc (e, es))

  fields_some : (fs : Fields) → FieldsCanonical fs → (es : List Entry) × (dump_fields fs ≡ some es)
  fields_some end h = ([], refl)
  fields_some (field (text_key k) v fs) h =
      let (t, e) = dumps-some v h.0 in
      let (ts, es) = fields_some fs h.1 in ((k, t) ∷ ts, cc (e, es))
  fields_some (field (other_key k) v fs) h = absurd h

mutual
  same-IsCanonical : {v w : Value} → SameValue v w → IsCanonical v → IsCanonical w
  same-IsCanonical (same v) h = h
  same-IsCanonical (same_arr xs) h = same-AllCanonical xs h
  same-IsCanonical (same_obj fs) h = same-FieldsCanonical fs h

  same-AllCanonical : {xs ys : Items} → SameItems xs ys → AllCanonical xs → AllCanonical ys
  same-AllCanonical same_nil h = tt
  same-AllCanonical (same_cons v xs) h = (same-IsCanonical v h.0, same-AllCanonical xs h.1)

  same-FieldsCanonical :
      {fs gs : Fields} → SameFields fs gs → FieldsCanonical fs → FieldsCanonical gs
  same-FieldsCanonical same_end h = tt
  same-FieldsCanonical (same_field (text_key k) v fs) h =
      (same-IsCanonical v h.0, same-FieldsCanonical fs h.1)
  same-FieldsCanonical (same_field (other_key k) v fs) h = absurd h
  same-FieldsCanonical (swap k j v w fs ne) h = (h.1.0, (h.0, h.1.1))
  same-FieldsCanonical (chain p q) h = same-FieldsCanonical q (same-FieldsCanonical p h)

-- Two values that differ only in the order of the entries of their dicts, at any depth, have the
-- same canonical hash: if one is hashed, the other is hashed to the same text.
pub canonical_hash-SameValue :
    (c : Crypto) {v w : Value} (t : Text)
    → SameValue v w
    → canonical_hash c v ≡ ok t
    → canonical_hash c w ≡ ok t
unfolding canonical_hash
canonical_hash-SameValue c {v} {w} t s h =
    let accepted_v : validate_payload v ≡ ok tt = ground arith in
    let accepted_w : validate_payload w ≡ ok tt =
      (validate_payload-IsCanonical w).1
        (same-IsCanonical s ((validate_payload-IsCanonical v).0 accepted_v)) in
    ground (arith, dump_bytes-SameValue s)
