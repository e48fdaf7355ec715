-- ===== src/Json/Encode.antt =====
-- json.dumps(v, sort_keys=True, separators=(",", ":"), ensure_ascii=False).encode("utf-8"), with
-- every exception that it raises.
use provable_ai.Base.{
  ℕ, suc, Bool, false, ◌||◌, Option, none, some, ltb, if◌then◌else◌, length, ◌≡◌, refl, ◌∙◌, arith,
}
use provable_ai.Base.Int.{ℤ, pos, negsuc}
use provable_ai.Base.Result.{Result, ok, err, ◌>>=◌, ◌>>◌}
use provable_ai.Text.{Text, Bytes}
use provable_ai.Text.Decimal.{decimal}
use provable_ai.Json.{Value, Items, Fields, int, arr, obj, nil, cons, end, field, dumps}
use provable_ai.Json.Sorted.{
  SameValue, SameItems, SameFields, same, same_arr, same_obj, same_nil, same_cons, same_end,
  same_field, swap, chain, dumps-SameValue,
}
use provable_ai.Json.Utf8.{utf8, has_surrogate}

pub data EncodeError : Type 0 where
  -- TypeError of json.dumps
  not_serializable : EncodeError
  -- ValueError of json.dumps, for an integer that Python does not write out
  int_too_long : EncodeError
  -- UnicodeEncodeError
  lone_surrogate : EncodeError

-- sys.get_int_max_str_digits(), unless it is set otherwise
abbrev pub int_max_str_digits : ℕ
int_max_str_digits = 4300

unfoldable pub is_long : ℤ → Bool
unfolding decimal
is_long (pos n) = ltb int_max_str_digits (length (decimal n))
is_long (negsuc n) = ltb int_max_str_digits (length (decimal (suc n)))

-- Whether an integer that is too long stands in a value, at whatever depth.
unfoldable mutual
  unfolding is_long

  pub has_long_int : Value → Bool
  has_long_int (int n) = is_long n
  has_long_int (arr xs) = has_long_item xs
  has_long_int (obj fs) = has_long_field fs
  has_long_int _ = false

  pub has_long_item : Items → Bool
  has_long_item nil = false
  has_long_item (cons v xs) = has_long_int v || has_long_item xs

  pub has_long_field : Fields → Bool
  has_long_field end = false
  has_long_field (field k v fs) = has_long_int v || has_long_field fs

abbrev pub text_of : Option Text → Result EncodeError Text
text_of none = err not_serializable
text_of (some t) = ok t

-- s.encode("utf-8")
unfoldable pub encode : Text → Result EncodeError Bytes
unfolding utf8 has_surrogate
encode s = if has_surrogate s then err lone_surrogate else ok (utf8 s)

unfoldable pub dump_bytes : Value → Result EncodeError Bytes
unfolding has_long_int encode
dump_bytes v = do
  if has_long_int v then err int_too_long else ok tt
  t ← text_of (dumps v)
  encode t

mutual
  unfolding has_long_int

  pub has_long_int-SameValue : {v w : Value} → SameValue v w → has_long_int v ≡ has_long_int w
  has_long_int-SameValue (same v) = refl
  has_long_int-SameValue (same_arr xs) = has_long_item-SameItems xs
  has_long_int-SameValue (same_obj fs) = has_long_field-SameFields fs

  has_long_item-SameItems : {xs ys : Items} → SameItems xs ys → has_long_item xs ≡ has_long_item ys
  has_long_item-SameItems same_nil = refl
  has_long_item-SameItems (same_cons v xs) =
      cc (has_long_int-SameValue v, has_long_item-SameItems xs)

  has_long_field-SameFields :
      {fs gs : Fields} → SameFields fs gs → has_long_field fs ≡ has_long_field gs
  has_long_field-SameFields same_end = refl
  has_long_field-SameFields (same_field k v fs) =
      cc (has_long_int-SameValue v, has_long_field-SameFields fs)
  has_long_field-SameFields (swap k j v w fs ne) = ground arith
  has_long_field-SameFields (chain p q) = has_long_field-SameFields p ∙ has_long_field-SameFields q

-- What was encoded has no integer that is too long and no surrogate.
pub dump_bytes-ok :
    (v : Value) {b : Bytes} (t : Text)
    → dump_bytes v ≡ ok b
    → dumps v ≡ some t
    → (has_long_int v ≡ false) × (has_surrogate t ≡ false)
unfolding dump_bytes
dump_bytes-ok v t e written = ground (arith, e, written)

-- The order of the entries of dicts changes neither the bytes nor the exception.
pub dump_bytes-SameValue : {v w : Value} → SameValue v w → dump_bytes v ≡ dump_bytes w
unfolding dump_bytes
dump_bytes-SameValue s = rw (has_long_int-SameValue s, dumps-SameValue s) refl
