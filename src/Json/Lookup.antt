-- ===== src/Json/Lookup.antt =====
-- Python's v.get(key, default), and that it does not see the order of the entries of a dict.
use provable_ai.Base.{◌≡◌, Option, none, some, Bool, true, false, ◌≢◌, arith, if◌then◌else◌, subst}
use provable_ai.Text.{Text, text_eq, text_eq_iff}
use provable_ai.Json.{Value, Fields, Items, obj, arr, end, field, text_key, other_key}
use provable_ai.Json.Sorted.{
  SameValue, SameItems, SameFields, same, same_arr, same_obj, same_nil, same_cons, same_end,
  same_field, swap, chain,
}

unfoldable pub lookup_field : Text → Fields → Option Value
lookup_field k end = none
lookup_field k (field (text_key j) v fs) = if text_eq j k then some v else lookup_field k fs
lookup_field k (field (other_key j) v fs) = lookup_field k fs

abbrev pub or_default : Value → Option Value → Value
or_default d none = d
or_default d (some v) = v

-- v.get(k, d); `none` is the AttributeError of a value that is no dict.
unfoldable pub get : Text → Value → Value → Option Value
get k d (obj fs) = some (or_default d (lookup_field k fs))
get k d _ = none

-- What a loop over `v` meets, if `v` is a list.
abbrev pub list_items : Value → Option Items
list_items (arr xs) = some xs
list_items _ = none

-- Two results that are both missing or the same but for the order of entries.
pub data SameFound : Option Value → Option Value → Type 0 where
  both_none : SameFound none none
  both_some : {v w : Value} → SameValue v w → SameFound (some v) (some w)

mutual
  same_trans : {u v w : Value} → SameValue u v → SameValue v w → SameValue u w
  same_trans (same v) q = q
  same_trans (same_arr xs) (same v) = same_arr xs
  same_trans (same_arr xs) (same_arr ys) = same_arr (items_trans xs ys)
  same_trans (same_obj fs) (same v) = same_obj fs
  same_trans (same_obj fs) (same_obj gs) = same_obj (chain fs gs)

  items_trans : {xs ys zs : Items} → SameItems xs ys → SameItems ys zs → SameItems xs zs
  items_trans same_nil q = q
  items_trans (same_cons v xs) (same_cons w ys) = same_cons (same_trans v w) (items_trans xs ys)

found_refl : (o : Option Value) → SameFound o o
found_refl none = both_none
found_refl (some v) = both_some (same v)

found_trans : {a b c : Option Value} → SameFound a b → SameFound b c → SameFound a c
found_trans both_none q = q
found_trans (both_some p) (both_some q) = both_some (same_trans p q)

found_if :
    (b : Bool) {v w : Value} {o p : Option Value}
    → SameValue v w
    → SameFound o p
    → SameFound (if b then some v else o) (if b then some w else p)
found_if true s o = both_some s
found_if false s o = o

found_swap :
    (k j i : Text) (v w : Value) (o : Option Value)
    → k ≢ j
    → (if text_eq k i then some v else if text_eq j i then some w else o)
      ≡ (if text_eq j i then some w else if text_eq k i then some v else o)
found_swap k j i v w o ne = ground (arith, text_eq_iff k i, text_eq_iff j i)

pub lookup-SameFields :
    (i : Text) {fs gs : Fields}
    → SameFields fs gs
    → SameFound (lookup_field i fs) (lookup_field i gs)
unfolding lookup_field
lookup-SameFields i same_end = both_none
lookup-SameFields i (same_field (text_key k) v fs) =
    found_if (text_eq k i) v (lookup-SameFields i fs)
lookup-SameFields i (same_field (other_key k) v fs) = lookup-SameFields i fs
lookup-SameFields i (swap k j v w fs ne) =
    subst (SameFound _) (found_swap k j i v w (lookup_field i fs) ne) (found_refl _)
lookup-SameFields i (chain p q) = found_trans (lookup-SameFields i p) (lookup-SameFields i q)

or_default-SameFound :
    (d : Value) {a b : Option Value} → SameFound a b → SameValue (or_default d a) (or_default d b)
or_default-SameFound d both_none = same d
or_default-SameFound d (both_some s) = s

-- The results of `get` are the same but for the order of entries.
pub get-SameValue :
    (k : Text) (d : Value) {v w : Value} → SameValue v w → SameFound (get k d v) (get k d w)
unfolding get
get-SameValue k d (same v) = found_refl (get k d v)
get-SameValue k d (same_arr xs) = both_none
get-SameValue k d (same_obj fs) = both_some (or_default-SameFound d (lookup-SameFields k fs))
