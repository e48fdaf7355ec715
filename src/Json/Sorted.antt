-- ===== src/Json/Sorted.antt =====
-- Dicts that hold the same entries in another order are written alike.
use provable_ai.Base.{◌≡◌, List, ◌≢◌, arith, ◌∷◌, [], refl, Option, some, ap, none, ◌∙◌}
use provable_ai.Text.{Text}
use provable_ai.Text.Sorted.{text_leb-total, text_leb-antisym, text_leb_trans}
use provable_ai.Json.{
  Entry, insert_entry, List, dumps, sort_entries, Value, cons_entry, Items, wrap_entries, Key, arr,
  wrap_items, text_key, other_key, Fields, dump_items, dump_fields, obj, nil, cons, end, field,
}

insert_entry_comm :
    (e f : Entry) (es : List Entry)
    → e.0 ≢ f.0
    → insert_entry e (insert_entry f es) ≡ insert_entry f (insert_entry e es)
unfolding insert_entry
insert_entry_comm e f [] ne = ground (arith, text_leb-total e.0 f.0, text_leb-antisym e.0 f.0)
insert_entry_comm e f (g ∷ es) ne = ground (
  arith,
  insert_entry_comm e f es ne,
  text_leb-total e.0 f.0,
  text_leb-antisym e.0 f.0,
  text_leb_trans e.0 f.0 g.0,
  text_leb_trans f.0 e.0 g.0,
  text_leb-total e.0 g.0,
  text_leb-total f.0 g.0,
)

-- Values that differ only in the order of the entries of their dicts, at any depth.
mutual
  pub data SameValue : Value → Value → Type 0 where
    same : (v : Value) → SameValue v v
    same_arr : {xs ys : Items} → SameItems xs ys → SameValue (arr xs) (arr ys)
    same_obj : {fs gs : Fields} → SameFields fs gs → SameValue (obj fs) (obj gs)

  pub data SameItems : Items → Items → Type 0 where
    same_nil : SameItems nil nil
    same_cons :
        {v w : Value} {xs ys : Items}
        → SameValue v w
        → SameItems xs ys
        → SameItems (cons v xs) (cons w ys)

  pub data SameFields : Fields → Fields → Type 0 where
    same_end : SameFields end end
    same_field :
        {v w : Value} {fs gs : Fields} (k : Key)
        → SameValue v w
        → SameFields fs gs
        → SameFields (field k v fs) (field k w gs)
    swap :
        (k j : Text) (v w : Value) (fs : Fields)
        → k ≢ j
        → SameFields
            (field (text_key k) v (field (text_key j) w fs))
            (field (text_key j) w (field (text_key k) v fs))
    chain : {fs gs hs : Fields} → SameFields fs gs → SameFields gs hs → SameFields fs hs

abbrev sorted_of : Option (List Entry) → Option (List Entry)
sorted_of none = none
sorted_of (some es) = some (sort_entries es)

wrap_sorted :
    (a b : Option (List Entry)) → sorted_of a ≡ sorted_of b → wrap_entries a ≡ wrap_entries b
wrap_sorted none none e = refl
wrap_sorted none (some b) e = cc
wrap_sorted (some a) none e = cc
wrap_sorted (some a) (some b) e = ground arith

cons_sorted :
    (k : Key) (v : Option Text) (a b : Option (List Entry))
    → sorted_of a ≡ sorted_of b
    → sorted_of (cons_entry k v a) ≡ sorted_of (cons_entry k v b)
unfolding sort_entries
cons_sorted (text_key k) none a b e = refl
cons_sorted (text_key k) (some v) none none e = refl
cons_sorted (text_key k) (some v) none (some b) e = cc
cons_sorted (text_key k) (some v) (some a) none e = cc
cons_sorted (text_key k) (some v) (some a) (some b) e = ground arith
cons_sorted (other_key k) v a b e = refl

swap_sorted :
    (k j : Text) (v w : Option Text) (a : Option (List Entry))
    → k ≢ j
    → sorted_of (cons_entry (text_key k) v (cons_entry (text_key j) w a))
      ≡ sorted_of (cons_entry (text_key j) w (cons_entry (text_key k) v a))
unfolding sort_entries
swap_sorted k j none none a ne = refl
swap_sorted k j none (some w) a ne = ground arith
swap_sorted k j (some v) none a ne = ground arith
swap_sorted k j (some v) (some w) none ne = refl
swap_sorted k j (some v) (some w) (some a) ne =
    ground (arith, insert_entry_comm (k, v) (j, w) (sort_entries a))

mutual
  unfolding dumps

  same-dumps : {v w : Value} → SameValue v w → dumps v ≡ dumps w
  same-dumps (same v) = refl
  same-dumps (same_arr xs) = ap wrap_items (same-dump_items xs)
  same-dumps (same_obj fs) = wrap_sorted _ _ (same-dump_fields fs)

  same-dump_items : {xs ys : Items} → SameItems xs ys → dump_items xs ≡ dump_items ys
  same-dump_items same_nil = refl
  same-dump_items (same_cons v xs) = cc (same-dumps v, same-dump_items xs)

  same-dump_fields :
      {fs gs : Fields} → SameFields fs gs → sorted_of (dump_fields fs) ≡ sorted_of (dump_fields gs)
  same-dump_fields same_end = refl
  same-dump_fields (same_field {v = v} {w = w} {fs = fs} {gs = gs} k e es) =
      ap (λ (t : Option Text). sorted_of (cons_entry k t (dump_fields fs))) (same-dumps e)
      ∙ cons_sorted k (dumps w) (dump_fields fs) (dump_fields gs) (same-dump_fields es)
  same-dump_fields (swap k j v w fs ne) = swap_sorted k j (dumps v) (dumps w) (dump_fields fs) ne
  same-dump_fields (chain p q) = same-dump_fields p ∙ same-dump_fields q

-- Values that differ only in the order of dict entries have the same text.
pub dumps-SameValue : {v w : Value} → SameValue v w → dumps v ≡ dumps w
dumps-SameValue s = same-dumps s
