-- ===== src/Json/Spaced.antt =====
-- json.dumps(v, sort_keys=True) with its default separators, and with ensure_ascii.
use provable_ai.Base.{Option, none, some, true, false, List, [], ◌∷◌, ◌++◌}
use provable_ai.Text.{Text, codes}
use provable_ai.Json.{
  Value, Items, Fields, Entry, null, bool, int, str, arr, obj, foreign, nil, cons, end, field,
  int_text, quote, sort_entries, cons_entry, cons_text,
}
use provable_ai.Json.Ascii.{to_ascii}

-- ", ".join(ts)
unfoldable pub join_spaced : List Text → Text
join_spaced [] = []
join_spaced (t ∷ []) = t
join_spaced (t ∷ u ∷ ts) = t ++ 44 ∷ 32 ∷ join_spaced (u ∷ ts)

unfoldable pub spaced_texts : List Entry → List Text
spaced_texts [] = []
spaced_texts ((k, v) ∷ es) = (quote k ++ 58 ∷ 32 ∷ v) ∷ spaced_texts es

abbrev spaced_list : Option (List Text) → Option Text
spaced_list none = none
spaced_list (some ts) = some (91 ∷ (join_spaced ts ++ 93 ∷ []))

abbrev spaced_dict : Option (List Entry) → Option Text
spaced_dict none = none
spaced_dict (some es) = some (123 ∷ (join_spaced (spaced_texts (sort_entries es)) ++ 125 ∷ []))

unfoldable mutual
  pub spaced : Value → Option Text
  spaced null = some (codes "null")
  spaced (bool true) = some (codes "true")
  spaced (bool false) = some (codes "false")
  spaced (int n) = some (int_text n)
  spaced (str s) = some (quote s)
  spaced (arr xs) = spaced_list (spaced_items xs)
  spaced (obj fs) = spaced_dict (spaced_fields fs)
  spaced (foreign kind text) = text

  pub spaced_items : Items → Option (List Text)
  spaced_items nil = some []
  spaced_items (cons v xs) = cons_text (spaced v) (spaced_items xs)

  pub spaced_fields : Fields → Option (List Entry)
  spaced_fields end = some []
  spaced_fields (field k v fs) = cons_entry k (spaced v) (spaced_fields fs)

abbrev pub ascii_text : Option Text → Option Text
ascii_text none = none
ascii_text (some t) = some (to_ascii t)
