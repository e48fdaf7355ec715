-- ===== src/Json.antt =====
-- Python values as the source handles them, and `json.dumps(v, sort_keys=True,
-- separators=(",", ":"), ensure_ascii=False)`.
pub mod Sorted
pub mod Lookup
pub mod Utf8
pub mod Ascii
pub mod Spaced
pub mod Encode
pub mod Surrogates
use provable_ai.Base.{
  ℕ, zero, suc, ◌+◌, ◌/◌, ◌%◌, Bool, true, false, ◌||◌, Option, none, some, List, [], ◌∷◌, ◌++◌,
  ltb, ◌==◌, if◌then◌else◌,
}
use provable_ai.Base.Int.{ℤ, pos, negsuc}
use provable_ai.Text.{Text, codes, text_leb}
use provable_ai.Text.Hex.{hex_digit}
use provable_ai.Text.Decimal.{decimal}

-- The types that canonical.py lists under `_FORBIDDEN`, and all others.
pub data Forbidden : Type 0 where
  float decimal_type datetime date uuid enum bytes set tuple other_type : Forbidden

-- A key of a dict: a `str`, or a key of another type, which only validation meets.
pub data Key : Type 0 where
  text_key : Text → Key
  other_key : Text → Key

-- A value. `foreign` is one of a type outside JSON's own, with what `json.dumps` writes for it
-- (`none` where that raises TypeError).
mutual
  pub data Value : Type 0 where
    null : Value
    bool : Bool → Value
    int : ℤ → Value
    str : Text → Value
    arr : Items → Value
    obj : Fields → Value
    foreign : Forbidden → Option Text → Value

  pub data Fields : Type 0 where
    end : Fields
    field : Key → Value → Fields → Fields

  pub data Items : Type 0 where
    nil : Items
    cons : Value → Items → Items

-- The escape of one character: quotes, backslashes and control characters.
abbrev pub escape : ℕ → Text
escape c =
    if c == 34
    then codes "\\\""
    else if c == 92
    then codes "\\\\"
    else if c == 10
    then codes "\\n"
    else if c == 13
    then codes "\\r"
    else if c == 9
    then codes "\\t"
    else if c == 12
    then codes "\\f"
    else if c == 8
    then codes "\\b"
    else if ltb c 32
    then codes "\\u00" ++ hex_digit (c / 16) ∷ hex_digit (c % 16) ∷ []
    else c ∷ []

unfoldable pub escape_all : Text → Text
escape_all [] = []
escape_all (c ∷ s) = escape c ++ escape_all s

abbrev pub quote : Text → Text
quote s = 34 ∷ (escape_all s ++ 34 ∷ [])

unfoldable pub int_text : ℤ → Text
int_text (pos n) = decimal n
int_text (negsuc n) = 45 ∷ decimal (suc n)

-- Entries with their values written out, ordered by key. An entry goes before the first that has
-- a key at least as large.
abbrev pub Entry : Type 0
Entry = Text × Text

unfoldable pub insert_entry : Entry → List Entry → List Entry
insert_entry e [] = e ∷ []
insert_entry e (f ∷ fs) = if text_leb e.0 f.0 then e ∷ f ∷ fs else f ∷ insert_entry e fs

unfoldable pub sort_entries : List Entry → List Entry
sort_entries [] = []
sort_entries (e ∷ es) = insert_entry e (sort_entries es)

abbrev pub entry_text : Entry → Text
entry_text (k, v) = quote k ++ 58 ∷ v

-- ",".join(ts)
unfoldable pub join : List Text → Text
join [] = []
join (t ∷ []) = t
join (t ∷ u ∷ ts) = t ++ 44 ∷ join (u ∷ ts)

unfoldable pub entry_texts : List Entry → List Text
entry_texts [] = []
entry_texts (e ∷ es) = entry_text e ∷ entry_texts es

abbrev pub cons_entry : Key → Option Text → Option (List Entry) → Option (List Entry)
cons_entry (text_key k) (some v) (some es) = some ((k, v) ∷ es)
cons_entry _ _ _ = none

abbrev pub cons_text : Option Text → Option (List Text) → Option (List Text)
cons_text (some t) (some ts) = some (t ∷ ts)
cons_text _ _ = none

abbrev pub wrap_items : Option (List Text) → Option Text
wrap_items none = none
wrap_items (some ts) = some (91 ∷ (join ts ++ 93 ∷ []))

abbrev pub wrap_entries : Option (List Entry) → Option Text
wrap_entries none = none
wrap_entries (some es) = some (123 ∷ (join (entry_texts (sort_entries es)) ++ 125 ∷ []))

-- json.dumps; `none` is its TypeError. A dict with a key that is no `str` is among the errors here,
-- though Python also writes numbers, booleans and None as keys.
unfoldable mutual
  pub dumps : Value → Option Text
  dumps null = some (codes "null")
  dumps (bool true) = some (codes "true")
  dumps (bool false) = some (codes "false")
  dumps (int n) = some (int_text n)
  dumps (str s) = some (quote s)
  dumps (arr xs) = wrap_items (dump_items xs)
  dumps (obj fs) = wrap_entries (dump_fields fs)
  dumps (foreign kind text) = text

  pub dump_items : Items → Option (List Text)
  dump_items nil = some []
  dump_items (cons v xs) = cons_text (dumps v) (dump_items xs)

  pub dump_fields : Fields → Option (List Entry)
  dump_fields end = some []
  dump_fields (field k v fs) = cons_entry k (dumps v) (dump_fields fs)
