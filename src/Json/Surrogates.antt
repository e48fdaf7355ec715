-- ===== src/Json/Surrogates.antt =====
-- Where json.dumps with ensure_ascii=False writes a surrogate: exactly where a text has one.
use provable_ai.Base.{
  ℕ, zero, suc, Bool, false, ◌||◌, List, [], ◌∷◌, ◌++◌, ◌≡◌, refl, ◌∙◌, arith, ◌+◌, ◌/◌, ◌%◌,
}
use provable_ai.Base.Int.{ℤ, pos, negsuc}
use provable_ai.Text.{Text}
use provable_ai.Text.Decimal.{decimal, digits_from}
use provable_ai.Json.{
  Entry, insert_entry, sort_entries, entry_texts, join, escape, escape_all, quote, int_text,
}
use provable_ai.Json.Utf8.{has_surrogate, is_surrogate}

pub has_surrogate-append :
    (s t : Text) → has_surrogate (s ++ t) ≡ (has_surrogate s || has_surrogate t)
unfolding has_surrogate
has_surrogate-append [] t = refl
has_surrogate-append (c ∷ s) t = ground (arith, has_surrogate-append s t)

has_surrogate-escape : (c : ℕ) → has_surrogate (escape c) ≡ is_surrogate c
unfolding has_surrogate
has_surrogate-escape c = ground arith

has_surrogate-escape_all : (s : Text) → has_surrogate (escape_all s) ≡ has_surrogate s
unfolding has_surrogate escape_all
has_surrogate-escape_all [] = refl
has_surrogate-escape_all (c ∷ s) =
    has_surrogate-append (escape c) (escape_all s)
    ∙ rw (has_surrogate-escape c, has_surrogate-escape_all s) refl

pub has_surrogate-quote : (s : Text) → has_surrogate (quote s) ≡ has_surrogate s
unfolding has_surrogate
has_surrogate-quote s =
    ground (arith, has_surrogate-append (escape_all s) (34 ∷ []), has_surrogate-escape_all s)

digits_from-clean :
    (fuel n : ℕ) (acc : Text)
    → has_surrogate acc ≡ false
    → has_surrogate (digits_from fuel n acc) ≡ false
unfolding has_surrogate digits_from
digits_from-clean zero n acc h = h
digits_from-clean (suc fuel) n acc h =
    ground (arith, digits_from-clean fuel (n / 10) ((48 + n % 10) ∷ acc))

pub has_surrogate-int_text : (n : ℤ) → has_surrogate (int_text n) ≡ false
unfolding has_surrogate int_text decimal
has_surrogate-int_text (pos n) = digits_from-clean (suc n) n [] refl
has_surrogate-int_text (negsuc n) = digits_from-clean (suc (suc n)) (suc n) [] refl

unfoldable pub any_surrogate : List Text → Bool
any_surrogate [] = false
any_surrogate (t ∷ ts) = has_surrogate t || any_surrogate ts

has_surrogate-join : (ts : List Text) → has_surrogate (join ts) ≡ any_surrogate ts
unfolding has_surrogate any_surrogate join
has_surrogate-join [] = refl
has_surrogate-join (t ∷ []) = ground arith
has_surrogate-join (t ∷ u ∷ ts) =
    ground (arith, has_surrogate-append t (44 ∷ join (u ∷ ts)), has_surrogate-join (u ∷ ts))

pub has_surrogate-wrapped :
    (a b : ℕ) (ts : List Text)
    → is_surrogate a ≡ false
    → is_surrogate b ≡ false
    → has_surrogate (a ∷ (join ts ++ b ∷ [])) ≡ any_surrogate ts
unfolding has_surrogate
has_surrogate-wrapped a b ts ha hb =
    ground (arith, has_surrogate-append (join ts) (b ∷ []), has_surrogate-join ts)

unfoldable pub any_in_entries : List Entry → Bool
any_in_entries [] = false
any_in_entries ((k, v) ∷ es) = has_surrogate k || has_surrogate v || any_in_entries es

any_surrogate-entry_texts : (es : List Entry) → any_surrogate (entry_texts es) ≡ any_in_entries es
unfolding any_surrogate any_in_entries entry_texts has_surrogate
any_surrogate-entry_texts [] = refl
any_surrogate-entry_texts ((k, v) ∷ es) = ground (
  arith,
  has_surrogate-append (quote k) (58 ∷ v),
  has_surrogate-quote k,
  any_surrogate-entry_texts es,
)

any_in_entries-insert :
    (e : Entry) (es : List Entry) → any_in_entries (insert_entry e es) ≡ any_in_entries (e ∷ es)
unfolding any_in_entries insert_entry
any_in_entries-insert e [] = refl
any_in_entries-insert e (f ∷ es) = ground (arith, any_in_entries-insert e es)

any_in_entries-sort : (es : List Entry) → any_in_entries (sort_entries es) ≡ any_in_entries es
unfolding any_in_entries sort_entries
any_in_entries-sort [] = refl
any_in_entries-sort (e ∷ es) =
    ground (arith, any_in_entries-insert e (sort_entries es), any_in_entries-sort es)

pub has_surrogate-sorted :
    (es : List Entry) → any_surrogate (entry_texts (sort_entries es)) ≡ any_in_entries es
has_surrogate-sorted es = any_surrogate-entry_texts (sort_entries es) ∙ any_in_entries-sort es
