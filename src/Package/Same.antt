-- ===== src/Package/Same.antt =====
-- The parts of a package that the order of its dicts' entries does not change.
use provable_ai.Base.{Option, none, some, ◌≡◌, refl, ◌∙◌}
use provable_ai.Base.Optional.{◌>>=◌}
use provable_ai.Text.{Text}
use provable_ai.Json.{Value, Items, Fields, obj, cons, nil}
use provable_ai.Json.Lookup.{SameFound, both_none, both_some, get-SameValue}
use provable_ai.Json.Sorted.{
  SameValue, SameItems, SameFields, same, same_arr, same_obj, same_nil, same_cons, same_end,
  same_field, swap, chain,
}
use provable_ai.Json.Encode.{dump_bytes, dump_bytes-SameValue}
use provable_ai.Crypto.{Crypto}
use provable_ai.Package.{
  is_str, as_text, truthy, hash_content, dumped_hash, recompute_entry_hash, entry_hash, join_hashes,
  compute_instance_root, compute_package_hash, hex_of, fail_showing, final_state_of, last_item,
  block_of,
}

pub bind_same {ℓ} :
    {B : Type ℓ} {a b : Option Value} {f g : Value → Option B}
    → SameFound a b
    → ((v w : Value) → SameValue v w → f v ≡ g w)
    → (a >>= f) ≡ (b >>= g)
bind_same both_none next = refl
bind_same (both_some s) next = next _ _ s

pub bind_SameFound :
    {a b : Option Value} {f g : Value → Option Value}
    → SameFound a b
    → ((v w : Value) → SameValue v w → SameFound (f v) (g w))
    → SameFound (a >>= f) (b >>= g)
bind_SameFound both_none next = both_none
bind_SameFound (both_some s) next = next _ _ s

pub is_str_same : (t : Text) {v w : Value} → SameValue v w → is_str t v ≡ is_str t w
is_str_same t (same v) = refl
is_str_same t (same_arr xs) = refl
is_str_same t (same_obj fs) = refl

as_text_same : {v w : Value} → SameValue v w → as_text v ≡ as_text w
as_text_same (same v) = refl
as_text_same (same_arr xs) = refl
as_text_same (same_obj fs) = refl

pub hex_of_same : {v w : Value} → SameValue v w → hex_of v ≡ hex_of w
hex_of_same (same v) = refl
hex_of_same (same_arr xs) = refl
hex_of_same (same_obj fs) = refl

pub fail_showing_same : {v w : Value} → SameValue v w → fail_showing v ≡ fail_showing w
fail_showing_same (same v) = refl
fail_showing_same (same_arr xs) = refl
fail_showing_same (same_obj fs) = refl

truthy_obj : {fs gs : Fields} → SameFields fs gs → truthy (obj fs) ≡ truthy (obj gs)
truthy_obj same_end = refl
truthy_obj (same_field k v fs) = refl
truthy_obj (swap k j v w fs ne) = refl
truthy_obj (chain p q) = truthy_obj p ∙ truthy_obj q

pub truthy_same : {v w : Value} → SameValue v w → truthy v ≡ truthy w
truthy_same (same v) = refl
truthy_same (same_arr same_nil) = refl
truthy_same (same_arr (same_cons v xs)) = refl
truthy_same (same_obj fs) = truthy_obj fs

hash_content_same :
    (c : Crypto) {a b d e f g h i j k l m : Value}
    → SameValue a b
    → SameValue d e
    → SameValue f g
    → SameValue h i
    → SameValue j k
    → SameValue l m
    → dumped_hash c (hash_content a d f h j l) ≡ dumped_hash c (hash_content b e g i k m)
unfolding dumped_hash
hash_content_same c {a} {b} {d} {e} {f} {g} {h} {i} {j} {k} {l} {m} p1 p2 p3 p4 p5 p6 =
    let texts : dump_bytes (hash_content a d f h j l) ≡ dump_bytes (hash_content b e g i k m) =
      dump_bytes-SameValue (
        same_obj (
          same_field _ p1 (
            same_field _ p2
              (same_field _ p3 (same_field _ p4 (same_field _ p5 (same_field _ p6 same_end))))))) in
    rw texts refl

pub recompute_entry_hash-SameValue :
    (c : Crypto) {v w : Value} → SameValue v w → recompute_entry_hash c v ≡ recompute_entry_hash c w
unfolding recompute_entry_hash
recompute_entry_hash-SameValue c s = bind_same (get-SameValue _ _ s) (λ l m ledger.
    bind_same (get-SameValue _ _ s) (λ _ _ p1. bind_same (get-SameValue _ _ s) (λ _ _ p2.
      bind_same (get-SameValue _ _ s) (λ _ _ p3. bind_same (get-SameValue _ _ s) (λ _ _ p4.
        bind_same (get-SameValue _ _ ledger) (λ _ _ p5.
          bind_same (get-SameValue _ _ ledger)
            (λ _ _ p6. hash_content_same c p1 p2 p3 p4 p5 p6)))))))

entry_hash_same : {v w : Value} → SameValue v w → SameFound (entry_hash v) (entry_hash w)
entry_hash_same s = bind_SameFound (get-SameValue _ _ s) (λ _ _ l. get-SameValue _ _ l)

join_hashes_same : {xs ys : Items} → SameItems xs ys → join_hashes xs ≡ join_hashes ys
unfolding join_hashes
join_hashes_same same_nil = refl
join_hashes_same (same_cons {xs = xs} {ys = ys} s more) =
    bind_same (entry_hash_same s) (λ v w h. rw (as_text_same h) (rw (join_hashes_same more) refl))

pub root_same :
    (c : Crypto) {xs ys : Items}
    → SameItems xs ys
    → compute_instance_root c xs ≡ compute_instance_root c ys
unfolding compute_instance_root
root_same c s = rw (join_hashes_same s) refl

pub package_hash_same :
    (c : Crypto) {xs ys : Items}
    → SameItems xs ys
    → compute_package_hash c xs ≡ compute_package_hash c ys
unfolding compute_package_hash dumped_hash
package_hash_same c s = rw (dump_bytes-SameValue (same_arr s)) refl

pub bind_next {ℓ κ} :
    {A : Type ℓ} {B : Type κ} (o : Option A) {f g : A → Option B}
    → ((a : A) → f a ≡ g a)
    → (o >>= f) ≡ (o >>= g)
bind_next none h = refl
bind_next (some a) h = h a

pub block_same : {v w : Value} → SameValue v w → SameFound (block_of v) (block_of w)
block_same s = get-SameValue _ _ s

last_item_same :
    {v w : Value} {xs ys : Items}
    → SameValue v w
    → SameItems xs ys
    → SameValue (last_item v xs) (last_item w ys)
last_item_same s same_nil = s
last_item_same s (same_cons p more) = last_item_same p more

pub final_state_same :
    (d : Value) {xs ys : Items}
    → SameItems xs ys
    → SameFound (final_state_of d xs) (final_state_of d ys)
unfolding final_state_of
final_state_same d same_nil = both_none
final_state_same d (same_cons s more) =
    bind_SameFound (get-SameValue _ _ (last_item_same s more))
      (λ _ _ decision. get-SameValue _ _ decision)

pub items_refl : (xs : Items) → SameItems xs xs
items_refl nil = same_nil
items_refl (cons v xs) = same_cons (same v) (items_refl xs)
