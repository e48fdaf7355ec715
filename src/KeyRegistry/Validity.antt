-- ===== src/KeyRegistry/Validity.antt =====
-- When each key was active, after a rotation to a new key.
use provable_ai.Text.{text_eq→eq, text_eq_refl}
use provable_ai.Base.{
  List, ◌≡◌, some, false, Bool-cases, inr, inl, none, arith, subst, ◌&&◌, true, not, sym,
}
use provable_ai.KeyRegistry.Rotation.{
  rotate_key-IsRotated, rotated-active, rotated-new, rotated-gone, rotated-other,
}
use provable_ai.KeyRegistry.Chain.{IsRegistry}
use provable_ai.KeyRegistry.Rows.{first_where-missed, last_where-holds}
use provable_ai.KeyRegistry.{
  rotate_key, was_active_at, get_active, Crypto, List, Text, text_eq, KeyRow, NewKey, is_empty,
  first_where, of_key, active, retired, ok, text_leb, of_tenant,
}

-- The old key's id is not the new one's, of which there is no row.
other_id :
    (rows : List KeyRow) (k : NewKey) (a : KeyRow)
    → get_active rows k.tenant_id ≡ some a
    → first_where (of_key k.key_id k.tenant_id active) rows ≡ none
    → text_eq a.key.key_id k.key_id ≡ false
unfolding get_active
other_id rows k a active_now no_row = ground (
  arith,
  first_where-missed (of_tenant k.tenant_id active) (of_key k.key_id k.tenant_id active) rows
      active_now no_row,
  last_where-holds (of_tenant k.tenant_id active) rows active_now,
)

text_eq-swap : (a b : Text) → text_eq a b ≡ false → text_eq b a ≡ false
text_eq-swap a b h = elim (Bool-cases (text_eq b a)) [
  | inr other ↦ other
  | inl same ↦
      let e : b ≡ a = text_eq→eq b a same in
      absurd (ground (arith, h, subst (λ x. text_eq a x ≡ true) (sym e) (text_eq_refl a)))
]

-- A rotation from the active key to one of which the tenant has no row: the new key is the active
-- one and, for `was_active_at`, was active from the rotation on; the old key, if it was never
-- retired before, was active when it was before, but no longer from the rotation on; and nothing
-- changes for other keys and other tenants.
pub rotate_key-was_active_at :
    (c : Crypto) (now : Text) (rows : List KeyRow) (k : NewKey) (a : KeyRow)
    → IsRegistry c rows
    → is_empty now ≡ false
    → get_active rows k.tenant_id ≡ some a
    → first_where (of_key a.key.key_id k.tenant_id retired) rows ≡ none
    → first_where (of_key k.key_id k.tenant_id active) rows ≡ none
    → first_where (of_key k.key_id k.tenant_id retired) rows ≡ none
    → (after : List KeyRow) × (new : KeyRow) × (gone : KeyRow) × (rotate_key c now rows k
        ≡ ok (after, new, some gone))
      × (get_active after k.tenant_id ≡ some new)
      × ((at : Text) → was_active_at after k.key_id k.tenant_id at ≡ text_leb now at)
      × ((at : Text)
          → was_active_at after a.key.key_id k.tenant_id at
            ≡ (was_active_at rows a.key.key_id k.tenant_id at && not (text_leb now at)))
      × ((j t at : Text)
          → (text_eq k.key_id j && text_eq k.tenant_id t) ≡ false
          → (text_eq a.key.key_id j && text_eq k.tenant_id t) ≡ false
          → was_active_at after j t at ≡ was_active_at rows j t at)
rotate_key-was_active_at c now rows k a h given active_now not_retired no_active no_retired =
    let rotated = rotate_key-IsRotated c now rows k a h active_now in
    let other = other_id rows k a active_now no_active in
    (
      rotated.after,
      rotated.new,
      rotated.gone,
      rotated.answer,
      rotated-active rotated,
      λ at. rotated-new rotated at no_active no_retired other,
      λ at.
          rotated-gone rotated at active_now not_retired (text_eq-swap a.key.key_id k.key_id other)
            given,
      λ j t at. rotated-other rotated j t at,
    )
