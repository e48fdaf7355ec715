-- ===== src/KeyRegistry/Startup.antt =====
-- A start of the server with a key that was rotated away before.
use provable_ai.Text.{text_eq_refl}
use provable_ai.Base.{List, ◌≡◌, some, false, arith, ◌++◌, ◌∷◌, [], ◌∙◌, sym, true}
use mathlib.Core.List.{append_assoc, List, []}
use provable_ai.KeyRegistry.Rotation.{rotate_key-IsRotated, rotated-active, IsRotated}
use provable_ai.KeyRegistry.Rows.{last_where-skip, last_where-holds, last_where-narrow}
use provable_ai.KeyRegistry.Chain.{IsRegistry}
use provable_ai.KeyRegistry.{
  register_or_update, get_active, rotate_key, Crypto, Text, KeyRow, NewKey, text_eq, last_where, ok,
  of_key, active, of_tenant,
}

-- The old key is still found as active by its own id.
rotated-old :
    {c : Crypto} {now : Text} {rows : List KeyRow} {k : NewKey} {a : KeyRow}
    (h : IsRotated c now rows k a)
    → get_active rows k.tenant_id ≡ some a
    → text_eq k.key_id a.key.key_id ≡ false
    → last_where (of_key a.key.key_id k.tenant_id active) h.after ≡ some a
unfolding get_active
rotated-old {c} {now} {rows} {k} {a} h active_now other =
    let q = of_key a.key.key_id k.tenant_id active in
    let split : h.after ≡ (rows ++ h.gone ∷ []) ++ h.new ∷ [] =
      h.appended ∙ sym (append_assoc rows (h.gone ∷ []) (h.new ∷ [])) in
    let not_new : q h.new ≡ false = rw h.new_key (ground (arith, other)) in
    let not_gone : q h.gone ≡ false = rw h.gone_key (ground arith) in
    let fits : q a ≡ true = ground (
      arith,
      text_eq_refl a.key.key_id,
      last_where-holds (of_tenant k.tenant_id active) rows active_now,
    ) in
    rw split (
      last_where-skip q (rows ++ h.gone ∷ []) h.new not_new
      ∙ (last_where-skip q rows h.gone not_gone
          ∙ last_where-narrow (of_tenant k.tenant_id active) q rows (λ s m. ground arith) active_now
              fits))

-- After a rotation to another key, `register_or_update` with the old key, as a server calls it
-- that starts with that key, changes nothing: it returns the old key's first row, and the key
-- of the rotation stays the active one.
pub startup_with_old_key :
    (c : Crypto) (now later : Text) (rows : List KeyRow) (k old : NewKey) (a : KeyRow)
    → IsRegistry c rows
    → get_active rows k.tenant_id ≡ some a
    → old.key_id ≡ a.key.key_id
    → old.tenant_id ≡ k.tenant_id
    → text_eq k.key_id a.key.key_id ≡ false
    → (after : List KeyRow) × (new : KeyRow) × (gone : KeyRow) × (rotate_key c now rows k
        ≡ ok (after, new, some gone))
      × (register_or_update c later after old ≡ ok (after, a))
      × (get_active after old.tenant_id ≡ some new)
unfolding register_or_update
startup_with_old_key c now later rows k old a h active_now same_key same_tenant other =
    let rotated = rotate_key-IsRotated c now rows k a h active_now in
    (
      rotated.after,
      rotated.new,
      rotated.gone,
      rotated.answer,
      rw same_key (rw same_tenant (ground (arith, rotated-old rotated active_now other))),
      rw same_tenant (rotated-active rotated),
    )
