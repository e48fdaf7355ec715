-- ===== src/KeyRegistry/Rotation.antt =====
-- A rotation: which key is active afterwards, and when each key was.
use provable_ai.Text.{text_eq_refl}
use provable_ai.Base.{
  List, ◌≡◌, some, ◌++◌, ◌∷◌, false, Option, [], true, ap, ◌∙◌, arith, sym, none, Bool, ◌&&◌, not,
  refl,
}
use mathlib.Core.List.{append_assoc, List, []}
use provable_ai.KeyRegistry.Rows.{last_where-append, first_where-append, or_else}
use provable_ai.KeyRegistry.Chain.{IsRegistry, insert_key-IsRegistry}
use provable_ai.KeyRegistry.{
  rotate_key, get_active, was_active_at, first_where, Crypto, Text, KeyRow, of_key, NewKey, retired,
  ok, retirement, of_tenant, is_empty, active, text_leb, active_row, Key, text_eq, Status,
}

-- The rows after a rotation away from the row `a`.
pub record IsRotated (c : Crypto) (now : Text) (rows : List KeyRow) (k : NewKey) (a : KeyRow)
    : Type 0 where
  pub gone : KeyRow
  pub new : KeyRow
  pub after : List KeyRow
  pub answer : rotate_key c now rows k ≡ ok (after, new, some gone)
  pub appended : after ≡ rows ++ gone ∷ new ∷ []
  pub gone_key : gone.key ≡ retirement now k.tenant_id k.key_id k.notes a
  pub new_key : new.key ≡ active_row now k
  pub kept : IsRegistry c after

pub rotate_key-IsRotated :
    (c : Crypto) (now : Text) (rows : List KeyRow) (k : NewKey) (a : KeyRow)
    → IsRegistry c rows
    → get_active rows k.tenant_id ≡ some a
    → IsRotated c now rows k a
unfolding rotate_key
rotate_key-IsRotated c now rows k a h active_now =
    let (gone, removed, gone_key, kept) =
      insert_key-IsRegistry c rows (retirement now k.tenant_id k.key_id k.notes a) h in
    let (new, inserted, new_key, kept') =
      insert_key-IsRegistry c (rows ++ gone ∷ []) (active_row now k) kept in
    record {
      gone = gone;
      new = new;
      after = (rows ++ gone ∷ []) ++ new ∷ [];
      answer = ground (arith, active_now, removed, inserted);
      appended = append_assoc rows (gone ∷ []) (new ∷ []);
      gone_key = gone_key;
      new_key = new_key;
      kept = kept';
    }

-- The new key is the active one.
pub rotated-active :
    {c : Crypto} {now : Text} {rows : List KeyRow} {k : NewKey} {a : KeyRow}
    (h : IsRotated c now rows k a)
    → get_active h.after k.tenant_id ≡ some h.new
unfolding get_active
rotated-active {c} {now} {rows} {k} {a} h =
    let own : of_tenant k.tenant_id active h.new ≡ true =
      rw h.new_key (ground (arith, text_eq_refl k.tenant_id)) in
    let split : h.after ≡ (rows ++ h.gone ∷ []) ++ h.new ∷ [] =
      h.appended ∙ sym (append_assoc rows (h.gone ∷ []) (h.new ∷ [])) in
    rw split (last_where-append (of_tenant k.tenant_id active) (rows ++ h.gone ∷ []) h.new own)

-- A key whose first retirement row is at or before a time was not active then, whatever rows
-- follow.
retired_stays_out :
    (rows more : List KeyRow) (j t at was : Text) (r : KeyRow)
    → first_where (of_key j t retired) rows ≡ some r
    → r.key.retired_at ≡ some was
    → is_empty was ≡ false
    → text_leb was at ≡ true
    → was_active_at (rows ++ more) j t at ≡ false
unfolding was_active_at
retired_stays_out rows more j t at was r found dated given before =
    let first : first_where (of_key j t retired) (rows ++ more) ≡ some r =
      first_where-append (of_key j t retired) rows more
      ∙ ap (λ o. or_else o (first_where (of_key j t retired) more)) found in
    ground (arith, first, dated, given, before)

-- A rotation back to a key that was retired before: the key is the active one again, and
-- `was_active_at` denies it for every time from its retirement on, the present included.
pub rotate_back_denied :
    (c : Crypto) (now : Text) (rows : List KeyRow) (k : NewKey) (a r : KeyRow) (was : Text)
    → IsRegistry c rows
    → get_active rows k.tenant_id ≡ some a
    → first_where (of_key k.key_id k.tenant_id retired) rows ≡ some r
    → r.key.retired_at ≡ some was
    → is_empty was ≡ false
    → (after : List KeyRow) × (new : KeyRow) × (old : Option KeyRow) × (rotate_key c now rows k
        ≡ ok (after, new, old))
      × (get_active after k.tenant_id ≡ some new)
      × (new.key.key_id ≡ k.key_id)
      × ((at : Text) → text_leb was at ≡ true → was_active_at after k.key_id k.tenant_id at ≡ false)
rotate_back_denied c now rows k a r was h active_now found dated given =
    let rotated = rotate_key-IsRotated c now rows k a h active_now in
    (
      rotated.after,
      rotated.new,
      some rotated.gone,
      rotated.answer,
      rotated-active rotated,
      ap (λ (x : Key). x.key_id) rotated.new_key,
      λ at before. rw rotated.appended (
          retired_stays_out rows (rotated.gone ∷ rotated.new ∷ []) k.key_id k.tenant_id at was r
            found dated given before),
    )

-- What one of the queries finds first after a rotation.
rotated-first :
    {c : Crypto} {now : Text} {rows : List KeyRow} {k : NewKey} {a : KeyRow}
    (h : IsRotated c now rows k a) (p : KeyRow → Bool)
    → first_where p h.after ≡ or_else (first_where p rows) (first_where p (h.gone ∷ h.new ∷ []))
rotated-first {c} {now} {rows} {k} {a} h p =
    ap (first_where p) h.appended ∙ first_where-append p rows (h.gone ∷ h.new ∷ [])

and_true : (b : Bool) → (b && true) ≡ b
and_true true = refl
and_true false = refl

or_else-none : (o : Option KeyRow) → or_else o none ≡ o
or_else-none none = refl
or_else-none (some r) = refl

-- A query that neither of the new rows fits.
rotated-missed :
    {c : Crypto} {now : Text} {rows : List KeyRow} {k : NewKey} {a : KeyRow}
    (h : IsRotated c now rows k a) (p : KeyRow → Bool)
    → p h.gone ≡ false
    → p h.new ≡ false
    → first_where p h.after ≡ first_where p rows
unfolding first_where
rotated-missed {c} {now} {rows} h p not_gone not_new =
    rotated-first h p ∙ rw not_gone (rw not_new (or_else-none (first_where p rows)))

-- A query that found nothing before and that one of the new rows fits.
rotated-found :
    {c : Crypto} {now : Text} {rows : List KeyRow} {k : NewKey} {a : KeyRow}
    (h : IsRotated c now rows k a) (p : KeyRow → Bool)
    → first_where p rows ≡ none
    → first_where p h.after ≡ first_where p (h.gone ∷ h.new ∷ [])
rotated-found {c} {now} {rows} h p none_before =
    rotated-first h p ∙ ap (λ o. or_else o (first_where p (h.gone ∷ h.new ∷ []))) none_before

-- A key of which the registry had no row was active from the rotation on.
pub rotated-new :
    {c : Crypto} {now : Text} {rows : List KeyRow} {k : NewKey} {a : KeyRow}
    (h : IsRotated c now rows k a) (at : Text)
    → first_where (of_key k.key_id k.tenant_id active) rows ≡ none
    → first_where (of_key k.key_id k.tenant_id retired) rows ≡ none
    → text_eq a.key.key_id k.key_id ≡ false
    → was_active_at h.after k.key_id k.tenant_id at ≡ text_leb now at
unfolding was_active_at first_where
rotated-new {c} {now} {rows} {k} {a} h at no_active no_retired other =
    let p = of_key k.key_id k.tenant_id active in
    let q = of_key k.key_id k.tenant_id retired in
    let own : p h.new ≡ true =
      rw h.new_key (ground (arith, text_eq_refl k.key_id, text_eq_refl k.tenant_id)) in
    let not_gone : p h.gone ≡ false = rw h.gone_key (ground (arith, other)) in
    let found : first_where p h.after ≡ some h.new =
      rotated-found h p no_active ∙ rw not_gone (rw own refl) in
    let no_gone : q h.gone ≡ false = rw h.gone_key (ground (arith, other)) in
    let no_new : q h.new ≡ false = rw h.new_key (ground arith) in
    let missed : first_where q h.after ≡ none = rotated-missed h q no_gone no_new ∙ no_retired in
    rw found (rw missed (rw h.new_key (and_true (text_leb now at))))

-- A key that was active and is retired by the rotation.
pub rotated-gone :
    {c : Crypto} {now : Text} {rows : List KeyRow} {k : NewKey} {a : KeyRow}
    (h : IsRotated c now rows k a) (at : Text)
    → get_active rows k.tenant_id ≡ some a
    → first_where (of_key a.key.key_id k.tenant_id retired) rows ≡ none
    → text_eq k.key_id a.key.key_id ≡ false
    → is_empty now ≡ false
    → was_active_at h.after a.key.key_id k.tenant_id at
      ≡ (was_active_at rows a.key.key_id k.tenant_id at && not (text_leb now at))
unfolding was_active_at first_where
rotated-gone {c} {now} {rows} {k} {a} h at active_now no_retired other given =
    let p = of_key a.key.key_id k.tenant_id active in
    let q = of_key a.key.key_id k.tenant_id retired in
    let not_gone : p h.gone ≡ false = rw h.gone_key (ground arith) in
    let not_new : p h.new ≡ false = rw h.new_key (ground (arith, other)) in
    let own : q h.gone ≡ true =
      rw h.gone_key (ground (arith, text_eq_refl a.key.key_id, text_eq_refl k.tenant_id)) in
    let found : first_where q h.after ≡ some h.gone = rotated-found h q no_retired ∙ rw own refl in
    rw (rotated-missed h p not_gone not_new)
      (rw found (rw no_retired (rw h.gone_key (ground (arith, given)))))

-- Any other key, or one of another tenant.
pub rotated-other :
    {c : Crypto} {now : Text} {rows : List KeyRow} {k : NewKey} {a : KeyRow}
    (h : IsRotated c now rows k a) (j t at : Text)
    → (text_eq k.key_id j && text_eq k.tenant_id t) ≡ false
    → (text_eq a.key.key_id j && text_eq k.tenant_id t) ≡ false
    → was_active_at h.after j t at ≡ was_active_at rows j t at
unfolding was_active_at first_where
rotated-other {c} {now} {rows} {k} {a} h j t at not_new not_gone =
    let missed : (s : Status)
        → first_where (of_key j t s) h.after ≡ first_where (of_key j t s) rows =
      λ s.
        rotated-missed h (of_key j t s) (rw h.gone_key (ground (arith, not_gone)))
          (rw h.new_key (ground (arith, not_new))) in
    rw (missed active) (rw (missed retired) refl)
