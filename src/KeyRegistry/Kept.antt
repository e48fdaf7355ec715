-- ===== src/KeyRegistry/Kept.antt =====
-- What every call that registers a key keeps.
use provable_ai.Base.{
  List, ◌++◌, Option, ◌≡◌, [], some, sym, ap, ◌∷◌, true, refl, Option-cases, subst, none, inr, inl,
  arith,
}
use mathlib.Core.List.{append_assoc, append-nil}
use provable_ai.KeyRegistry.Chain.{IsRegistry, insert_key-IsRegistry, walk_keys-IsChained}
use provable_ai.KeyRegistry.{
  register_key, register_or_update, rotate_key, retire, get_active, verify_registry, Crypto, Result,
  NewKey, List, RegistryError, Text, KeyRow, ok, Key, insert_key, genesis_hash, err, keys_of,
  has_active, retirement, last_where, of_key, active, active_row, startup_notes, other_than,
}

pub data Call : Type 0 where
  register : NewKey → Call
  startup : NewKey → Call
  rotate : NewKey → Call

abbrev rows_by {ℓ} :
    {A : Type ℓ} → (A → List KeyRow) → Result RegistryError A → Result RegistryError (List KeyRow)
rows_by f (ok a) = ok (f a)
rows_by f (err e) = err e

-- The rows after a call, at its time.
unfoldable pub perform : Crypto → Text → List KeyRow → Call → Result RegistryError (List KeyRow)
perform c now rows (register k) = rows_by (λ a. a.0) (register_key c now rows k)
perform c now rows (startup k) = rows_by (λ a. a.0) (register_or_update c now rows k)
perform c now rows (rotate k) = rows_by (λ a. a.0) (rotate_key c now rows k)

-- The rows are those from before and some more, and each tenant's chain verifies; the only error
-- is that of an active key.
abbrev pub Kept : Crypto → List KeyRow → Result RegistryError (List KeyRow) → Type 0
Kept c rows (ok after) =
    ((more : List KeyRow) × (after ≡ rows ++ more))
    × IsRegistry c after
    × ((t : Text) → verify_registry c t after ≡ some true)
Kept c rows (err e) = (key_id : Text) × (e ≡ has_active key_id)

IsRegistry-Kept :
    (c : Crypto) (rows more : List KeyRow)
    → IsRegistry c (rows ++ more)
    → Kept c rows (ok (rows ++ more))
unfolding verify_registry
IsRegistry-Kept c rows more h =
    ((more, refl), h, λ t. walk_keys-IsChained c genesis_hash (keys_of t (rows ++ more)) (h t))

same-Kept : (c : Crypto) (rows : List KeyRow) → IsRegistry c rows → Kept c rows (ok rows)
unfolding verify_registry
same-Kept c rows h =
    (([], sym (append-nil rows)), h, λ t. walk_keys-IsChained c genesis_hash (keys_of t rows) (h t))

insert_key-Kept :
    (c : Crypto) (rows : List KeyRow) (k : Key)
    → IsRegistry c rows
    → Kept c rows (rows_by (λ a. a.0) (insert_key c rows k))
insert_key-Kept c rows k h =
    let (r, inserted, _, kept) = insert_key-IsRegistry c rows k h in
    rw inserted (IsRegistry-Kept c rows (r ∷ []) kept)

-- The rows after a retirement, if there is one.
pub retire-IsRegistry :
    (c : Crypto) (now : Text) (rows : List KeyRow) (k : NewKey) (notes : Option Text)
    (old : Option KeyRow)
    → IsRegistry c rows
    → (more : List KeyRow) × (o : Option KeyRow) × (retire c now rows k notes old
        ≡ ok (rows ++ more, o))
      × IsRegistry c (rows ++ more)
retire-IsRegistry c now rows k notes none h = (
  [],
  none,
  ap (λ x. ok (x, none)) (sym (append-nil rows)),
  subst (IsRegistry c) (sym (append-nil rows)) h,
)
retire-IsRegistry c now rows k notes (some old) h =
    let (r, inserted, _, kept) =
      insert_key-IsRegistry c rows (retirement now k.tenant_id k.key_id notes old) h in
    (r ∷ [], some r, rw inserted refl, kept)

-- A retirement, and then a row for the new key.
pub retire-insert :
    (c : Crypto) (now : Text) (rows : List KeyRow) (k : NewKey) (notes : Option Text)
    (old : Option KeyRow) (new : Key)
    → IsRegistry c rows
    → (more : List KeyRow) × (o : Option KeyRow) × (r : KeyRow) × (retire c now rows k notes old
        ≡ ok (rows ++ more, o))
      × (insert_key c (rows ++ more) new ≡ ok ((rows ++ more) ++ r ∷ [], r))
      × IsRegistry c ((rows ++ more) ++ r ∷ [])
retire-insert c now rows k notes old new h =
    let (more, o, retired, kept) = retire-IsRegistry c now rows k notes old h in
    let (r, inserted, _, kept') = insert_key-IsRegistry c (rows ++ more) new kept in
    (more, o, r, retired, inserted, kept')

appended-Kept :
    (c : Crypto) (rows more : List KeyRow) (r : KeyRow)
    → IsRegistry c ((rows ++ more) ++ r ∷ [])
    → Kept c rows (ok ((rows ++ more) ++ r ∷ []))
appended-Kept c rows more r h =
    let same = append_assoc rows more (r ∷ []) in
    subst (λ x. Kept c rows (ok x)) (sym same)
      (IsRegistry-Kept c rows (more ++ r ∷ []) (subst (IsRegistry c) same h))

-- On rows whose chains verify, every call of register_key, register_or_update and rotate_key
-- leaves all rows as they were and appends to them, and every tenant's chain still verifies;
-- or register_key raises because another key is active, the only exception.
pub perform-Kept :
    (c : Crypto) (now : Text) (rows : List KeyRow) (call : Call)
    → IsRegistry c rows
    → Kept c rows (perform c now rows call)
unfolding perform register_key register_or_update rotate_key
perform-Kept c now rows (register k) h =
    elim (Option-cases (last_where (of_key k.key_id k.tenant_id active) rows)) [
      | inr (r, there) ↦
          let answer : perform c now rows (register k) ≡ ok rows = ground (arith, there) in
          subst (Kept c rows) (sym answer) (same-Kept c rows h)
      | inl absent ↦ elim (Option-cases (get_active rows k.tenant_id)) [
        | inr (a, other) ↦
            let answer : perform c now rows (register k) ≡ err (has_active a.key.key_id) =
              ground (arith, absent, other) in
            subst (Kept c rows) (sym answer) (a.key.key_id, refl)
        | inl none_active ↦
            let answer : register_key c now rows k ≡ insert_key c rows (active_row now k) =
              ground (arith, absent, none_active) in
            subst (λ x. Kept c rows (rows_by (λ a. a.0) x)) (sym answer)
              (insert_key-Kept c rows (active_row now k) h)
      ]
    ]
perform-Kept c now rows (startup k) h =
    elim (Option-cases (last_where (of_key k.key_id k.tenant_id active) rows)) [
      | inr (r, there) ↦
          let answer : perform c now rows (startup k) ≡ ok rows = ground (arith, there) in
          subst (Kept c rows) (sym answer) (same-Kept c rows h)
      | inl absent ↦
          let old = other_than k.key_id (get_active rows k.tenant_id) in
          let (more, o, r, retired, inserted, kept) =
            retire-insert c now rows k startup_notes old
              (active_row now (record k { notes = none })) h in
          let answer : perform c now rows (startup k) ≡ ok ((rows ++ more) ++ r ∷ []) =
            ground (arith, absent, retired, inserted) in
          subst (Kept c rows) (sym answer) (appended-Kept c rows more r kept)
    ]
perform-Kept c now rows (rotate k) h =
    let (more, o, r, retired, inserted, kept) =
      retire-insert c now rows k k.notes (get_active rows k.tenant_id) (active_row now k) h in
    let answer : perform c now rows (rotate k) ≡ ok ((rows ++ more) ++ r ∷ []) =
      ground (arith, retired, inserted) in
    subst (Kept c rows) (sym answer) (appended-Kept c rows more r kept)
