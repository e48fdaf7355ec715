-- ===== src/KeyRegistry/Tests.antt =====
-- A registry in which one key was rotated to a second, and back.
use provable_ai.KeyRegistry.Validity.{rotate_key-was_active_at}
use provable_ai.KeyRegistry.Rotation.{
  IsRotated, rotate_key-IsRotated, rotate_back_denied, rotated-active,
}
use provable_ai.Text.{text_eq}
use provable_ai.Base.{
  [], List, ◌≡◌, ◌∷◌, none, some, refl, Option, false, ap, true, ◌&&◌, not, arith,
}
use provable_ai.KeyRegistry.{
  NewKey, KeyRow, get_active, first_where, codes, List, last_where, [], Result, keys_of, text_eq,
  RegistryError, active_row, ok, of_key, retired, err, active, rotate_key, Key, Text, text_leb,
  was_active_at,
}
use provable_ai.KeyRegistry.Kept.{Kept, perform, rotate, perform-Kept}
use provable_ai.KeyRegistry.Chain.{IsRegistry, insert_key-IsRegistry}
use provable_ai.Crypto.Toy.{toy}

abbrev key_a : NewKey
key_a = record {
  key_id = codes "a";
  public_key = codes "pa";
  tenant_id = codes "acme";
  algorithm = codes "Ed25519";
  source = codes "env";
  notes = none;
}

abbrev key_b : NewKey
key_b = record key_a { key_id = codes "b"; public_key = codes "pb" }

abbrev rows_in : Result RegistryError (List KeyRow × KeyRow) → List KeyRow
rows_in (ok (rows, r)) = rows
rows_in (err e) = []

empty-IsRegistry : IsRegistry toy []
unfolding keys_of
empty-IsRegistry t = tt

-- One key.
abbrev first_row : KeyRow
first_row = (insert_key-IsRegistry toy [] (active_row (codes "2025") key_a) empty-IsRegistry).0

abbrev one : List KeyRow
one = first_row ∷ []

one-IsRegistry : IsRegistry toy one
one-IsRegistry = (insert_key-IsRegistry toy [] (active_row (codes "2025") key_a) empty-IsRegistry).3

first_key : first_row.key ≡ active_row (codes "2025") key_a
first_key = (insert_key-IsRegistry toy [] (active_row (codes "2025") key_a) empty-IsRegistry).2

one-active : get_active one (codes "acme") ≡ some first_row
unfolding get_active last_where text_eq
one-active = rw first_key refl

one-first :
    (first_where (of_key first_row.key.key_id (codes "acme") retired) one ≡ none)
    × (first_where (of_key (codes "b") (codes "acme") active) one ≡ none)
    × (first_where (of_key (codes "b") (codes "acme") retired) one ≡ none)
unfolding first_where text_eq
one-first = rw first_key (refl, refl, refl)

perform-Kept_example : Kept toy one (perform toy (codes "2026") one (rotate key_b))
perform-Kept_example = perform-Kept toy (codes "2026") one (rotate key_b) one-IsRegistry

rotate_key-was_active_at_example :
    (after : List KeyRow) × (new : KeyRow) × (gone : KeyRow) × (rotate_key toy
        (codes "2026")
        one
        key_b
      ≡ ok (after, new, some gone))
    × (get_active after (codes "acme") ≡ some new)
    × ((at : Text) → was_active_at after (codes "b") (codes "acme") at ≡ text_leb (codes "2026") at)
    × ((at : Text)
        → was_active_at after first_row.key.key_id (codes "acme") at ≡ (
            was_active_at one first_row.key.key_id (codes "acme") at
            && not (text_leb (codes "2026") at)))
    × ((j t at : Text)
        → (text_eq (codes "b") j && text_eq (codes "acme") t) ≡ false
        → (text_eq first_row.key.key_id j && text_eq (codes "acme") t) ≡ false
        → was_active_at after j t at ≡ was_active_at one j t at)
rotate_key-was_active_at_example =
    rotate_key-was_active_at toy (codes "2026") one key_b first_row one-IsRegistry refl one-active
      one-first.0 one-first.1 one-first.2

-- The rotation to the second key.
abbrev rotated : IsRotated toy (codes "2026") one key_b first_row
rotated = rotate_key-IsRotated toy (codes "2026") one key_b first_row one-IsRegistry one-active

same_id : text_eq first_row.key.key_id (codes "a") ≡ true
unfolding text_eq
same_id = rw first_key refl

gone_fits : of_key (codes "a") (codes "acme") retired rotated.gone ≡ true
unfolding text_eq
gone_fits = rw rotated.gone_key (ground (arith, same_id))

first_not_retired : of_key (codes "a") (codes "acme") retired first_row ≡ false
unfolding text_eq
first_not_retired = rw first_key refl

two-retired :
    first_where (of_key (codes "a") (codes "acme") retired) rotated.after ≡ some rotated.gone
unfolding first_where
two-retired = rw rotated.appended (rw first_not_retired (rw gone_fits refl))

two-dated : rotated.gone.key.retired_at ≡ some (codes "2026")
two-dated = ap (λ (k : Key). k.retired_at) rotated.gone_key

rotate_back_denied_example :
    (after : List KeyRow) × (new : KeyRow) × (old : Option KeyRow) × (rotate_key toy
        (codes "2027")
        rotated.after
        key_a
      ≡ ok (after, new, old))
    × (get_active after (codes "acme") ≡ some new)
    × (new.key.key_id ≡ codes "a")
    × ((at : Text)
        → text_leb (codes "2026") at ≡ true
        → was_active_at after (codes "a") (codes "acme") at ≡ false)
rotate_back_denied_example =
    rotate_back_denied toy (codes "2027") rotated.after key_a rotated.new rotated.gone
      (codes "2026") rotated.kept (rotated-active rotated) two-retired two-dated refl

other_key : text_eq (codes "b") first_row.key.key_id ≡ false
unfolding text_eq
other_key = rw first_key refl
