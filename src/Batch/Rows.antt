-- ===== src/Batch/Rows.antt =====
-- The rows that a batch fetches.
use provable_ai.Base.{
  suc, Option, ◌≡◌, refl, List, [], ◌∷◌, All, length, ap, ◌∙◌, inl, inr, Bool-cases,
}
use provable_ai.Text.{Text}
use provable_ai.Crypto.{Crypto}
use provable_ai.Storage.{Row, Tables}
use provable_ai.Engine.Export.{Loads, item_count}
use provable_ai.Engine.Archive.{IsArchived}
use provable_ai.Batch.{
  BatchRequest, select_rows, order_rows, insert_ordered, load_rows, fetch_proofs, is_selected,
  row_leb,
}
use provable_ai.Batch.Ids.{AllDumps}

module _ {ℓ} (P : Row → Type ℓ) where
  select_rows-All :
      (t : Text) (from to : Option Text) (rows : List Row)
      → All P rows
      → All P (select_rows t from to rows)
  unfolding select_rows
  select_rows-All t from to [] h = tt
  select_rows-All t from to (r ∷ rs) (here, later) = elim (Bool-cases (is_selected t from to r)) [
    | inl is ↦ rw is (here, select_rows-All t from to rs later)
    | inr other ↦ rw other (select_rows-All t from to rs later)
  ]

  insert_ordered-All : (r : Row) (rs : List Row) → P r → All P rs → All P (insert_ordered r rs)
  unfolding insert_ordered
  insert_ordered-All r [] h hs = (h, tt)
  insert_ordered-All r (s ∷ rs) h (here, later) = elim (Bool-cases (row_leb r s)) [
    | inl first ↦ rw first (h, (here, later))
    | inr after ↦ rw after (here, insert_ordered-All r rs h later)
  ]

  order_rows-All : (rs : List Row) → All P rs → All P (order_rows rs)
  unfolding order_rows
  order_rows-All [] h = tt
  order_rows-All (r ∷ rs) (here, later) =
      insert_ordered-All r (order_rows rs) here (order_rows-All rs later)

length-insert_ordered : (r : Row) (rs : List Row) → length (insert_ordered r rs) ≡ suc (length rs)
unfolding insert_ordered
length-insert_ordered r [] = refl
length-insert_ordered r (s ∷ rs) = elim (Bool-cases (row_leb r s)) [
  | inl first ↦ rw first refl
  | inr after ↦ rw after (ap suc (length-insert_ordered r rs))
]

length-order_rows : (rs : List Row) → length (order_rows rs) ≡ length rs
unfolding order_rows
length-order_rows [] = refl
length-order_rows (r ∷ rs) = length-insert_ordered r (order_rows rs) ∙ ap suc (length-order_rows rs)

-- Archived rows load as dumps of proofs, one for each.
load_rows-AllDumps :
    (c : Crypto) (loads : Loads) (rs : List Row)
    → All (IsArchived c loads) rs
    → AllDumps (load_rows loads rs) × (item_count (load_rows loads rs) ≡ length rs)
unfolding load_rows
load_rows-AllDumps c loads [] h = (tt, refl)
load_rows-AllDumps c loads (r ∷ rs) (a, h) =
    let (dumps, count) = load_rows-AllDumps c loads rs h in
    rw a.loaded (((a.proof, a.same_proof), dumps), ap suc count)

pub fetch_proofs-AllDumps :
    (c : Crypto) (loads : Loads) (db : Tables) (r : BatchRequest)
    → All (IsArchived c loads) db.ledger
    → AllDumps (fetch_proofs loads db r.tenant_id r.from_date r.to_date)
      × (item_count (fetch_proofs loads db r.tenant_id r.from_date r.to_date)
          ≡ length (select_rows r.tenant_id r.from_date r.to_date db.ledger))
unfolding fetch_proofs
fetch_proofs-AllDumps c loads db r h =
    let selected = select_rows r.tenant_id r.from_date r.to_date db.ledger in
    let (dumps, count) = load_rows-AllDumps c loads (order_rows selected) (
      order_rows-All (IsArchived c loads) selected
        (select_rows-All (IsArchived c loads) r.tenant_id r.from_date r.to_date db.ledger h)) in
    (dumps, count ∙ length-order_rows selected)
