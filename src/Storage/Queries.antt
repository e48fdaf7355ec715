-- ===== src/Storage/Queries.antt =====
-- provable_ai/storage.py: the queries of the ledger, and the freezing of an instance.
use provable_ai.Base.{
  List, ℕ, ◌∷◌, Option, if◌then◌else◌, ◌∷◌, [], some, leb, none, ◌==◌, length, ◌&&◌, true,
}
use provable_ai.Text.{Text}
use Prim.Native.Nat.{ℕ}
use provable_ai.Storage.{
  Row, Tables, Db, chain_of, InstanceRow, get_latest_ledger_entry, commit, text_eq, is_empty,
}

-- ORDER BY sequence_id ASC
unfoldable pub insert_ascending : Row → List Row → List Row
insert_ascending r [] = r ∷ []
insert_ascending r (s ∷ rs) =
    if leb r.sequence_id s.sequence_id then r ∷ s ∷ rs else s ∷ insert_ascending r rs

unfoldable pub sort_ascending : List Row → List Row
sort_ascending [] = []
sort_ascending (r ∷ rs) = insert_ascending r (sort_ascending rs)

unfoldable pub get_ledger_chain : Tables → Text → Text → List Row
get_ledger_chain db i t = sort_ascending (chain_of t i db.ledger)

unfoldable pub find_sequence : ℕ → List Row → Option Row
find_sequence n [] = none
find_sequence n (r ∷ rs) = if r.sequence_id == n then some r else find_sequence n rs

-- get_ledger_entry, the row
unfoldable pub get_ledger_entry : Tables → Text → Option ℕ → Text → Option Row
get_ledger_entry db i (some n) t = find_sequence n (chain_of t i db.ledger)
get_ledger_entry db i none t = get_latest_ledger_entry db i t

-- MAX(sequence_id), or 0
unfoldable pub get_max_sequence_id : Tables → Text → Text → ℕ
get_max_sequence_id db i t = elim (get_latest_ledger_entry db i t) [
  | none ↦ 0
  | some r ↦ r.sequence_id
]

unfoldable pub get_ledger_count : Tables → Text → Text → ℕ
get_ledger_count db i t = if is_empty i then length db.ledger else length (chain_of t i db.ledger)

abbrev freeze_rows : Text → Text → List InstanceRow → List InstanceRow
freeze_rows i t [] = []
freeze_rows i t (r ∷ rs) =
    (if text_eq r.instance_id i && text_eq r.tenant_id t then record r { frozen = true } else r)
    ∷ freeze_rows i t rs

-- freeze_instance
unfoldable pub freeze_instance : Text → Text → Db → Db
freeze_instance i t db =
    commit (record db.tables { instances = freeze_rows i t db.tables.instances })
