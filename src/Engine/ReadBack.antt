-- ===== src/Engine/ReadBack.antt =====
-- A recorded proof, read back.
use provable_ai.Base.{none, some, ◌≡◌, refl, List, [], ◌∷◌, arith, ap, ◌∙◌, sym, subst}
use provable_ai.Base.Result.{ok}
use provable_ai.Text.{Text}
use provable_ai.Json.{Value, Fields, obj, field, text_key, dumps, Key}
use provable_ai.Json.Sorted.{
  SameValue, SameFields, same, same_obj, same_end, same_field, swap, chain, same_arr,
}
use provable_ai.Crypto.{Crypto}
use provable_ai.Schema.{ProofV1, Reader, proof_dump, model_validate, validate_proof}
use provable_ai.Storage.{Row, Tables, Db, chain_of, latest}
use provable_ai.Storage.Append.{IsValid}
use provable_ai.Storage.Chain.{IsChain, latest-IsChain}
use provable_ai.Storage.Queries.{get_ledger_entry, find_sequence, get_ledger_chain}
use provable_ai.Signer.{Signer}
use provable_ai.Engine.{default_tenant, Request, record_decision}
use provable_ai.Engine.Recorded.{record_decision-Outcome, chain_before}
use provable_ai.Engine.Verified.{recorded}
use provable_ai.Engine.Export.{
  Loads, entry_proof, read_proof, get_proof, get_chain, read_rows, or_invalid, read_entry,
}
use provable_ai.Engine.Archive.{Restored, stored_dump}

-- A dict that is not empty.
data IsFull : Value → Type 0 where
  full : (k : Key) (v : Value) (fs : Fields) → IsFull (obj (field k v fs))

IsFull-chain : {fs gs : Fields} → SameFields fs gs → IsFull (obj fs) → IsFull (obj gs)
IsFull-chain (same_field k v fs) h = full k _ _
IsFull-chain (swap k j v w fs ne) h = full (text_key j) w _
IsFull-chain (chain p q) h = IsFull-chain q (IsFull-chain p h)
IsFull-chain same_end h = h

IsFull-same : {v w : Value} → SameValue v w → IsFull v → IsFull w
IsFull-same (same v) h = h
IsFull-same (same_arr xs) h = elim h [ ]
IsFull-same (same_obj fs) h = IsFull-chain fs h

dump-IsFull : (p : ProofV1) → IsFull (proof_dump p)
unfolding proof_dump
dump-IsFull p = full _ _ _

read_full :
    (read : Reader) (w : Value) (p : ProofV1)
    → IsFull w
    → read w ≡ some p
    → validate_proof p ≡ some p
    → read_proof read (some w) ≡ ok (some p)
unfolding model_validate
read_full read w p (full k v fs) back valid =
    let validated : model_validate read (obj (field k v fs)) ≡ some p =
      ground (arith, back, valid) in
    ap or_invalid validated

-- The row of a recorded proof, read.
read_row :
    (loads : Loads) (read : Reader) (r : Row) (p : ProofV1)
    → dumps (proof_dump p) ≡ some r.proof_json
    → validate_proof p ≡ some p
    → Restored loads (dumps (proof_dump p)) (proof_dump p)
    → ((w : Value) → SameValue (proof_dump p) w → read w ≡ some p)
    → read_proof read (entry_proof loads r) ≡ ok (some p)
read_row loads read r p json valid restored back =
    let (w, loaded, s) = subst (λ o. Restored loads o (proof_dump p)) json restored in
    rw (stored_dump p json)
      (rw loaded (read_full read w p (IsFull-same s (dump-IsFull p)) (back w s) valid))

latest-row :
    (db : Tables) (i : Text) (row : Row) (rows : List Row)
    → chain_of default_tenant i db.ledger ≡ row ∷ rows
    → IsChain (row ∷ rows)
    → (get_ledger_entry db i none default_tenant ≡ some row)
      × (get_ledger_entry db i (some row.sequence_id) default_tenant ≡ some row)
unfolding get_ledger_entry find_sequence
latest-row db i row rows e linked =
    (ap latest e ∙ latest-IsChain (row ∷ rows) linked, rw e (ground arith))

read_rows-empty : (read : Reader) (rows : List Row) → read_rows read rows ≡ []
unfolding read_rows
read_rows-empty read [] = refl
read_rows-empty read (r ∷ rs) = read_rows-empty read rs

-- A proof that `record_decision` returned from valid tables is what `get_proof` then returns for its
-- instance, without a number as with its own, if json.loads restores its dump and Pydantic reads it
-- whatever the order of the entries. `get_chain` returns no proof, of whatever instance.
pub record_decision-get_proof :
    {c : Crypto} (s : Signer c) (loads : Loads) (read : Reader) (now : Text) (db : Db) (r : Request)
    (p : ProofV1)
    → IsValid db
    → (record_decision s now db r).1 ≡ ok p
    → Restored loads (dumps (proof_dump p)) (proof_dump p)
    → ((w : Value) → SameValue (proof_dump p) w → read w ≡ some p)
    → (get_proof loads read (record_decision s now db r).0.tables r.instance_id none ≡ ok (some p))
      × (get_proof loads read
            (record_decision s now db r).0.tables
            r.instance_id
            (some p.ledger.sequence_id)
          ≡ ok (some p))
      × ((i : Text) → get_chain read (record_decision s now db r).0.tables i ≡ [])
unfolding get_proof get_chain
record_decision-get_proof {c} s loads read now db r p v returned restored back =
    let h =
      recorded db r p (record_decision s now db r) (record_decision-Outcome s now db r v)
        returned in
    let after = (record_decision s now db r).0.tables in
    let linked = subst IsChain h.chain (h.valid.linked default_tenant r.instance_id) in
    let (newest, numbered) =
      latest-row after r.instance_id h.row (chain_before db r) h.chain linked in
    let number : h.row.sequence_id ≡ p.ledger.sequence_id = linked.0 ∙ sym h.sealed.sequence in
    let found = read_row loads read h.row p h.row_json h.sealed.validated restored back in
    (
      ap (read_entry loads read) newest ∙ found,
      ap (read_entry loads read) (
            subst (λ n. get_ledger_entry after r.instance_id (some n) default_tenant ≡ some h.row)
              number numbered)
          ∙ found,
      λ i. read_rows-empty read (get_ledger_chain after i default_tenant),
    )
