-- ===== src/Storage/Append.antt =====
-- What append_ledger_entry does to the ledger, whatever it answers.
use provable_ai.Base.Result.{Result-cases}
use provable_ai.Text.{text_eq→eq, text_ne}
use provable_ai.Storage.Chain.{IsLedger, HasOneOwner, IsChain, expected-IsChain, other_tenant-none}
use provable_ai.Base.{
  List, ◌∷◌, ◌≡◌, ℕ, Bool-cases, arith, none, Option-cases, inl, inr, some, ◌≢◌, ◌∙◌, sym, refl, [],
  ◌⊎◌, ap, Option, length, ◌==◌, subst,
}
use provable_ai.Storage.{
  validate_chain_integrity, insert_row, ensure_instance, Db, chain_of, ProofDict, row_of, Row,
  Tables, Text, Result, StorageError, other_tenant, tenant_of, ok, err, expected_seq, is_in, dumps,
  latest, expected_prev, satisfies_constraints, commit, rollback, text_eq, append_ledger_entry,
  store_dumped, obj,
}

-- What the ledger is at all times: linked chains, one tenant for an instance, and every row
-- committed.
pub record IsValid (db : Db) : Type 0 where
  pub linked : IsLedger db.tables.ledger
  pub owned : HasOneOwner db.tables.ledger
  pub durable : db.committed.ledger ≡ db.tables.ledger

ensure_instance-ledger :
    (now i protocol state t : Text) (db : Tables)
    → (ensure_instance now i protocol state t db).ledger ≡ db.ledger
unfolding ensure_instance
ensure_instance-ledger now i protocol state t db = ground arith

-- The row that was appended, for an answer.
abbrev pub Appended : Db → Db → Result StorageError ℕ → ProofDict → Type 0
Appended db after (err e) d = after.tables.ledger ≡ db.tables.ledger
Appended db after (ok n) d =
    (metadata_json : Text) × (proof_json : Text) × (n ≡ d.proof.ledger.sequence_id)
    × (dumps d.whole ≡ some proof_json)
    × (after.tables.ledger ≡ row_of d metadata_json proof_json ∷ db.tables.ledger)

-- The tests that the row of a proof passes.
pub record IsNext (rows : List Row) (d : ProofDict) : Type 0 where
  pub unowned : other_tenant (tenant_of d) d.proof.instance_id rows ≡ none
  pub sequence :
      d.proof.ledger.sequence_id
      ≡ expected_seq (latest (chain_of (tenant_of d) d.proof.instance_id rows))
  pub previous :
      d.proof.ledger.previous_hash
      ≡ expected_prev (latest (chain_of (tenant_of d) d.proof.instance_id rows))

validated-IsNext :
    (db : Tables) (d : ProofDict)
    → validate_chain_integrity db d.proof.instance_id d.proof.ledger.sequence_id
        d.proof.ledger.previous_hash
        (tenant_of d)
      ≡ ok tt
    → IsNext db.ledger d
unfolding validate_chain_integrity
validated-IsNext db d h =
    elim (Option-cases (other_tenant (tenant_of d) d.proof.instance_id db.ledger)) [
      | inr (o, e) ↦ absurd (ground arith)
      | inl e ↦ record {
        unowned = e;
        sequence = ground arith;
        previous = text_eq→eq d.proof.ledger.previous_hash _ (ground arith);
      }
    ]

next-IsChain :
    (rows : List Row) (d : ProofDict) (m j : Text)
    → IsNext rows d
    → IsLedger rows
    → IsChain (row_of d m j ∷ chain_of (tenant_of d) d.proof.instance_id rows)
unfolding row_of
next-IsChain rows d m j next h =
    let linked = h (tenant_of d) d.proof.instance_id in
    let ends = expected-IsChain (chain_of (tenant_of d) d.proof.instance_id rows) linked in
    (next.sequence ∙ ends.0, next.previous ∙ ends.1, linked)

cons-IsLedger :
    (rows : List Row) (d : ProofDict) (m j : Text)
    → IsNext rows d
    → IsLedger rows
    → IsLedger (row_of d m j ∷ rows)
unfolding chain_of row_of
cons-IsLedger rows d m j next h t i = elim (Bool-cases (is_in t i (row_of d m j))) [
  | inl here ↦
      let same_tenant : t ≡ tenant_of d = sym (text_eq→eq (tenant_of d) t (ground arith)) in
      let same_instance : i ≡ d.proof.instance_id =
        sym (text_eq→eq d.proof.instance_id i (ground arith)) in
      let same_chain : chain_of (tenant_of d) d.proof.instance_id rows ≡ chain_of t i rows = cc in
      rw here (subst (λ c. IsChain (row_of d m j ∷ c)) same_chain (next-IsChain rows d m j next h))
  | inr other ↦ rw other (h t i)
]

-- A row of another tenant is excluded by `other_tenant`.
unowned-same :
    (t u i : Text) (rows : List Row)
    → other_tenant t i rows ≡ none
    → (chain_of u i rows ≢ [])
    → t ≡ u
unowned-same t u i rows e ne = elim (Bool-cases (text_eq t u)) [
  | inl same ↦ text_eq→eq t u same
  | inr other ↦ absurd (ne (other_tenant-none t u i rows e (text_ne t u other)))
]

chain_of-cons :
    (t i : Text) (r : Row) (rows : List Row)
    → (chain_of t i (r ∷ rows) ≢ [])
    → ((r.tenant_id ≡ t) × (r.instance_id ≡ i)) ⊎ (chain_of t i rows ≢ [])
unfolding chain_of
chain_of-cons t i r rows ne = elim (Bool-cases (is_in t i r)) [
  | inl here ↦
      inl (text_eq→eq r.tenant_id t (ground arith), text_eq→eq r.instance_id i (ground arith))
  | inr other ↦ inr (λ e. ne (rw other e))
]

cons-HasOneOwner :
    (rows : List Row) (r : Row)
    → other_tenant r.tenant_id r.instance_id rows ≡ none
    → HasOneOwner rows
    → HasOneOwner (r ∷ rows)
cons-HasOneOwner rows r e h t u i ht hu = elim (chain_of-cons t i r rows ht) [
  | inl a ↦ elim (chain_of-cons u i r rows hu) [
    | inl b ↦ sym a.0 ∙ b.0
    | inr b ↦ sym a.0 ∙ unowned-same r.tenant_id u r.instance_id rows e (rw a.1 b)
  ]
  | inr a ↦ elim (chain_of-cons u i r rows hu) [
    | inl b ↦ sym (unowned-same r.tenant_id t r.instance_id rows e (rw b.1 a)) ∙ b.0
    | inr b ↦ h t u i a b
  ]
]

committed-IsValid :
    (db : Db) (d : ProofDict) (m j : Text) (t : Tables)
    → IsValid db
    → IsNext db.tables.ledger d
    → t.ledger ≡ row_of d m j ∷ db.tables.ledger
    → IsValid (commit t)
unfolding row_of
committed-IsValid db d m j t v next e = record {
  linked = rw e (cons-IsLedger db.tables.ledger d m j next v.linked);
  owned = rw e (cons-HasOneOwner db.tables.ledger (row_of d m j) next.unowned v.owned);
  durable = refl;
}

rollback-IsValid : (db : Db) → IsValid db → IsValid (rollback db)
rollback-IsValid db v = record {
  linked = rw v.durable v.linked;
  owned = rw v.durable v.owned;
  durable = refl;
}

same_ledger-IsValid :
    (db after : Db)
    → IsValid db
    → after.tables.ledger ≡ db.tables.ledger
    → after.committed.ledger ≡ db.committed.ledger
    → IsValid after
same_ledger-IsValid db after v e f = record {
  linked = rw e v.linked;
  owned = rw e v.owned;
  durable = f ∙ v.durable ∙ sym e;
}

-- What an append of `d` does: the tables afterwards are valid, and they have its row exactly if it
-- answers its number.
abbrev pub Does : Db → ProofDict → Db × Result StorageError ℕ → Type 0
Does db d (after, answer) = IsValid after × Appended db after answer d

insert_row-Does :
    (db before : Db) (d : ProofDict) (m j : Text)
    → IsValid db
    → IsNext db.tables.ledger d
    → before.tables.ledger ≡ db.tables.ledger
    → before.committed.ledger ≡ db.committed.ledger
    → dumps d.whole ≡ some j
    → Does db d (insert_row before (row_of d m j))
unfolding insert_row row_of
insert_row-Does db before d m j v next e f w =
    elim (Bool-cases (satisfies_constraints before.tables.ledger (row_of d m j))) [
      | inl fits ↦
          let grown = ap (λ rows. row_of d m j ∷ rows) e in
          let t : Tables = record before.tables { ledger = row_of d m j ∷ before.tables.ledger } in
          let added : Appended db (commit t) (ok d.proof.ledger.sequence_id) d =
            (m, j, refl, w, grown) in
          rw fits (committed-IsValid db d m j t v next grown, added)
      | inr bad ↦
          rw bad (rollback-IsValid before (same_ledger-IsValid db before v e f), f ∙ v.durable)
    ]

abbrev validation : Db → ProofDict → Result StorageError (Unit {0})
validation db d =
    validate_chain_integrity db.tables d.proof.instance_id d.proof.ledger.sequence_id
      d.proof.ledger.previous_hash (tenant_of d)

stored-Does :
    (db before : Db) (d : ProofDict) (proof_json metadata_json : Option Text)
    → IsValid db
    → IsNext db.tables.ledger d
    → before.tables.ledger ≡ db.tables.ledger
    → before.committed.ledger ≡ db.committed.ledger
    → dumps d.whole ≡ proof_json
    → Does db d (store_dumped before d proof_json metadata_json)
stored-Does db before d (some j) (some m) v next e f w =
    insert_row-Does db before d m j v next e f w
stored-Does db before d (some j) none v next e f w = (same_ledger-IsValid db before v e f, e)
stored-Does db before d none m v next e f w = (same_ledger-IsValid db before v e f, e)

-- From valid tables, `append_ledger_entry` keeps them valid whatever it answers: every chain is
-- numbered from 1 without a gap and linked by hashes from the genesis hash, an instance has rows
-- of one tenant, and every row is committed. An answer is the sequence_id of the proof, whose row,
-- with its canonical JSON, is then the one row that was added; an error leaves the rows as they
-- were.
pub append_ledger_entry-IsValid :
    (now : Text) (db : Db) (d : ProofDict)
    → IsValid db
    → IsValid (append_ledger_entry now db d).0
      × Appended db (append_ledger_entry now db d).0 (append_ledger_entry now db d).1 d
unfolding append_ledger_entry
append_ledger_entry-IsValid now db d v = elim (Bool-cases (length d.proof.signature.value == 128)) [
  | inr short ↦ rw short (v, refl)
  | inl right_length ↦ elim (Result-cases (validation db d)) [
    | inr (e, refused) ↦ rw right_length (rw refused (v, refl))
    | inl (done, passed) ↦ rw right_length (
        rw passed (
          stored-Does db _ d (dumps d.whole) (dumps (obj d.proof.decision_context.metadata)) v
            (validated-IsNext db.tables d passed)
            (ensure_instance-ledger now d.proof.instance_id d.proof.governance.policy_version
              d.proof.decision.to_state (tenant_of d) db.tables)
            refl refl))
  ]
]
