-- ===== src/Engine/Run.antt =====
-- A run of record_decision over many requests, for any instances.
use provable_ai.Verifier.{verify_chain}
use provable_ai.Storage.Append.{IsValid}
use provable_ai.Schema.{Reader}
use provable_ai.Engine.{
  EngineError, Request, Row, ProofV1, proof_dump, default_tenant, Value, text_eq, record_decision,
}
use provable_ai.Base.Result.{Result, ok, err}
use provable_ai.Crypto.{Crypto}
use provable_ai.Text.{Text, text_eq→eq}
use provable_ai.Storage.{chain_of, Db}
use provable_ai.Engine.Verified.{replayable, IsSealed-IsSound, IsSealed-model_validate}
use provable_ai.Engine.Recorded.{IsRecorded, Outcome, record_decision-Outcome}
use provable_ai.Verifier.Sound.{IsLinked, verify_chain-IsLinked, IsSound}
use provable_ai.Storage.Chain.{last_hash}
use provable_ai.Signer.{Signer}
use provable_ai.Base.{
  ◌≡◌, true, List, length, ◌∷◌, subst, some, ◌+◌, false, if◌then◌else◌, [], ap, ◌∙◌, sym, arith,
  All, Bool-cases, ◌≢◌, inl, inr,
}

-- The proof that a call returned, before those of the later calls.
abbrev pub keep : Result EngineError ProofV1 → List ProofV1 → List ProofV1
keep (ok p) ps = p ∷ ps
keep (err e) ps = ps

-- Calls of record_decision, each at its time, and the proofs that they returned.
unfoldable pub record_all : {c : Crypto} → Signer c → Db → List (Text × Request) → Db × List ProofV1
record_all s db [] = (db, [])
record_all s db (call ∷ calls) =
    let step = record_decision s call.0 db call.1 in
    let rest = record_all s step.0 calls in (rest.0, keep step.1 rest.1)

-- The dumps of the proofs of an instance, in the order of the calls.
unfoldable pub dumps_of : Text → List ProofV1 → List Value
dumps_of i [] = []
dumps_of i (p ∷ ps) =
    let rest = dumps_of i ps in if text_eq p.instance_id i then proof_dump p ∷ rest else rest

abbrev rows_of_instance : Db → Text → List Row
rows_of_instance db i = chain_of default_tenant i db.tables.ledger

-- The proofs of a part of a run fit behind the rows that the instance had before it.
abbrev Fits : Crypto → Reader → Text → Db → List ProofV1 → Type 0
Fits c read i db ps =
    IsLinked c read (last_hash (rows_of_instance db i)) (length (rows_of_instance db i) + 1)
      (dumps_of i ps)

ledger-Fits :
    (c : Crypto) (read : Reader) (i : Text) (db after : Db) (ps : List ProofV1)
    → after.tables.ledger ≡ db.tables.ledger
    → Fits c read i after ps
    → Fits c read i db ps
ledger-Fits c read i db after ps e h =
    subst (λ rows. IsLinked c read (last_hash rows) (length rows + 1) (dumps_of i ps))
      (ap (chain_of default_tenant i) e) h

other-Fits :
    (c : Crypto) (read : Reader) (i : Text) (db after : Db) (r : Request) (p : ProofV1)
    (ps : List ProofV1)
    → IsRecorded c db after r p
    → text_eq p.instance_id i ≡ false
    → Fits c read i after ps
    → Fits c read i db (p ∷ ps)
unfolding dumps_of chain_of
other-Fits c read i db after r p ps h other fits =
    let named : h.row.instance_id ≡ p.instance_id = h.row_instance ∙ sym h.sealed.instance_id in
    let same : rows_of_instance after i ≡ rows_of_instance db i =
      ap (chain_of default_tenant i) h.grown ∙ ground (arith, named, other) in
    rw other
      (subst (λ rows. IsLinked c read (last_hash rows) (length rows + 1) (dumps_of i ps)) same fits)

own-Fits :
    (c : Crypto) (read : Reader) (i : Text) (db after : Db) (r : Request) (p : ProofV1)
    (ps : List ProofV1)
    → IsRecorded c db after r p
    → replayable r ≡ true
    → read (proof_dump p) ≡ some p
    → text_eq p.instance_id i ≡ true
    → Fits c read i after ps
    → Fits c read i db (p ∷ ps)
unfolding dumps_of
own-Fits c read i db after r p ps h fit back own fits =
    let named : r.instance_id ≡ i = sym h.sealed.instance_id ∙ text_eq→eq p.instance_id i own in
    let grown : rows_of_instance after i ≡ h.row ∷ rows_of_instance db i =
      subst
        (λ j.
          chain_of default_tenant j after.tables.ledger
          ≡ h.row ∷ chain_of default_tenant j db.tables.ledger)
        named h.chain in
    let sound =
      subst
        (λ j. IsSound c (last_hash (rows_of_instance db j)) (length (rows_of_instance db j) + 1) p)
        named (IsSealed-IsSound h.sealed h.checked fit) in
    let later =
      subst (λ rows. IsLinked c read (last_hash rows) (length rows + 1) (dumps_of i ps)) grown
        fits in
    let place : length (h.row ∷ rows_of_instance db i) + 1
        ≡ length (rows_of_instance db i) + 1 + 1 =
      omega arith in
    rw own (
      p,
      IsSealed-model_validate read h.sealed back,
      sound,
      subst (λ t. IsLinked c read t (length (rows_of_instance db i) + 1 + 1) (dumps_of i ps))
          h.row_hash
          (subst (λ n. IsLinked c read h.row.current_hash n (dumps_of i ps)) place later),
    )

kept-Fits :
    (c : Crypto) (read : Reader) (i : Text) (db : Db) (r : Request) (ps : List ProofV1)
    (o : Db × Result EngineError ProofV1)
    → Outcome c db r o
    → replayable r ≡ true
    → All (λ p. read (proof_dump p) ≡ some p) (keep o.1 ps)
    → Fits c read i o.0 ps
    → Fits c read i db (keep o.1 ps)
kept-Fits c read i db r ps (after, err e) h fit back fits =
    ledger-Fits c read i db after ps h.1 fits
kept-Fits c read i db r ps (after, ok p) h fit (back, _) fits =
    elim (Bool-cases (text_eq p.instance_id i)) [
      | inl own ↦ own-Fits c read i db after r p ps h fit back own fits
      | inr other ↦ other-Fits c read i db after r p ps h other fits
    ]

rest_back :
    (read : Reader) (answer : Result EngineError ProofV1) (ps : List ProofV1)
    → All (λ p. read (proof_dump p) ≡ some p) (keep answer ps)
    → All (λ p. read (proof_dump p) ≡ some p) ps
rest_back read (ok p) ps (_, h) = h
rest_back read (err e) ps h = h

pub Outcome-IsValid :
    (c : Crypto) (db : Db) (r : Request) (o : Db × Result EngineError ProofV1)
    → Outcome c db r o
    → IsValid o.0
Outcome-IsValid c db r (after, ok p) h = h.valid
Outcome-IsValid c db r (after, err e) h = h.0

record_all-Fits :
    {c : Crypto} (s : Signer c) (read : Reader) (i : Text) (db : Db) (calls : List (Text × Request))
    → IsValid db
    → All (λ call. replayable call.1 ≡ true) calls
    → All (λ p. read (proof_dump p) ≡ some p) (record_all s db calls).1
    → Fits c read i db (record_all s db calls).1
unfolding record_all dumps_of
record_all-Fits s read i db [] v fit back = tt
record_all-Fits {c} s read i db (call ∷ calls) v (fit, fits) back =
    let step = record_decision s call.0 db call.1 in
    let outcome = record_decision-Outcome s call.0 db call.1 v in
    let rest = (record_all s step.0 calls).1 in
    kept-Fits c read i db call.1 rest step outcome fit back (
      record_all-Fits s read i step.0 calls (Outcome-IsValid c db call.1 step outcome) fits
        (rest_back read step.1 rest back))

-- Whatever calls `record_decision` gets, for whatever instances and in whatever order, some of
-- them refused: the proofs it returned for an instance that had no rows, in the order of the calls
-- and read back from their dumps, are a chain that `verify_chain` calls valid, if there are any
-- and every request is replayable.
pub record_all-verify_chain :
    {c : Crypto} (s : Signer c) (read : Reader) (at i : Text) (db : Db)
    (calls : List (Text × Request))
    → IsValid db
    → chain_of default_tenant i db.tables.ledger ≡ []
    → All (λ call. replayable call.1 ≡ true) calls
    → All (λ p. read (proof_dump p) ≡ some p) (record_all s db calls).1
    → dumps_of i (record_all s db calls).1 ≢ []
    → (verify_chain c read at (dumps_of i (record_all s db calls).1)).valid ≡ true
record_all-verify_chain {c} s read at i db calls v new fit back some_proofs =
    let fits = record_all-Fits s read i db calls v fit back in
    let linked =
      subst
        (λ rows.
          IsLinked c read (last_hash rows) (length rows + 1) (dumps_of i (record_all s db calls).1))
        new fits in
    (verify_chain-IsLinked c read at (dumps_of i (record_all s db calls).1)).1 (some_proofs, linked)
