-- ===== src/Engine/Recorded.antt =====
-- What a recorded decision is: the next row of its instance's chain, and a proof that verifies
-- there.
use provable_ai.Text.{eq→text_eq, text_eq_refl}
use provable_ai.Storage.Append.{IsValid, Appended, append_ledger_entry-IsValid}
use provable_ai.Base.Result.{>>=-eq-ok, Result, err}
use provable_ai.Engine.Build.{IsSealed, build_proof-IsSealed, build_proof-instance_id}
use provable_ai.Storage.Chain.{IsChain, last_hash, expected-IsChain}
use provable_ai.Base.{
  List, ℕ, ◌≡◌, length, ◌+◌, Option-cases, inl, arith, inr, subst, ◌∙◌, sym, ◌∷◌, ap, refl, true,
  some,
}
use provable_ai.Engine.{
  prepare, previous_link, Request, Crypto, List, Text, Signer, ProofV1, Row, default_tenant, ok,
  check_determinism, check_governance, lift_canonical, validate_payload, obj, record_decision,
  build_proof, dict_of, Tables, StorageError, EngineError, answer_with, text_eq,
  append_ledger_entry, finish, dumps, proof_dump,
}
use provable_ai.Storage.{Db, chain_of, latest, row_of}

-- The rows of the instance before the decision.
abbrev pub chain_before : Db → Request → List Row
chain_before db r = chain_of default_tenant r.instance_id db.tables.ledger

previous_link-IsChain :
    (db : Db) (r : Request) {link : Text × ℕ}
    → IsChain (chain_before db r)
    → previous_link db.tables r.instance_id ≡ ok link
    → (link.0 ≡ last_hash (chain_before db r)) × (link.1 ≡ length (chain_before db r) + 1)
unfolding previous_link
previous_link-IsChain db r chain h =
    let (seq, prev) = expected-IsChain (chain_before db r) chain in
    elim (Option-cases (latest (chain_before db r))) [
      | inl empty ↦ ground (arith, seq, prev, empty)
      | inr (row, e) ↦ ground (arith, seq, prev, e)
    ]

-- What is known of a proof that was prepared and is then found to link to its chain.
prepare-IsSealed :
    {c : Crypto} (s : Signer c) (now : Text) (db : Db) (r : Request) {p : ProofV1}
    → IsChain (chain_before db r)
    → prepare s now db.tables r ≡ ok p
    → p.ledger.previous_hash ≡ last_hash (chain_before db r)
    → (check_determinism r ≡ ok tt)
      × IsSealed c (last_hash (chain_before db r)) (length (chain_before db r) + 1) r p
unfolding prepare
prepare-IsSealed {c} s now db r {p} chain h same_prev =
    let (_, _, h1) = >>=-eq-ok (check_governance db.tables r) _ h in
    let (_, _, h2) = >>=-eq-ok (lift_canonical (validate_payload (obj r.metadata))) _ h1 in
    let (done, checked, h3) = >>=-eq-ok (check_determinism r) _ h2 in
    let (link, linked, built) = >>=-eq-ok (previous_link db.tables r.instance_id) _ h3 in
    let (prev, seq) = previous_link-IsChain db r chain linked in
    (
      checked,
      subst (λ n. IsSealed c (last_hash (chain_before db r)) n r p) seq
          (subst (λ t. IsSealed c t link.1 r p) prev
            (build_proof-IsSealed s now link.0 link.1 r built (same_prev ∙ sym prev))),
    )

-- The state after a decision was recorded: valid tables, with the row of the proof as the newest
-- one of its instance; the proof is sealed at its place.
pub record IsRecorded (c : Crypto) (db after : Db) (r : Request) (p : ProofV1) : Type 0 where
  pub valid : IsValid after
  pub row : Row
  pub row_instance : row.instance_id ≡ r.instance_id
  pub row_hash : row.current_hash ≡ p.ledger.current_hash
  pub row_previous : row.previous_hash ≡ p.ledger.previous_hash
  pub row_json : dumps (proof_dump p) ≡ some row.proof_json
  pub grown : after.tables.ledger ≡ row ∷ db.tables.ledger
  pub chain : chain_of default_tenant r.instance_id after.tables.ledger ≡ row ∷ chain_before db r
  pub checked : check_determinism r ≡ ok tt
  pub sealed : IsSealed c (last_hash (chain_before db r)) (length (chain_before db r) + 1) r p

prepare-instance_id :
    {c : Crypto} (s : Signer c) (now : Text) (db : Tables) (r : Request) {p : ProofV1}
    → prepare s now db r ≡ ok p
    → p.instance_id ≡ r.instance_id
unfolding prepare build_proof
prepare-instance_id {c} s now db r {p} h =
    let (_, _, h1) = >>=-eq-ok (check_governance db r) _ h in
    let (_, _, h2) = >>=-eq-ok (lift_canonical (validate_payload (obj r.metadata))) _ h1 in
    let (_, _, h3) = >>=-eq-ok (check_determinism r) _ h2 in
    let (link, _, h4) = >>=-eq-ok (previous_link db r.instance_id) _ h3 in
    build_proof-instance_id s now link.0 link.1 r h4

own_chain :
    (db : Db) (r : Request) (p : ProofV1) (m j : Text)
    → p.instance_id ≡ r.instance_id
    → chain_of default_tenant r.instance_id (row_of (dict_of p) m j ∷ db.tables.ledger)
      ≡ row_of (dict_of p) m j ∷ chain_before db r
unfolding chain_of row_of
own_chain db r p m j e =
    let here : text_eq p.instance_id r.instance_id ≡ true =
      eq→text_eq p.instance_id r.instance_id e in
    ground (arith, here, text_eq_refl default_tenant)

-- An append of a prepared proof that was answered by a number.
Appended-IsRecorded :
    {c : Crypto} (s : Signer c) (now : Text) (db after : Db) (r : Request) (p : ProofV1) (n : ℕ)
    → IsValid db
    → prepare s now db.tables r ≡ ok p
    → IsValid after
    → Appended db after (ok n) (dict_of p)
    → IsRecorded c db after r p
unfolding row_of
Appended-IsRecorded {c} s now db after r p n v h v' (m, j, _, dumped, grown) =
    let own = own_chain db r p m j (prepare-instance_id s now db.tables r h) in
    let chain : chain_of default_tenant r.instance_id after.tables.ledger
        ≡ row_of (dict_of p) m j ∷ chain_before db r =
      ap (chain_of default_tenant r.instance_id) grown ∙ own in
    let linked : IsChain (row_of (dict_of p) m j ∷ chain_before db r) =
      subst IsChain chain (v'.linked default_tenant r.instance_id) in
    let (checked, sealed) =
      prepare-IsSealed s now db r (v.linked default_tenant r.instance_id) h linked.1 in
    record {
      valid = v';
      row = row_of (dict_of p) m j;
      row_instance = prepare-instance_id s now db.tables r h;
      row_hash = refl;
      row_previous = refl;
      row_json = dumped;
      grown = grown;
      chain = chain;
      checked = checked;
      sealed = sealed;
    }

-- What `record_decision` does, by its answer.
abbrev pub Outcome : Crypto → Db → Request → Db × Result EngineError ProofV1 → Type 0
Outcome c db r (after, ok p) = IsRecorded c db after r p
Outcome c db r (after, err e) = IsValid after × (after.tables.ledger ≡ db.tables.ledger)

answered-Outcome :
    {c : Crypto} (s : Signer c) (now : Text) (db : Db) (r : Request) (p : ProofV1) (after : Db)
    (answer : Result StorageError ℕ)
    → IsValid db
    → prepare s now db.tables r ≡ ok p
    → IsValid after
    → Appended db after answer (dict_of p)
    → Outcome c db r (answer_with p (after, answer))
answered-Outcome s now db r p after (ok n) v h v' a =
    Appended-IsRecorded s now db after r p n v h v' a
answered-Outcome s now db r p after (err e) v h v' a = (v', a)

finish-Outcome :
    {c : Crypto} (s : Signer c) (now : Text) (db : Db) (r : Request)
    (o : Result EngineError ProofV1)
    → IsValid db
    → prepare s now db.tables r ≡ o
    → Outcome c db r (finish now db o)
finish-Outcome s now db r (err e) v h = (v, refl)
finish-Outcome s now db r (ok p) v h =
    let (v', appended) = append_ledger_entry-IsValid now db (dict_of p) v in
    answered-Outcome s now db r p (append_ledger_entry now db (dict_of p)).0
      (append_ledger_entry now db (dict_of p)).1 v h v' appended

-- From valid tables, `record_decision` keeps them valid. If it returns a proof, the ledger has one
-- more row, which ends the chain of the instance, and the proof is hashed, signed, numbered and
-- linked for that place; if it raises, the ledger is as it was.
pub record_decision-Outcome :
    {c : Crypto} (s : Signer c) (now : Text) (db : Db) (r : Request)
    → IsValid db
    → Outcome c db r (record_decision s now db r)
unfolding record_decision
record_decision-Outcome s now db r v = finish-Outcome s now db r (prepare s now db.tables r) v refl
