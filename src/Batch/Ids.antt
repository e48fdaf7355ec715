-- ===== src/Batch/Ids.antt =====
-- The ids that the two batch verifiers take from recorded proofs.
use provable_ai.Base.{Option, none, some, ◌≡◌, refl, List, [], ◌∷◌, ap, ◌∙◌, subst, length, suc}
use provable_ai.Base.Int.{pos, ℤ}
use provable_ai.Text.{Text, codes, text_eq}
use provable_ai.Json.{Value, Items, null, str, int, nil, cons, int_text}
use provable_ai.Json.Sorted.{SameValue, same, same_arr, same_obj}
use provable_ai.Json.Lookup.{
  get, lookup_field, SameFound, both_none, both_some, get-SameValue, lookup-SameFields,
}
use provable_ai.Crypto.{Crypto}
use provable_ai.Canonical.{compute_proof_id}
use provable_ai.Schema.{ProofV1, proof_dump, ledger_dump}
use provable_ai.Engine.Archive.{same_some, same_str}
use provable_ai.Batch.{
  item, derive_proof_id, derive_from, ledger_fields, proof_id_of, proof_ids_of, item_count,
}
use provable_ai.Batch.Verify.{given_ids}

found_same : (o : Option Value) → SameFound o o
found_same none = both_none
found_same (some v) = both_some (same v)

item_same : (k : Text) {v w : Value} → SameValue v w → SameFound (item k v) (item k w)
item_same k (same v) = found_same (item k v)
item_same k (same_arr xs) = both_none
item_same k (same_obj fs) = lookup-SameFields k fs

item_found :
    (k : Text) {v w u : Value}
    → SameValue v w
    → item k v ≡ some u
    → (x : Value) × (item k w ≡ some x) × SameValue u x
item_found k {v} {w} s e = same_some (subst (λ o. SameFound o (item k w)) e (item_same k s))

same_int : {n : ℤ} {v : Value} → SameValue (int n) v → v ≡ int n
same_int (same v) = refl

same_null : {v : Value} → SameValue null v → v ≡ null
same_null (same v) = refl

dump-ledger : (p : ProofV1) → item (codes "ledger") (proof_dump p) ≡ some (ledger_dump p.ledger)
unfolding lookup_field text_eq proof_dump
dump-ledger p = refl

dump-fields :
    (p : ProofV1)
    → (item (codes "current_hash") (ledger_dump p.ledger) ≡ some (str p.ledger.current_hash))
      × (item (codes "sequence_id") (ledger_dump p.ledger) ≡ some (int (pos p.ledger.sequence_id)))
unfolding lookup_field text_eq ledger_dump
dump-fields p = (refl, refl)

dump-no_id : (p : ProofV1) → get (codes "proof_id") null (proof_dump p) ≡ some null
unfolding get lookup_field text_eq proof_dump
dump-no_id p = refl

same_fields :
    (p : ProofV1) {w : Value}
    → SameValue (proof_dump p) w
    → ledger_fields w ≡ some (str p.ledger.current_hash, int (pos p.ledger.sequence_id))
same_fields p {w} s =
    let (l, at_ledger, same_ledger) = item_found (codes "ledger") s (dump-ledger p) in
    let (h, at_hash, same_hash) = item_found (codes "current_hash") same_ledger (dump-fields p).0 in
    let (n, at_number, same_number) =
      item_found (codes "sequence_id") same_ledger (dump-fields p).1 in
    rw at_ledger
      (rw at_hash (rw at_number (rw (same_str same_hash) (rw (same_int same_number) refl))))

-- The id that a batch derives for the dump of a proof, whatever the order of its entries, is the one
-- of compute_proof_id for its hash and number.
pub derive_proof_id-compute_proof_id :
    (c : Crypto) (repr : Value → Text) (p : ProofV1) {w : Value}
    → SameValue (proof_dump p) w
    → derive_proof_id c repr w
      ≡ some (compute_proof_id c p.ledger.current_hash p.ledger.sequence_id)
unfolding derive_proof_id compute_proof_id int_text
derive_proof_id-compute_proof_id c repr p {w} s = ap (derive_from c repr w) (same_fields p s)

no_id :
    (p : ProofV1) {w : Value}
    → SameValue (proof_dump p) w
    → get (codes "proof_id") null w ≡ some null
no_id p {w} s =
    let (x, found, same_x) = same_some (
      subst (λ o. SameFound o (get (codes "proof_id") null w)) (dump-no_id p)
        (get-SameValue (codes "proof_id") null s)) in
    found ∙ ap some (same_null same_x)

-- Items that are dumps of proofs.
abbrev pub AllDumps : Items → Type 0
AllDumps nil = Unit
AllDumps (cons v xs) = ((p : ProofV1) × SameValue (proof_dump p) v) × AllDumps xs

-- As many ids as proofs.
pub proof_ids-AllDumps :
    (c : Crypto) (repr : Value → Text) (ps : Items)
    → AllDumps ps
    → (ids : List Text) × (proof_ids_of c repr ps ≡ some ids) × (length ids ≡ item_count ps)
unfolding proof_ids_of proof_id_of
proof_ids-AllDumps c repr nil h = ([], refl, refl)
proof_ids-AllDumps c repr (cons v ps) ((p, s), h) =
    let (ids, e, n) = proof_ids-AllDumps c repr ps h in
    (
      compute_proof_id c p.ledger.current_hash p.ledger.sequence_id ∷ ids,
      rw (no_id p s) (rw (derive_proof_id-compute_proof_id c repr p s) (rw e refl)),
      ap suc n,
    )

-- No dump of a proof has an id of its own.
pub given_ids-AllDumps : (ps : Items) → AllDumps ps → given_ids ps ≡ some []
unfolding given_ids
given_ids-AllDumps nil h = refl
given_ids-AllDumps (cons v ps) ((p, s), h) = rw (no_id p s) (rw (given_ids-AllDumps ps h) refl)
