-- ===== src/Engine/Archive.antt =====
-- What the ledger's rows hold of the proofs that were recorded, for the export.
use provable_ai.Base.Result.{ok}
use provable_ai.Verifier.{recompute_hash}
use provable_ai.Base.{
  false, Option, none, some, true, ◌≡◌, refl, List, [], ◌∷◌, ◌++◌, arith, ap, ◌∙◌, sym, subst,
  Bool-cases, inl, inr,
}
use provable_ai.Text.{Text, codes, text_eq, text_leb}
use provable_ai.Json.{
  Value, Fields, str, obj, end, field, text_key, dumps, dump_fields, wrap_entries, cons_entry,
  Entry, sort_entries, insert_entry, join, entry_texts, entry_text,
}
use provable_ai.Json.Sorted.{SameValue, dumps-SameValue, same}
use provable_ai.Json.Lookup.{get, SameFound, both_some, get-SameValue, lookup_field}
use provable_ai.Canonical.{genesis_hash}
use provable_ai.Crypto.{Crypto}
use provable_ai.Schema.{ProofV1, proof_dump, decision_dump}
use provable_ai.Storage.{Row}
use provable_ai.Package.Parts.{IsEntry}
use provable_ai.Package.Same.{recompute_entry_hash-SameValue}
use provable_ai.Package.Proof.{dump-IsEntry}
use provable_ai.Json.Encode.{has_long_int, has_long_int-SameValue, dump_bytes-ok}
use provable_ai.Json.Utf8.{has_surrogate}
use provable_ai.Canonical.Encodable.{IsEncodable, IsEncodable-dump_bytes}
use provable_ai.Engine.Export.{Loads, is_stored}

-- json.loads gives back the value that was dumped, but for the order of entries.
abbrev pub Restored : Loads → Option Text → Value → Type 0
Restored loads none v = Unit
Restored loads (some t) v = (w : Value) × (loads t ≡ some w) × SameValue v w

-- A row whose JSON can be encoded and loads as an entry of its hashes.
pub record IsArchived (c : Crypto) (loads : Loads) (r : Row) : Type 0 where
  pub entry : Value
  pub proof : ProofV1
  pub same_proof : SameValue (proof_dump proof) entry
  pub stored : is_stored r.proof_json ≡ true
  pub loaded : loads r.proof_json ≡ some entry
  pub dumped : dumps entry ≡ some r.proof_json
  pub encodable : (has_long_int entry ≡ false) × (has_surrogate r.proof_json ≡ false)
  pub hashed : IsEntry c r.previous_hash r.current_hash entry
  pub decision : Value
  pub read_decision : get (codes "decision") (obj end) entry ≡ some decision
  pub state : Value
  pub read_state : get (codes "to_state") (str (codes "unknown")) decision ≡ some state

-- What a value the same as `some v` is.
pub same_some :
    {v : Value} {o : Option Value}
    → SameFound (some v) o
    → (w : Value) × (o ≡ some w) × SameValue v w
same_some (both_some {w = w} s) = (w, refl, s)

pub same_str : {t : Text} {v : Value} → SameValue (str t) v → v ≡ str t
same_str (same v) = refl

pub read_same :
    (k : Text) (d : Value) {v w u : Value}
    → SameValue v w
    → get k d v ≡ some u
    → (x : Value) × (get k d w ≡ some x) × SameValue u x
read_same k d {v} {w} s e = same_some (subst (λ o. SameFound o (get k d w)) e (get-SameValue k d s))

pub read_text :
    (k : Text) (d : Value) {v w : Value} {t : Text}
    → SameValue v w
    → get k d v ≡ some (str t)
    → get k d w ≡ some (str t)
read_text k d s e = let (x, found, same_x) = read_same k d s e in found ∙ ap some (same_str same_x)

IsEntry-SameValue :
    {c : Crypto} {prev h : Text} {v w : Value}
    → SameValue v w
    → IsEntry c prev h v
    → IsEntry c prev h w
IsEntry-SameValue {c} s e =
    let (block, read, same_block) = read_same (codes "ledger") (obj end) s e.read in
    record {
      block = block;
      read = read;
      stored = read_text (codes "current_hash") (str []) same_block e.stored;
      previous = read_text (codes "previous_hash") (str genesis_hash) same_block e.previous;
      computed = sym (recompute_entry_hash-SameValue c s) ∙ e.computed;
    }

dump-decision :
    (p : ProofV1)
    → get (codes "decision") (obj end) (proof_dump p) ≡ some (decision_dump p.decision)
unfolding get lookup_field text_eq proof_dump
dump-decision p = refl

dump-state :
    (p : ProofV1)
    → get (codes "to_state") (str (codes "unknown")) (decision_dump p.decision)
      ≡ some (str p.decision.to_state)
unfolding get lookup_field text_eq decision_dump
dump-state p = refl

insert_entry-some :
    (e : Entry) (es : List Entry) → (f : Entry) × (fs : List Entry) × (insert_entry e es ≡ f ∷ fs)
unfolding insert_entry
insert_entry-some e [] = (e, [], refl)
insert_entry-some e (f ∷ fs) = elim (Bool-cases (text_leb e.0 f.0)) [
  | inl first ↦ (e, f ∷ fs, rw first refl)
  | inr later ↦ (f, insert_entry e fs, rw later refl)
]

join-some : (k v : Text) (ts : List Text) → (t : Text) × (join (entry_text (k, v) ∷ ts) ≡ 34 ∷ t)
unfolding join
join-some k v [] = (_, refl)
join-some k v (u ∷ ts) = (_, refl)

wrapped :
    (e : Entry) (es : List Entry)
    → (t : Text) × (wrap_entries (some (e ∷ es)) ≡ some (123 ∷ 34 ∷ t))
unfolding sort_entries entry_texts
wrapped e es =
    let ((k, v), fs, sorted) = insert_entry-some e (sort_entries es) in
    let (t, joined) = join-some k v (entry_texts fs) in (t ++ 125 ∷ [], rw sorted (rw joined refl))

stored_text : (t : Text) → is_stored (123 ∷ 34 ∷ t) ≡ true
unfolding text_eq
stored_text t = refl

cons_entry-stored :
    (k : Text) (v : Option Text) (es : Option (List Entry)) {j : Text}
    → wrap_entries (cons_entry (text_key k) v es) ≡ some j
    → is_stored j ≡ true
cons_entry-stored k none es h = cc
cons_entry-stored k (some v) none h = cc
cons_entry-stored k (some v) (some es) {j} h =
    let (t, e) = wrapped (k, v) es in
    let same : 123 ∷ 34 ∷ t ≡ j = ground (arith, e, h) in
    subst (λ u. is_stored u ≡ true) same (stored_text t)

dumps-stored :
    (k : Text) (v : Value) (fs : Fields) {j : Text}
    → dumps (obj (field (text_key k) v fs)) ≡ some j
    → is_stored j ≡ true
unfolding dumps
dumps-stored k v fs h = cons_entry-stored k (dumps v) (dump_fields fs) h

pub stored_dump : (p : ProofV1) {j : Text} → dumps (proof_dump p) ≡ some j → is_stored j ≡ true
unfolding proof_dump
stored_dump p h = dumps-stored (codes "type") _ _ h

-- A row with the JSON of a proof and its hashes is archived, if the dump can be encoded and
-- json.loads restores it.
pub row-IsArchived :
    (c : Crypto) (loads : Loads) (r : Row) (p : ProofV1)
    → recompute_hash c p ≡ ok p.ledger.current_hash
    → r.current_hash ≡ p.ledger.current_hash
    → r.previous_hash ≡ p.ledger.previous_hash
    → dumps (proof_dump p) ≡ some r.proof_json
    → IsEncodable (proof_dump p)
    → Restored loads (dumps (proof_dump p)) (proof_dump p)
    → IsArchived c loads r
row-IsArchived c loads r p hashed same_hash same_prev json encodable restored =
    let (b, bytes) = IsEncodable-dump_bytes (proof_dump p) encodable in
    let (short, clean) = dump_bytes-ok (proof_dump p) r.proof_json bytes json in
    let (w, loaded, s) = subst (λ o. Restored loads o (proof_dump p)) json restored in
    let (decision, read, same_decision) =
      read_same (codes "decision") (obj end) s (dump-decision p) in
    record {
      entry = w;
      proof = p;
      same_proof = s;
      stored = stored_dump p json;
      loaded = loaded;
      dumped = sym (dumps-SameValue s) ∙ json;
      encodable = (sym (has_long_int-SameValue s) ∙ short, clean);
      hashed = rw same_hash (rw same_prev (IsEntry-SameValue s (dump-IsEntry c p hashed)));
      decision = decision;
      read_decision = read;
      state = str p.decision.to_state;
      read_state =
          read_text (codes "to_state") (str (codes "unknown")) same_decision (dump-state p);
    }
