-- ===== src/Engine/Loaded.antt =====
-- What loading the chain of an instance gives, for the export.
use provable_ai.Package.{final_state_of, last_item}
use provable_ai.Base.{
  ℕ, some, ◌≡◌, refl, List, [], ◌∷◌, All, ◌+◌, subst, Bool-cases, inl, inr, leb, ap, false, length,
  suc,
}
use provable_ai.Text.{Text, codes}
use provable_ai.Json.{Value, Items, str, obj, nil, cons, end, dumps, dump_items}
use provable_ai.Json.Lookup.{get}
use provable_ai.Json.Encode.{has_long_int, has_long_item}
use provable_ai.Json.Surrogates.{any_surrogate}
use provable_ai.Crypto.{Crypto}
use provable_ai.Storage.{Row, Tables, chain_of, is_in}
use provable_ai.Storage.Queries.{get_ledger_chain, sort_ascending, insert_ascending}
use provable_ai.Storage.Chain.{IsChainFrom}
use provable_ai.Package.Parts.{IsEntry, IsLinkedEntries}
use provable_ai.Engine.Export.{Loads, load_proofs, item_count}
use provable_ai.Engine.Archive.{IsArchived}

-- The rows of a chain, sorted, are among those of the ledger.
module _ {ℓ} (P : Row → Type ℓ) where
  chain_of-All : (t i : Text) (rows : List Row) → All P rows → All P (chain_of t i rows)
  unfolding chain_of
  chain_of-All t i [] h = tt
  chain_of-All t i (r ∷ rs) (here, later) = elim (Bool-cases (is_in t i r)) [
    | inl is ↦ rw is (here, chain_of-All t i rs later)
    | inr other ↦ rw other (chain_of-All t i rs later)
  ]

  insert_ascending-All : (r : Row) (rs : List Row) → P r → All P rs → All P (insert_ascending r rs)
  unfolding insert_ascending
  insert_ascending-All r [] h hs = (h, tt)
  insert_ascending-All r (s ∷ rs) h (here, later) =
      elim (Bool-cases (leb r.sequence_id s.sequence_id)) [
        | inl first ↦ rw first (h, (here, later))
        | inr after ↦ rw after (here, insert_ascending-All r rs h later)
      ]

  sort_ascending-All : (rs : List Row) → All P rs → All P (sort_ascending rs)
  unfolding sort_ascending
  sort_ascending-All [] h = tt
  sort_ascending-All (r ∷ rs) (here, later) =
      insert_ascending-All r (sort_ascending rs) here (sort_ascending-All rs later)

  pub get_ledger_chain-All :
      (db : Tables) (i t : Text) → All P db.ledger → All P (get_ledger_chain db i t)
  unfolding get_ledger_chain
  get_ledger_chain-All db i t h =
      sort_ascending-All (chain_of t i db.ledger) (chain_of-All t i db.ledger h)

-- An entry that says the state that its decision leads to.
abbrev pub HasState : Value → Type 0
HasState entry =
    (decision : Value) × (state : Value) × (get (codes "decision") (obj end) entry ≡ some decision)
    × (get (codes "to_state") (str (codes "unknown")) decision ≡ some state)

abbrev pub AllHaveState : Items → Type 0
AllHaveState nil = Unit
AllHaveState (cons v xs) = HasState v × AllHaveState xs

last_item-HasState :
    (v : Value) (xs : Items) → HasState v → AllHaveState xs → HasState (last_item v xs)
last_item-HasState v nil h hs = h
last_item-HasState v (cons w xs) h (here, later) = last_item-HasState w xs here later

pub final_state-some :
    (v : Value) (xs : Items)
    → AllHaveState (cons v xs)
    → (state : Value) × (final_state_of (str (codes "unknown")) (cons v xs) ≡ some state)
unfolding final_state_of
final_state-some v xs (h, hs) =
    let (decision, state, read, found) = last_item-HasState v xs h hs in (state, rw read found)

-- What loading the rows of a chain gives.
pub record IsLoaded (c : Crypto) (loads : Loads) (prev : Text) (rows : List Row) : Type 0 where
  pub entries : Items
  pub loaded : load_proofs loads rows ≡ some entries
  pub linked : IsLinkedEntries c prev entries
  pub texts : List Text
  pub dumped : dump_items entries ≡ some texts
  pub encodable : (has_long_item entries ≡ false) × (any_surrogate texts ≡ false)
  pub states : AllHaveState entries
  pub counted : item_count entries ≡ length rows

-- Archived rows, each behind the one before, load as linked entries.
pub rows-IsLoaded :
    (c : Crypto) (loads : Loads) (prev : Text) (n : ℕ) (rows : List Row)
    → All (IsArchived c loads) rows
    → IsChainFrom prev n rows
    → IsLoaded c loads prev rows
unfolding load_proofs dumps has_long_int any_surrogate
rows-IsLoaded c loads prev n [] h chain = record {
  entries = nil;
  loaded = refl;
  linked = tt;
  texts = [];
  dumped = refl;
  encodable = (refl, refl);
  states = tt;
  counted = refl;
}
rows-IsLoaded c loads prev n (r ∷ rs) (a, h) (seq, before, chain) =
    let rest = rows-IsLoaded c loads r.current_hash (n + 1) rs h chain in
    record {
      entries = cons a.entry rest.entries;
      loaded = rw rest.loaded (rw a.stored (rw a.loaded refl));
      linked = (
        r.current_hash,
        subst (λ t. IsEntry c t r.current_hash a.entry) before a.hashed,
        rest.linked,
      );
      texts = r.proof_json ∷ rest.texts;
      dumped = rw a.dumped (rw rest.dumped refl);
      encodable =
          (rw (a.encodable.0, rest.encodable.0) refl, rw (a.encodable.1, rest.encodable.1) refl);
      states = ((a.decision, a.state, a.read_decision, a.read_state), rest.states);
      counted = ap suc rest.counted;
    }
