-- ===== src/Storage/Chain.antt =====
-- The chains of the ledger: what a linked chain is, and what the queries find in one.
use provable_ai.Base.{
  List, ℕ, ◌≡◌, Option, ◌≢◌, ◌∷◌, ◌+◌, none, [], arith, length, some, ◌++◌, refl, ◌∙◌, sym,
  length-append,
}
use provable_ai.Text.{Text, text_eq_iff}
use provable_ai.Storage.{
  other_tenant, latest, chain_of, Row, expected_seq, genesis_hash, expected_prev, Tables,
}
use provable_ai.Storage.Queries.{insert_ascending, sort_ascending, get_ledger_chain}

abbrev pub last_hash : List Row → Text
last_hash [] = genesis_hash
last_hash (r ∷ rs) = r.current_hash

-- A chain, newest row first: numbered from 1 without a gap, each row behind the hash of the one
-- before it, the first behind the genesis hash.
abbrev pub IsChain : List Row → Type 0
IsChain [] = Unit
IsChain (r ∷ rs) = (r.sequence_id ≡ length rs + 1) × (r.previous_hash ≡ last_hash rs) × IsChain rs

-- The same, oldest row first: from number `n` on, behind the hash `prev`.
abbrev pub IsChainFrom : Text → ℕ → List Row → Type 0
IsChainFrom prev n [] = Unit
IsChainFrom prev n (r ∷ rs) =
    (r.sequence_id ≡ n) × (r.previous_hash ≡ prev) × IsChainFrom r.current_hash (n + 1) rs

abbrev newest : List Row → Option Row
newest [] = none
newest (r ∷ rs) = some r

pub latest-IsChain : (rs : List Row) → IsChain rs → latest rs ≡ newest rs
unfolding latest
latest-IsChain [] h = refl
latest-IsChain (r ∷ []) h = refl
latest-IsChain (r ∷ s ∷ rs) h = ground (arith, latest-IsChain (s ∷ rs) h.2)

-- The link that an append asks for is the one of the chain's end.
pub expected-IsChain :
    (rs : List Row)
    → IsChain rs
    → (expected_seq (latest rs) ≡ length rs + 1) × (expected_prev (latest rs) ≡ last_hash rs)
unfolding latest
expected-IsChain [] h = (refl, refl)
expected-IsChain (r ∷ rs) h = ground (arith, latest-IsChain (r ∷ rs) h)

-- The chains of all instances.
abbrev pub IsLedger : List Row → Type 0
IsLedger rows = (t i : Text) → IsChain (chain_of t i rows)

-- No instance has rows of two tenants.
abbrev pub HasOneOwner : List Row → Type 0
HasOneOwner rows = (t u i : Text) → (chain_of t i rows ≢ []) → (chain_of u i rows ≢ []) → t ≡ u

pub other_tenant-none :
    (t u i : Text) (rows : List Row) → other_tenant t i rows ≡ none → t ≢ u → chain_of u i rows ≡ []
unfolding other_tenant chain_of
other_tenant-none t u i [] h ne = refl
other_tenant-none t u i (r ∷ rs) h ne =
    ground (arith, text_eq_iff r.tenant_id t, text_eq_iff r.tenant_id u, other_tenant-none t u i rs)

insert-last :
    (r : Row) (rs : List Row) (prev : Text) (n : ℕ)
    → IsChainFrom prev n rs
    → r.sequence_id ≡ n + length rs
    → insert_ascending r rs ≡ rs ++ r ∷ []
unfolding insert_ascending
insert-last r [] prev n h e = refl
insert-last r (s ∷ rs) prev n h e = ground (arith, insert-last r rs s.current_hash (n + 1) h.2)

end_of : Text → List Row → Text
end_of prev [] = prev
end_of prev (r ∷ rs) = end_of r.current_hash rs

append-IsChainFrom :
    (r : Row) (rs : List Row) (prev : Text) (n : ℕ)
    → IsChainFrom prev n rs
    → r.sequence_id ≡ n + length rs
    → r.previous_hash ≡ end_of prev rs
    → IsChainFrom prev n (rs ++ r ∷ [])
unfolding end_of
append-IsChainFrom r [] prev n h e p = (omega (arith, e), p, tt)
append-IsChainFrom r (s ∷ rs) prev n (hn, hp, h) e p =
    (hn, hp, append-IsChainFrom r rs s.current_hash (n + 1) h (omega (arith, e)) p)

end_of-append :
    (r : Row) (rs : List Row) (prev : Text) → end_of prev (rs ++ r ∷ []) ≡ r.current_hash
unfolding end_of
end_of-append r [] prev = refl
end_of-append r (s ∷ rs) prev = end_of-append r rs s.current_hash

-- What a sorted chain is: the same rows, the oldest first.
record IsSorted (rs sorted : List Row) : Type 0 where
  from_genesis : IsChainFrom genesis_hash 1 sorted
  same_length : length sorted ≡ length rs
  same_end : end_of genesis_hash sorted ≡ last_hash rs

sort_ascending-IsSorted : (rs : List Row) → IsChain rs → IsSorted rs (sort_ascending rs)
unfolding sort_ascending end_of
sort_ascending-IsSorted [] h = record { from_genesis = tt; same_length = refl; same_end = refl }
sort_ascending-IsSorted (r ∷ rs) (hn, hp, h) =
    let s = sort_ascending-IsSorted rs h in
    let at : r.sequence_id ≡ 1 + length (sort_ascending rs) = omega (arith, hn, s.same_length) in
    let inserted : insert_ascending r (sort_ascending rs) ≡ sort_ascending rs ++ r ∷ [] =
      insert-last r (sort_ascending rs) genesis_hash 1 s.from_genesis at in
    record {
      from_genesis = rw inserted (
          append-IsChainFrom r (sort_ascending rs) genesis_hash 1 s.from_genesis at
            (hp ∙ sym s.same_end));
      same_length =
          rw inserted (omega (arith, length-append (sort_ascending rs) (r ∷ []), s.same_length));
      same_end = rw inserted (end_of-append r (sort_ascending rs) genesis_hash);
    }

-- Where every chain of the ledger is linked, `get_ledger_chain` gives all rows of the instance in
-- order: numbered from 1 without a gap, each behind the hash of the one before it.
pub get_ledger_chain_lem :
    (db : Tables) (i t : Text)
    → IsLedger db.ledger
    → IsChainFrom genesis_hash 1 (get_ledger_chain db i t)
      × (length (get_ledger_chain db i t) ≡ length (chain_of t i db.ledger))
unfolding get_ledger_chain
get_ledger_chain_lem db i t h =
    let s = sort_ascending-IsSorted (chain_of t i db.ledger) (h t i) in
    (s.from_genesis, s.same_length)
