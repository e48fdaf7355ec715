-- ===== src/KeyRegistry/Chain.antt =====
-- What it means that the chain of a tenant's keys verifies, and that an insert extends it.
use provable_ai.AuditLog.Storable.{opt_str-IsCanonical}
use provable_ai.Merkle.Level.{IsReadable}
use provable_ai.Canonical.Accepts.{IsCanonical, dumps-some}
use provable_ai.Base.{
  Option, List, ◌++◌, ◌≡◌, ◌∷◌, some, [], true, arith, refl, subst, none, Bool-cases, inl, inr,
}
use provable_ai.Text.{Bytes, text_eq_refl, text_eq→eq}
use provable_ai.Json.Ascii.{dumps_ascii, to_ascii}
use provable_ai.KeyRegistry.{
  key_hash, walk_keys, insert_key, keys_of, last_chain_hash, Crypto, Text, dumps_ascii, Option,
  KeyRow, List, fromhex, hash_pair, Key, genesis_hash, ok, hexdigest, key_content, prev_chain_hash,
  utf8, text_eq,
}
use provable_ai.KeyRegistry.Rows.{keys_of-own, keys_of-other}
use provable_ai.Canonical.Hashes.{fromhex-hexdigest, fromhex-genesis}

-- A row behind the hash `prev`.
pub record IsKeyRow (c : Crypto) (prev : Text) (r : KeyRow) : Type 0 where
  pub row : key_hash c r.key ≡ some r.row_hash
  pub chain : hash_pair c (fromhex prev) (fromhex r.row_hash) ≡ some r.chain_hash

-- The rows of a tenant, each chained to the one before it.
abbrev pub IsChained : Crypto → Text → List KeyRow → Type 0
IsChained c prev [] = Unit
IsChained c prev (r ∷ rs) = IsKeyRow c prev r × IsChained c r.chain_hash rs

pub walk_keys-IsChained :
    (c : Crypto) (prev : Text) (rs : List KeyRow)
    → IsChained c prev rs
    → walk_keys c prev rs ≡ some true
unfolding walk_keys
walk_keys-IsChained c prev [] h = refl
walk_keys-IsChained c prev (r ∷ rs) (here, h) = ground (
  arith,
  here.row,
  here.chain,
  text_eq_refl r.row_hash,
  text_eq_refl r.chain_hash,
  walk_keys-IsChained c r.chain_hash rs h,
)

hash_pair-IsReadable :
    (c : Crypto) (a b : Option Bytes) {t : Text} → hash_pair c a b ≡ some t → IsReadable t
hash_pair-IsReadable c (some a) (some b) {t} h =
    let same : hexdigest c (a ++ b) ≡ t = ground arith in
    (
      c.sha256 (a ++ b),
      subst (λ x. fromhex x ≡ some (c.sha256 (a ++ b))) same (fromhex-hexdigest c (a ++ b)),
    )
hash_pair-IsReadable c none b h = absurd (ground arith)
hash_pair-IsReadable c (some a) none h = absurd (ground arith)

last-IsReadable :
    (c : Crypto) (prev : Text) (rs : List KeyRow)
    → IsReadable prev
    → IsChained c prev rs
    → IsReadable (last_chain_hash prev rs)
unfolding last_chain_hash
last-IsReadable c prev [] readable h = readable
last-IsReadable c prev (r ∷ rs) readable (here, h) =
    last-IsReadable c r.chain_hash rs
      (hash_pair-IsReadable c (fromhex prev) (fromhex r.row_hash) here.chain) h

append-IsChained :
    (c : Crypto) (prev : Text) (rs : List KeyRow) (r : KeyRow)
    → IsChained c prev rs
    → IsKeyRow c (last_chain_hash prev rs) r
    → IsChained c prev (rs ++ r ∷ [])
unfolding last_chain_hash
append-IsChained c prev [] r h here = (here, tt)
append-IsChained c prev (s ∷ rs) r (first, h) here =
    (first, append-IsChained c s.chain_hash rs r h here)

key_content-IsCanonical : (k : Key) → IsCanonical (key_content k)
unfolding key_content
key_content-IsCanonical k = (
  tt,
  (
    tt,
    (
      tt,
      (
        tt,
        (
          tt,
          (
            tt,
            (
              tt,
              (
                opt_str-IsCanonical k.retired_at,
                (opt_str-IsCanonical k.superseded_by, (opt_str-IsCanonical k.notes, tt)),
              ),
            ),
          ),
        ),
      ),
    ),
  ),
)

key_hash-some : (c : Crypto) (k : Key) → (b : Bytes) × (key_hash c k ≡ some (hexdigest c b))
unfolding key_hash dumps_ascii
key_hash-some c k =
    let (t, e) = dumps-some (key_content k) (key_content-IsCanonical k) in
    (utf8 (to_ascii t), rw e refl)

-- All tenants' chains.
abbrev pub IsRegistry : Crypto → List KeyRow → Type 0
IsRegistry c rows = (t : Text) → IsChained c genesis_hash (keys_of t rows)

-- On chained rows an insert answers, with the row that it appended, and keeps the chains.
pub insert_key-IsRegistry :
    (c : Crypto) (rows : List KeyRow) (k : Key)
    → IsRegistry c rows
    → (r : KeyRow) × (insert_key c rows k ≡ ok (rows ++ r ∷ [], r))
      × (r.key ≡ k)
      × IsRegistry c (rows ++ r ∷ [])
unfolding insert_key
insert_key-IsRegistry c rows k h =
    let (b, hashed) = key_hash-some c k in
    let rh = hexdigest c b in
    let (before, readable) =
      last-IsReadable c genesis_hash (keys_of k.tenant_id rows) (_, fromhex-genesis)
        (h k.tenant_id) in
    let ch = hexdigest c (before ++ c.sha256 b) in
    let row : KeyRow = record { key = k; row_hash = rh; chain_hash = ch } in
    let linked : hash_pair c (fromhex (prev_chain_hash k.tenant_id rows)) (fromhex rh) ≡ some ch =
      rw readable (rw (fromhex-hexdigest c b) refl) in
    (
      row,
      rw hashed (rw linked refl),
      refl,
      λ t. elim (Bool-cases (text_eq k.tenant_id t)) [
        | inl own ↦ rw (keys_of-own t rows row own) (
            let same : k.tenant_id ≡ t = text_eq→eq k.tenant_id t own in
            append-IsChained c genesis_hash (keys_of t rows) row (h t) (record {
              row = hashed;
              chain =
                  subst (λ u. hash_pair c (fromhex (prev_chain_hash u rows)) (fromhex rh) ≡ some ch)
                    same linked;
            }))
        | inr other ↦ rw (keys_of-other t rows row other) (h t)
      ],
    )
