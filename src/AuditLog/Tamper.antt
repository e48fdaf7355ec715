-- ===== src/AuditLog/Tamper.antt =====
-- What a log that verifies cannot hide, and what it can.
use provable_ai.Canonical.Hashes.{fromhex-hexdigest}
use provable_ai.AuditLog.Chain.{IsRow, intact, IsIntact, walk→IsIntact, IsIntact→walk}
use provable_ai.Base.{
  Option, List, ◌≡◌, ◌∷◌, length, ◌++◌, some, [], ◌⊎◌, sym, arith, Bool-cases, refl, none, ◌↔◌, ◌∙◌,
  ap, inl, inr, length-append, subst,
}
use provable_ai.Text.{Bytes, text_eq→eq, text_ne}
use provable_ai.AuditLog.{
  verify_audit, AuditRow, length, hexdigest, ◌∷◌, dump_bytes, Text, some, content, fromhex, rows_of,
  text_eq, genesis_hash, get_latest_chain_hash, latest_hash,
}
use provable_ai.Json.Encode.{EncodeError}
use provable_ai.Crypto.{Crypto, Collides}
use provable_ai.Base.Result.{Result, ok, err}

-- `verify_chain` finds no fault in a tenant's rows exactly if every row has the hash of its content
-- and is chained to the one before it, the first to the genesis hash.
pub verify_audit-IsIntact :
    (c : Crypto) (t : Text) (rows : List AuditRow)
    → (verify_audit c t rows ≡ some (intact (length (rows_of t rows))))
      ↔ IsIntact c genesis_hash (rows_of t rows)
unfolding verify_audit
verify_audit-IsIntact c t rows = (
  walk→IsIntact c (length (rows_of t rows)) genesis_hash (rows_of t rows),
  IsIntact→walk c (length (rows_of t rows)) genesis_hash (rows_of t rows),
)

append-injective : (p q u v : Bytes) → length p ≡ length q → p ++ u ≡ q ++ v → (p ≡ q) × (u ≡ v)
append-injective [] [] u v l e = (refl, e)
append-injective [] (y ∷ q) u v l e = absurd (omega (arith, l))
append-injective (x ∷ p) [] u v l e = absurd (omega (arith, l))
append-injective (x ∷ p) (y ∷ q) u v l e =
    let rest : p ++ u ≡ q ++ v = cc in
    let (same, same_end) = append-injective p q u v (omega (arith, l)) rest in (cc, same_end)

pub same_or_Collides :
    (c : Crypto) {u v : Option Bytes} (a b : Bytes)
    → u ≡ some a
    → v ≡ some b
    → c.sha256 a ≡ c.sha256 b
    → (a ≡ b) ⊎ Collides c u v
same_or_Collides c a b eu ev e = elim (Bool-cases (text_eq a b)) [
  | inl same ↦ inl (text_eq→eq a b same)
  | inr other ↦ inr (a, b, eu, ev, text_ne a b other, e)
]

pub digests-injective :
    (c : Crypto) (a b : Bytes) (s t : Text)
    → s ≡ hexdigest c a
    → t ≡ hexdigest c b
    → fromhex s ≡ fromhex t
    → c.sha256 a ≡ c.sha256 b
digests-injective c a b s t es et e =
    let found : some (c.sha256 a) ≡ some (c.sha256 b) =
      sym (fromhex-hexdigest c a)
      ∙ ap fromhex (sym es)
      ∙ e
      ∙ ap fromhex et
      ∙ fromhex-hexdigest c b in
    cc found

-- The bytes of a row's content, which `_compute_row_hash` hashes.
abbrev pub bytes_of : Result EncodeError Bytes → Option Bytes
bytes_of (ok b) = some b
bytes_of (err e) = none

abbrev pub row_bytes : AuditRow → Option Bytes
row_bytes r = bytes_of (dump_bytes (content r.event r.sequence_num))

abbrev pub written : List AuditRow → List (Option Bytes)
written [] = []
written (r ∷ rs) = row_bytes r ∷ written rs

abbrev joined : Option Bytes → Option Bytes → Option Bytes
joined (some a) (some b) = some (a ++ b)
joined _ _ = none

-- The bytes that `_compute_chain_hash` hashes for a row behind the hash `prev`.
abbrev pub chain_bytes : Text → AuditRow → Option Bytes
chain_bytes prev r = joined (fromhex prev) (fromhex r.row_hash)

-- Two rows at one place of two logs, behind the hashes `p` and `q`, whose contents differ and have
-- one digest, or that are chained by different bytes with one digest.
abbrev pub RowsCollide : Crypto → Text → Text → AuditRow → AuditRow → Type 0
RowsCollide c p q r s =
    Collides c (row_bytes r) (row_bytes s) ⊎ Collides c (chain_bytes p r) (chain_bytes q s)

-- Such rows at some place of two logs that start behind `p` and `q`.
abbrev pub LogsCollide : Crypto → Text → Text → List AuditRow → List AuditRow → Type 0
LogsCollide c p q (r ∷ rs) (s ∷ ss) =
    RowsCollide c p q r s ⊎ LogsCollide c r.chain_hash s.chain_hash rs ss
LogsCollide c p q _ _ = ⊥

chained :
    (c : Crypto) (p : Text) (r : AuditRow) (h : IsRow c p r)
    → chain_bytes p r ≡ some (h.before ++ c.sha256 h.bytes)
chained c p r h =
    rw h.readable (rw h.row (ap (joined (some h.before)) (fromhex-hexdigest c h.bytes)))

same_row :
    (c : Crypto) (p q : Text) (r s : AuditRow)
    → IsRow c p r
    → IsRow c q s
    → fromhex r.chain_hash ≡ fromhex s.chain_hash
    → ((row_bytes r ≡ row_bytes s) × (fromhex p ≡ fromhex q)) ⊎ RowsCollide c p q r s
same_row c p q r s h k e =
    elim (same_or_Collides c (h.before ++ c.sha256 h.bytes) (k.before ++ c.sha256 k.bytes)
      (chained c p r h) (chained c q s k)
      (digests-injective c _ _ r.chain_hash s.chain_hash h.chain k.chain e)) [
        | inr collision ↦ inr (inr collision)
        | inl same ↦
            let same_length : length h.before ≡ length k.before = omega (
              arith,
              ap length same,
              length-append h.before (c.sha256 h.bytes),
              length-append k.before (c.sha256 k.bytes),
              c.length-sha256 h.bytes,
              c.length-sha256 k.bytes,
            ) in
            let (before, digests) =
              append-injective h.before k.before (c.sha256 h.bytes) (c.sha256 k.bytes) same_length
                same in
            let row_h = ap bytes_of h.dumped in
            let row_k = ap bytes_of k.dumped in
            elim (same_or_Collides c h.bytes k.bytes row_h row_k digests) [
              | inr collision ↦ inr (inl collision)
              | inl bytes ↦
                  inl (
                    row_h ∙ ap some bytes ∙ sym row_k,
                    h.readable ∙ ap some before ∙ sym k.readable,
                  )
            ]
      ]

same_rows :
    (c : Crypto) (p q : Text) (xs ys : List AuditRow)
    → IsIntact c p xs
    → IsIntact c q ys
    → length xs ≡ length ys
    → latest_hash p xs ≡ latest_hash q ys
    → ((written xs ≡ written ys) × (fromhex p ≡ fromhex q)) ⊎ LogsCollide c p q xs ys
unfolding latest_hash
same_rows c p q [] [] hx hy l e = inl (refl, ap fromhex e)
same_rows c p q [] (y ∷ ys) hx hy l e = absurd (omega (arith, l))
same_rows c p q (x ∷ xs) [] hx hy l e = absurd (omega (arith, l))
same_rows c p q (x ∷ xs) (y ∷ ys) (hx, later_x) (hy, later_y) l e =
    elim (same_rows c x.chain_hash y.chain_hash xs ys later_x later_y (omega (arith, l)) e) [
      | inr collision ↦ inr (inr collision)
      | inl rest ↦ elim (same_row c p q x y hx hy rest.1) [
        | inr collision ↦ inr (inl collision)
        | inl here ↦ inl (cc (here.0, rest.0), here.1)
      ]
    ]

-- Two logs of a tenant that both verify, with as many rows and the same latest chain hash, have the
-- same bytes in all rows, or at some place the two rows at that place give a collision of SHA-256:
-- their contents differ and have one digest, or the bytes that chain them do.
pub tampering_shows :
    (c : Crypto) (t : Text) (xs ys : List AuditRow)
    → verify_audit c t xs ≡ some (intact (length (rows_of t xs)))
    → verify_audit c t ys ≡ some (intact (length (rows_of t ys)))
    → length (rows_of t xs) ≡ length (rows_of t ys)
    → get_latest_chain_hash t xs ≡ get_latest_chain_hash t ys
    → (written (rows_of t xs) ≡ written (rows_of t ys))
      ⊎ LogsCollide c genesis_hash genesis_hash (rows_of t xs) (rows_of t ys)
tampering_shows c t xs ys hx hy l e =
    elim (same_rows c genesis_hash genesis_hash (rows_of t xs) (rows_of t ys)
      ((verify_audit-IsIntact c t xs).0 hx) ((verify_audit-IsIntact c t ys).0 hy) l e) [
        | inl same ↦ inl same.0
        | inr collision ↦ inr collision
      ]

pub rows_of-append :
    (t : Text) (xs ys : List AuditRow) → rows_of t (xs ++ ys) ≡ rows_of t xs ++ rows_of t ys
unfolding rows_of
rows_of-append t [] ys = refl
rows_of-append t (x ∷ xs) ys = ground (arith, rows_of-append t xs ys)

IsIntact-prefix :
    (c : Crypto) (prev : Text) (xs ys : List AuditRow)
    → IsIntact c prev (xs ++ ys)
    → IsIntact c prev xs
IsIntact-prefix c prev [] ys h = tt
IsIntact-prefix c prev (x ∷ xs) ys (here, later) =
    (here, IsIntact-prefix c x.chain_hash xs ys later)

-- A log that verifies still verifies after its last rows are taken away: `verify_chain` does not
-- see that the newest entries were deleted or that an older copy was put back.
pub truncation_hides :
    (c : Crypto) (t : Text) (kept lost : List AuditRow)
    → verify_audit c t (kept ++ lost) ≡ some (intact (length (rows_of t (kept ++ lost))))
    → verify_audit c t kept ≡ some (intact (length (rows_of t kept)))
truncation_hides c t kept lost h =
    let whole = (verify_audit-IsIntact c t (kept ++ lost)).0 h in
    (verify_audit-IsIntact c t kept).1 (
      IsIntact-prefix c genesis_hash (rows_of t kept) (rows_of t lost)
        (subst (IsIntact c genesis_hash) (rows_of-append t kept lost) whole))
