-- ===== src/AuditLog/Chain.antt =====
-- What it means that a log verifies, and what a log that verifies cannot hide.
use provable_ai.Canonical.Hashes.{fromhex-hexdigest}
use provable_ai.Text.{text_eq_refl, text_eq→eq}
use provable_ai.Base.{
  ℕ, true, List, ◌∷◌, none, ◌∷◌, length, ◌≡◌, some, [], Option-cases, inl, arith, ◌++◌, refl, inr,
  ap, sym,
}
use Prim.Native.Nat.{ℕ}
use provable_ai.AuditLog.{
  walk, compute_row_hash, Text, ChainVerificationResult, compute_chain_hash, List, true, AuditRow,
  none, ◌∷◌, length, content, some, fromhex, Bytes, hexdigest, dump_bytes, text_eq,
}
use provable_ai.Crypto.{Crypto}
use provable_ai.Base.Result.{ok, Result-cases}

-- A row behind the hash `prev`: its row_hash is the hash of its content, and its chain_hash that of
-- `prev` and the row_hash together.
pub record IsRow (c : Crypto) (prev : Text) (r : AuditRow) : Type 0 where
  pub bytes : Bytes
  pub dumped : dump_bytes (content r.event r.sequence_num) ≡ ok bytes
  pub before : Bytes
  pub readable : fromhex prev ≡ some before
  pub row : r.row_hash ≡ hexdigest c bytes
  pub chain : r.chain_hash ≡ hexdigest c (before ++ c.sha256 bytes)

abbrev pub IsIntact : Crypto → Text → List AuditRow → Type 0
IsIntact c prev [] = Unit
IsIntact c prev (r ∷ rs) = IsRow c prev r × IsIntact c r.chain_hash rs

abbrev pub intact : ℕ → ChainVerificationResult
intact total = record { valid = true; total_rows = total; broken_at_id = none }

-- The answer for a chain without a fault.
abbrev pub Verifies : Crypto → Text → List AuditRow → Type 0
Verifies c prev rows = walk c (length rows) prev rows ≡ some (intact (length rows))

row_hash-IsRow :
    (c : Crypto) (prev : Text) (r : AuditRow)
    → IsRow c prev r
    → (compute_row_hash c r.event r.sequence_num ≡ some r.row_hash)
      × (compute_chain_hash c prev r.row_hash ≡ some r.chain_hash)
unfolding compute_row_hash compute_chain_hash
row_hash-IsRow c prev r h =
    let digest : fromhex r.row_hash ≡ some (c.sha256 h.bytes) =
      rw h.row (fromhex-hexdigest c h.bytes) in
    (rw h.dumped (ap some (sym h.row)), rw h.readable (rw digest (ap some (sym h.chain))))

pub IsIntact→walk :
    (c : Crypto) (n : ℕ) (prev : Text) (rs : List AuditRow)
    → IsIntact c prev rs
    → walk c n prev rs ≡ some (intact n)
unfolding walk
IsIntact→walk c n prev [] h = refl
IsIntact→walk c n prev (r ∷ rs) (here, later) =
    let (row, chain) = row_hash-IsRow c prev r here in
    rw row (
      rw chain (
        rw (text_eq_refl r.row_hash)
          (rw (text_eq_refl r.chain_hash) (IsIntact→walk c n r.chain_hash rs later))))

walk→IsRow :
    (c : Crypto) (n : ℕ) (prev : Text) (r : AuditRow) (rs : List AuditRow)
    → walk c n prev (r ∷ rs) ≡ some (intact n)
    → IsRow c prev r × (walk c n r.chain_hash rs ≡ some (intact n))
unfolding walk compute_row_hash compute_chain_hash
walk→IsRow c n prev r rs h = elim (Result-cases (dump_bytes (content r.event r.sequence_num))) [
  | inr (x, refused) ↦ absurd (ground arith)
  | inl (t, dumped) ↦ elim (Option-cases (fromhex prev)) [
    | inl unreadable ↦ absurd (ground (arith, fromhex-hexdigest c t))
    | inr (b, readable) ↦
        let same_row : text_eq r.row_hash (hexdigest c t) ≡ true =
          ground (arith, fromhex-hexdigest c t) in
        let same_chain : text_eq r.chain_hash (hexdigest c (b ++ c.sha256 t)) ≡ true =
          ground (arith, fromhex-hexdigest c t) in
        (
          record {
            bytes = t;
            dumped = dumped;
            before = b;
            readable = readable;
            row = text_eq→eq r.row_hash _ same_row;
            chain = text_eq→eq r.chain_hash _ same_chain;
          },
          ground (arith, fromhex-hexdigest c t),
        )
  ]
]

pub walk→IsIntact :
    (c : Crypto) (n : ℕ) (prev : Text) (rs : List AuditRow)
    → walk c n prev rs ≡ some (intact n)
    → IsIntact c prev rs
walk→IsIntact c n prev [] h = tt
walk→IsIntact c n prev (r ∷ rs) h =
    let (here, later) = walk→IsRow c n prev r rs h in
    (here, walk→IsIntact c n r.chain_hash rs later)
