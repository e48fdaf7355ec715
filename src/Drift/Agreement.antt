-- ===== src/Drift/Agreement.antt =====
-- What a comparison without drift says.
use provable_ai.Text.{Bytes, concat, text_eq_iff}
use provable_ai.AuditLog.{verify_audit, rows_of}
use provable_ai.Base.{◌≡◌, List, false, ◌↔◌, arith, some, length, ◌⊎◌, [], ◌∷◌, inl, refl, ap}
use provable_ai.Drift.{
  compare, take_snapshot, issues_of, SystemSnapshot, Tables, AuditRow, Text, latest_hashes,
}
use provable_ai.AuditLog.Tamper.{
  tampering_shows, written, LogsCollide, same_or_Collides, digests-injective,
}
use provable_ai.AuditLog.Chain.{intact}
use provable_ai.Crypto.{Collides, Crypto, hexdigest}
use provable_ai.Verifier.{compute_system_root}
use provable_ai.Json.Utf8.{utf8}
use provable_ai.Text.Hex.{fromhex}
use provable_ai.Text.Sorted.{sort_texts}
use provable_ai.Canonical.{genesis_hash}

-- The four fields of two snapshots that a comparison reads.
abbrev pub Agrees : SystemSnapshot → SystemSnapshot → Type 0
Agrees a b =
    (a.system_root ≡ b.system_root)
    × (a.audit_chain_hash ≡ b.audit_chain_hash)
    × (a.instance_count ≡ b.instance_count)
    × (a.audit_row_count ≡ b.audit_row_count)

pub compare-Agrees : (a b : SystemSnapshot) → (((compare a b).drifted ≡ false) ↔ Agrees a b)
unfolding compare issues_of
compare-Agrees a b = ground (
  arith,
  text_eq_iff a.system_root b.system_root,
  text_eq_iff a.audit_chain_hash b.audit_chain_hash,
)

-- The bytes whose hash is the system root.
abbrev pub root_bytes : List Text → Bytes
root_bytes hashes = utf8 (concat (sort_texts hashes))

compute_system_root-same :
    (c : Crypto) (xs ys : List Text)
    → length xs ≡ length ys
    → compute_system_root c xs ≡ compute_system_root c ys
    → (root_bytes xs ≡ root_bytes ys) ⊎ Collides c (some (root_bytes xs)) (some (root_bytes ys))
unfolding compute_system_root
compute_system_root-same c [] [] l e = inl refl
compute_system_root-same c [] (y ∷ ys) l e = absurd (omega (arith, l))
compute_system_root-same c (x ∷ xs) [] l e = absurd (omega (arith, l))
compute_system_root-same c (x ∷ xs) (y ∷ ys) l e =
    let a = root_bytes (x ∷ xs) in
    let b = root_bytes (y ∷ ys) in
    same_or_Collides c a b refl refl
      (digests-injective c a b (hexdigest c a) (hexdigest c b) refl refl (ap fromhex e))

-- If the snapshots of two environments show no drift, and both audit logs verify: the logs have the
-- same bytes in all rows of the tenant, or two rows at one place of them give a collision of
-- SHA-256; the ledgers have as many instances of the tenant; and the hashes of the newest rows of
-- these, sorted and joined, are the same bytes, or the two joined texts give a collision.
pub no_drift_same_logs :
    (c : Crypto) (db1 db2 : Tables) (log1 log2 : List AuditRow)
    (tenant env1 env2 id1 id2 now1 now2 : Text)
    → verify_audit c tenant log1 ≡ some (intact (length (rows_of tenant log1)))
    → verify_audit c tenant log2 ≡ some (intact (length (rows_of tenant log2)))
    → (compare
        (take_snapshot c db1 log1 tenant env1 id1 now1)
        (take_snapshot c db2 log2 tenant env2 id2 now2)).drifted
      ≡ false
    → ((written (rows_of tenant log1) ≡ written (rows_of tenant log2))
        ⊎ LogsCollide c genesis_hash genesis_hash (rows_of tenant log1) (rows_of tenant log2))
      × (length (latest_hashes db1 tenant db1.ledger)
          ≡ length (latest_hashes db2 tenant db2.ledger))
      × ((root_bytes (latest_hashes db1 tenant db1.ledger)
            ≡ root_bytes (latest_hashes db2 tenant db2.ledger))
          ⊎ Collides c
              (some (root_bytes (latest_hashes db1 tenant db1.ledger)))
              (some (root_bytes (latest_hashes db2 tenant db2.ledger))))
unfolding take_snapshot
no_drift_same_logs c db1 db2 log1 log2 tenant env1 env2 id1 id2 now1 now2 h1 h2 same =
    let (root, chain, instances, rows) =
      (compare-Agrees (take_snapshot c db1 log1 tenant env1 id1 now1)
          (take_snapshot c db2 log2 tenant env2 id2 now2)).0
        same in
    (
      tampering_shows c tenant log1 log2 h1 h2 rows chain,
      instances,
      compute_system_root-same c (latest_hashes db1 tenant db1.ledger)
          (latest_hashes db2 tenant db2.ledger) instances root,
    )
