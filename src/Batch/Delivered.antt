-- ===== src/Batch/Delivered.antt =====
-- A batch export, and the two verifiers of it.
use provable_ai.Base.{
  ℕ, suc, Option, none, some, ◌≡◌, ◌≢◌, refl, List, [], ◌∷◌, All, length, arith, ap, ◌∙◌, sym,
  subst, ◌⊎◌, inl, inr, true, false, Bool-cases,
}
use provable_ai.Text.{Text, Bytes, text_eq, text_eq→eq}
use provable_ai.Text.Hex.{fromhex, length-fromhex}
use provable_ai.Json.{Value, Items, str}
use provable_ai.Json.Lookup.{get, lookup_field}
use provable_ai.Crypto.{Crypto, hexdigest}
use provable_ai.Canonical.{genesis_hash}
use provable_ai.Canonical.Hashes.{fromhex-hexdigest}
use provable_ai.Storage.{Tables}
use provable_ai.Signer.{Signer}
use provable_ai.Verifier.{verify_ed25519, verify_bytes}
use provable_ai.Merkle.{merkle_root}
use provable_ai.Engine.Export.{Loads, item_count}
use provable_ai.Engine.Archive.{IsArchived}
use provable_ai.Engine.Exported.{IsAvailable, not_empty-length}
use provable_ai.Package.Offline.Stricter.{ZeroDigest}
use provable_ai.Package.Parts.{is_str_refl}
use provable_ai.Batch.{
  BatchRequest, BatchExport, select_rows, fetch_proofs, export_batch, build_batch_export,
  proof_ids_of, batch_value,
}
use provable_ai.Batch.Verify.{
  BatchVerdict, batch_error, check_bytes, try_batch, verify_batch_signature, verify_batch,
  after_merkle, given_ids, build_merkle_root,
}
use provable_ai.Batch.Ids.{AllDumps, proof_ids-AllDumps, given_ids-AllDumps}
use provable_ai.Batch.Digest.{merkle_root-IsHash}
use provable_ai.Batch.Rows.{fetch_proofs-AllDumps}

abbrev all_valid : ℕ → BatchVerdict
all_valid n = record {
  valid = true;
  merkle_root_valid = true;
  signature_valid = true;
  proof_count = n;
}

verdict_cases :
    (c : Crypto) (key : Option Bytes) (m : Bytes) (sig : Option Bytes) (ps : Items)
    → verify_bytes c key m sig ≡ true
    → ((k : Bytes) → key ≡ some k → length k ≡ 32)
    → ((k : Bytes) → sig ≡ some k → length k ≡ 64)
    → check_bytes c key (some m) sig ps ≡ some (all_valid (item_count ps))
verdict_cases c (some k) m (some s) ps h hk hs = rw (hk k refl) (rw (hs s refl) (rw h refl))
verdict_cases c (some k) m none ps h hk hs = cc
verdict_cases c none m s ps h hk hs = cc

-- The signature of a digest by a signer passes step 2.
signed-verdict :
    {c : Crypto} (s : Signer c) (b : Bytes) (sig : Text) (ps : Items)
    → s.sign_hash (c.sha256 b) ≡ some sig
    → check_bytes c (fromhex s.public_key) (some (c.sha256 b)) (fromhex sig) ps
      ≡ some (all_valid (item_count ps))
unfolding verify_ed25519
signed-verdict {c} s b sig ps e =
    let (digits, size) = s.sign_hash-hex (c.sha256 b) sig e in
    verdict_cases c (fromhex s.public_key) (c.sha256 b) (fromhex sig) ps
      (s.sign_hash-verifies (c.sha256 b) sig (c.sha256-bytes b) e)
      (λ k f. length-fromhex s.public_key 32 s.public_key-hex.0 s.public_key-hex.1 f)
      (λ k f. length-fromhex sig 64 digits size f)

-- Step 1 of the verifier on a batch with this root.
batch-verdict :
    {c : Crypto} (s : Signer c) (repr : Value → Text) (r : BatchRequest) (ps : Items)
    (ids : List Text) (b : Bytes) (sig : Text)
    → proof_ids_of c repr ps ≡ some ids
    → merkle_root c ids ≡ some (hexdigest c b)
    → s.sign_hash (c.sha256 b) ≡ some sig
    → verify_batch_signature c repr (batch_value s r ps (hexdigest c b) sig)
      ≡ all_valid (item_count ps)
unfolding verify_batch_signature try_batch get lookup_field text_eq
batch-verdict {c} s repr r ps ids b sig given rooted signed = rw given (
    rw rooted (
      rw (is_str_refl (hexdigest c b))
        (rw (fromhex-hexdigest c b) (rw (signed-verdict s b sig ps signed) refl))))

other-refused :
    (c : Crypto) (batch : Value) (root computed : Text)
    → text_eq root computed ≡ false
    → after_merkle c batch (str root) 0 computed ≡ some batch_error
other-refused c batch root computed h = rw h refl

-- The other verifier finds no id, and so the root of an empty batch.
batch-refused :
    {c : Crypto} (s : Signer c) (r : BatchRequest) (ps : Items) (b : Bytes) (sig : Text)
    → given_ids ps ≡ some []
    → (verify_batch c (batch_value s r ps (hexdigest c b) sig) ≡ some batch_error) ⊎ ZeroDigest c
unfolding verify_batch get lookup_field text_eq build_merkle_root
batch-refused {c} s r ps b sig none_given =
    elim (Bool-cases (text_eq (hexdigest c b) genesis_hash)) [
      | inl same ↦ inr (b, text_eq→eq (hexdigest c b) genesis_hash same)
      | inr other ↦ inl (
          rw none_given (
            other-refused c (batch_value s r ps (hexdigest c b) sig) (hexdigest c b) genesis_hash
              other))
    ]

-- What the two verifiers say of a batch with `n` proofs.
pub record IsDelivered (c : Crypto) (repr : Value → Text) (n : ℕ) (delivered : BatchExport)
    : Type 0 where
  pub counted : delivered.proof_count ≡ n
  pub accepted :
      verify_batch_signature c repr delivered.batch_dict
      ≡ record { valid = true; merkle_root_valid = true; signature_valid = true; proof_count = n }
  pub refused : (verify_batch c delivered.batch_dict ≡ some batch_error) ⊎ ZeroDigest c

some_root :
    (c : Crypto) (ids : List Text) (n : ℕ)
    → length ids ≡ suc n
    → (b : Bytes) × (merkle_root c ids ≡ some (hexdigest c b))
some_root c [] n e = absurd (omega (arith, e))
some_root c (i ∷ ids) n e =
    let (root, rooted, (b, digest)) = merkle_root-IsHash c i ids in (b, rooted ∙ ap some digest)

dumps-IsDelivered :
    {c : Crypto} (s : Signer c) (repr : Value → Text) (r : BatchRequest) (ps : Items) (n : ℕ)
    → AllDumps ps
    → item_count ps ≡ suc n
    → IsAvailable s
    → (delivered : BatchExport) × (export_batch s repr r ps ≡ some delivered)
      × IsDelivered c repr (suc n) delivered
unfolding export_batch
dumps-IsDelivered {c} s repr r ps n dumps count available =
    let (ids, given, as_many) = proof_ids-AllDumps c repr ps dumps in
    let (b, rooted) = some_root c ids n (as_many ∙ count) in
    let (sig, signed) = available b in
    (
      record {
        batch_dict = batch_value s r ps (hexdigest c b) sig;
        merkle_root = hexdigest c b;
        proof_count = item_count ps;
        exported_at = r.exported_at;
      },
      rw given (rw rooted (rw (fromhex-hexdigest c b) (rw signed refl))),
      record {
        counted = count;
        accepted = batch-verdict s repr r ps ids b sig given rooted signed ∙ ap all_valid count;
        refused = batch-refused s r ps b sig (given_ids-AllDumps ps dumps);
      },
    )

-- If rows are selected, all rows are archived and the signer answers, `build_batch_export` returns a
-- batch with a proof for each selected row. `verify_batch_signature` finds it valid, its root and
-- its signature; the standalone `verify_batch` refuses it, since no proof has an id of its own,
-- unless an input has the genesis hash as its digest.
pub build_batch_export-IsDelivered :
    {c : Crypto} (s : Signer c) (repr : Value → Text) (loads : Loads) (db : Tables)
    (r : BatchRequest)
    → All (IsArchived c loads) db.ledger
    → select_rows r.tenant_id r.from_date r.to_date db.ledger ≢ []
    → IsAvailable s
    → (delivered : BatchExport) × (build_batch_export s repr loads db r ≡ some delivered)
      × IsDelivered c repr
          (length (select_rows r.tenant_id r.from_date r.to_date db.ledger))
          delivered
unfolding build_batch_export
build_batch_export-IsDelivered {c} s repr loads db r archived rows available =
    let (dumps, count) = fetch_proofs-AllDumps c loads db r archived in
    let (n, size) =
      not_empty-length (select_rows r.tenant_id r.from_date r.to_date db.ledger) rows in
    let (delivered, exported, d) =
      dumps-IsDelivered s repr r (fetch_proofs loads db r.tenant_id r.from_date r.to_date) n dumps
        (count ∙ size) available in
    (delivered, exported, subst (λ m. IsDelivered c repr m delivered) (sym size) d)
