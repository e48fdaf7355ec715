-- ===== src/Package/RootSigned.antt =====
-- What the signature check of verify_package asks.
use provable_ai.Base.{
  Option, some, ◌≡◌, refl, true, false, arith, ◌⊎◌, inl, inr, Bool-cases, [], ◌&&◌, Bool,
  if◌then◌else◌, not,
}
use provable_ai.Base.Optional.{>>=-eq-some}
use provable_ai.Text.{Text, codes}
use provable_ai.Json.{Value, Items, str}
use provable_ai.Json.Lookup.{get}
use provable_ai.Crypto.{Crypto}
use provable_ai.Package.{
  is_str, truthy, CheckResult, passed, failed, check_passed, check_signer, compare_root,
  compute_instance_root, verify_ed25519_hex, block_of,
}
use provable_ai.Package.Parts.{is_str→eq, is_str_refl, fail_showing-fails}

-- Check 4: the signature of the root under the key of the package.
pub record IsRootSigned (c : Crypto) (exported : Value) (ledger : Items) : Type 0 where
  pub public_key : Value
  pub read_key : get (codes "public_key") (str []) exported ≡ some public_key
  pub has_key : truthy public_key ≡ true
  pub sig_hex : Value
  pub read_signature : get (codes "signature") (str []) exported ≡ some sig_hex
  pub has_signature : truthy sig_hex ≡ true
  pub block : Value
  pub read_block : block_of exported ≡ some block
  pub stored_root : Value
  pub read_root : get (codes "instance_root") (str []) block ≡ some stored_root
  pub root : Text
  pub computed : compute_instance_root c ledger ≡ some root
  pub same_root : (truthy stored_root ≡ false) ⊎ (stored_root ≡ str root)
  pub signed : verify_ed25519_hex c public_key root sig_hex ≡ true

given_both :
    (a b : Bool) {o : Option CheckResult} {r : CheckResult}
    → (if a && b then o else some failed) ≡ some r
    → check_passed r ≡ true
    → (a ≡ true) × (b ≡ true) × (o ≡ some r)
given_both true true h ok = (refl, refl, h)
given_both true false h ok = absurd (ground (arith, h, ok))
given_both false b h ok = absurd (ground (arith, h, ok))

root_cases :
    (stored : Value) (root : Text)
    → (truthy stored && not (is_str root stored)) ≡ false
    → (truthy stored ≡ false) ⊎ (stored ≡ str root)
root_cases stored root h = elim (Bool-cases (is_str root stored)) [
  | inl same ↦ inr (is_str→eq root stored same)
  | inr other ↦ inl (ground (arith, h, other))
]

compare_root-passed :
    (c : Crypto) (key sig stored : Value) (root : Text) {r : CheckResult}
    → compare_root c key sig stored root ≡ some r
    → check_passed r ≡ true
    → ((truthy stored ≡ false) ⊎ (stored ≡ str root)) × (verify_ed25519_hex c key root sig ≡ true)
compare_root-passed c key sig stored root {r} h ok =
    elim (Bool-cases (truthy stored && not (is_str root stored))) [
      | inl other ↦
          let fails : check_passed r ≡ false =
            fail_showing-fails stored (ground (arith, h, other)) in
          absurd (ground (arith, ok, fails))
      | inr fine ↦ (root_cases stored root fine, ground (arith, h, fine, ok))
    ]

compare_root-passes :
    (c : Crypto) (key sig stored : Value) (root : Text)
    → (truthy stored ≡ false) ⊎ (stored ≡ str root)
    → verify_ed25519_hex c key root sig ≡ true
    → compare_root c key sig stored root ≡ some passed
compare_root-passes c key sig stored root (inl absent) signed = rw absent (rw signed refl)
compare_root-passes c key sig stored root (inr same) signed =
    rw same (rw (is_str_refl root) (rw signed (ground arith)))

pub check_signer-passed :
    (c : Crypto) (exported : Value) (ledger : Items) {r : CheckResult}
    → check_signer c exported ledger ≡ some r
    → check_passed r ≡ true
    → IsRootSigned c exported ledger
unfolding check_signer
check_signer-passed c exported ledger {r} h ok =
    let (key, ek, h1) = >>=-eq-some (get (codes "public_key") (str []) exported) _ h in
    let (sig, es, h2) = >>=-eq-some (get (codes "signature") (str []) exported) _ h1 in
    let (block, eb, h3) = >>=-eq-some (block_of exported) _ h2 in
    let (stored, er, h4) = >>=-eq-some (get (codes "instance_root") (str []) block) _ h3 in
    let (has_key, has_sig, h5) = given_both (truthy key) (truthy sig) h4 ok in
    let (root, ec, h6) =
      >>=-eq-some (compute_instance_root c ledger) (compare_root c key sig stored) h5 in
    let (same, signed) = compare_root-passed c key sig stored root h6 ok in
    record {
      public_key = key;
      read_key = ek;
      has_key = has_key;
      sig_hex = sig;
      read_signature = es;
      has_signature = has_sig;
      block = block;
      read_block = eb;
      stored_root = stored;
      read_root = er;
      root = root;
      computed = ec;
      same_root = same;
      signed = signed;
    }

pub IsRootSigned-passes :
    (c : Crypto) (exported : Value) (ledger : Items)
    → IsRootSigned c exported ledger
    → check_signer c exported ledger ≡ some passed
unfolding check_signer
IsRootSigned-passes c exported ledger h = rw h.read_key (
    rw h.read_signature (
      rw h.read_block (
        rw h.read_root (
          rw h.has_key (
            rw h.has_signature (
              rw h.computed (
                compare_root-passes c h.public_key h.sig_hex h.stored_root h.root h.same_root
                  h.signed)))))))
