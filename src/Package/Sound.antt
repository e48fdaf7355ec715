-- ===== src/Package/Sound.antt =====
-- When verify_package passes.
use provable_ai.Package.RootSigned.{IsRootSigned-passes, IsRootSigned, check_signer-passed}
use provable_ai.Base.{
  Option, none, some, ◌≡◌, ◌↔◌, refl, true, false, arith, inl, inr, Bool-cases, ap, ◌∙◌, List, [],
  ◌∷◌, Bool, if◌then◌else◌,
}
use provable_ai.Base.Optional.{>>=-eq-some}
use provable_ai.Text.{codes}
use provable_ai.Json.{Value, Items, str, null, arr, cons, nil}
use provable_ai.Json.Lookup.{get}
use provable_ai.Canonical.{genesis_hash}
use provable_ai.Crypto.{Crypto}
use provable_ai.Package.{
  is_str, CheckResult, passed, failed, check_passed, check_structure, package_type, non_empty_list,
  verify_opened, verify_package, all_passed, check_package_hash, check_links, check_chain,
  after_links, final_state_of, check_signer, block_of,
}
use provable_ai.Package.Parts.{
  IsUntampered, IsLinkedEntries, is_str→eq, is_str_refl, check_package_hash-passed,
  IsUntampered-passes, check_links-passed, IsLinkedEntries-passes,
}

-- Check 1.
pub record IsPackage (exported : Value) (ledger : Items) : Type 0 where
  pub kind : get (codes "type") null exported ≡ some (str package_type)
  pub block : Value
  pub read_block : block_of exported ≡ some block
  pub first : Value
  pub rest : Items
  pub more : ledger ≡ cons first rest
  pub read_ledger : get (codes "ledger") (arr nil) block ≡ some (arr (cons first rest))

-- What a package must be to pass all checks.
pub record IsAccepted (c : Crypto) (exported : Value) : Type 0 where
  pub ledger : Items
  pub opened : IsPackage exported ledger
  pub untampered : IsUntampered c exported ledger
  pub linked : IsLinkedEntries c genesis_hash ledger
  pub state : Value
  pub final_state : final_state_of (str (codes "unknown")) ledger ≡ some state
  pub root_signed : IsRootSigned c exported ledger

non_empty_list-some :
    (v : Value) {ledger : Items}
    → non_empty_list v ≡ some ledger
    → (e : Value) × (es : Items) × (ledger ≡ cons e es) × (v ≡ arr (cons e es))
non_empty_list-some (arr (cons e es)) h = (e, es, ground arith, refl)
non_empty_list-some _ h = cc

opened_if :
    (b : Bool) {o : Option (Option Items)} {ledger : Items}
    → b ≡ true
    → (if b then o else some none) ≡ some (some ledger)
    → o ≡ some (some ledger)
opened_if true e h = h
opened_if false e h = cc

check_structure-some :
    (exported : Value) {ledger : Items}
    → check_structure exported ≡ some (some ledger)
    → IsPackage exported ledger
unfolding check_structure
check_structure-some exported {ledger} h =
    let (kind, ek, h1) = >>=-eq-some (get (codes "type") null exported) _ h in
    elim (Bool-cases (is_str package_type kind)) [
      | inr other ↦ absurd (ground (arith, h1, other))
      | inl same ↦
          let (block, eb, h2) =
            >>=-eq-some (block_of exported) _ (opened_if (is_str package_type kind) same h1) in
          let (v, ev, h3) = >>=-eq-some (get (codes "ledger") (arr nil) block) _ h2 in
          let (e, es, more, list) = non_empty_list-some v (ground (arith, h3)) in
          record {
            kind = ek ∙ ap some (is_str→eq package_type kind same);
            block = block;
            read_block = eb;
            first = e;
            rest = es;
            more = more;
            read_ledger = ev ∙ ap some list;
          }
    ]

IsPackage-opens :
    (exported : Value) (ledger : Items)
    → IsPackage exported ledger
    → check_structure exported ≡ some (some ledger)
unfolding check_structure
IsPackage-opens exported ledger h =
    rw h.kind (rw (is_str_refl package_type) (rw h.read_block (rw h.read_ledger (rw h.more refl))))

after_links-passed :
    (ledger : Items) (q : CheckResult) {r : CheckResult}
    → after_links ledger q ≡ some r
    → check_passed r ≡ true
    → (check_passed q ≡ true)
      × ((state : Value) × (final_state_of (str (codes "unknown")) ledger ≡ some state))
after_links-passed ledger failed h ok = absurd (ground (arith, h, ok))
after_links-passed ledger r h ok =
    let (state, e, _) = >>=-eq-some (final_state_of (str (codes "unknown")) ledger) _ h in
    (refl, (state, e))

check_chain-passed :
    (c : Crypto) (ledger : Items) {r : CheckResult}
    → check_chain c ledger ≡ some r
    → check_passed r ≡ true
    → IsLinkedEntries c genesis_hash ledger
      × ((state : Value) × (final_state_of (str (codes "unknown")) ledger ≡ some state))
unfolding check_chain
check_chain-passed c ledger {r} h ok =
    let (q, links, h1) = >>=-eq-some (check_links c none ledger) (after_links ledger) h in
    let (fine, state) = after_links-passed ledger q h1 ok in
    (check_links-passed c none ledger links fine, state)

four_passed :
    (a b d : CheckResult)
    → all_passed (passed ∷ a ∷ b ∷ d ∷ []) ≡ true
    → (check_passed a ≡ true) × (check_passed b ≡ true) × (check_passed d ≡ true)
unfolding all_passed
four_passed a b d h = (ground (arith, h), ground (arith, h), ground (arith, h))

opened-IsAccepted :
    (c : Crypto) (exported : Value) (ledger : Items) {checks : List CheckResult}
    → check_structure exported ≡ some (some ledger)
    → verify_opened c exported (some ledger) ≡ some checks
    → all_passed checks ≡ true
    → IsAccepted c exported
opened-IsAccepted c exported ledger {checks} opened h ok =
    let (c2, e2, h2) = >>=-eq-some (check_package_hash c exported ledger) _ h in
    let (c3, e3, h3) = >>=-eq-some (check_chain c ledger) _ h2 in
    let (c4, e4, h4) = >>=-eq-some (check_signer c exported ledger) _ h3 in
    let same : passed ∷ c2 ∷ c3 ∷ c4 ∷ [] ≡ checks = ground (arith, h4) in
    let (p2, p3, p4) = four_passed c2 c3 c4 (rw same ok) in
    let (linked, (state, final)) = check_chain-passed c ledger e3 p3 in
    record {
      ledger = ledger;
      opened = check_structure-some exported opened;
      untampered = check_package_hash-passed c exported ledger e2 p2;
      linked = linked;
      state = state;
      final_state = final;
      root_signed = check_signer-passed c exported ledger e4 p4;
    }

opened-cases :
    (c : Crypto) (exported : Value) (opened : Option Items) {checks : List CheckResult}
    → check_structure exported ≡ some opened
    → verify_opened c exported opened ≡ some checks
    → all_passed checks ≡ true
    → IsAccepted c exported
unfolding all_passed
opened-cases c exported none opened h ok = absurd (ground (arith, h, ok))
opened-cases c exported (some ledger) opened h ok = opened-IsAccepted c exported ledger opened h ok

verify_package-passed :
    (c : Crypto) (exported : Value) {checks : List CheckResult}
    → verify_package c exported ≡ some checks
    → all_passed checks ≡ true
    → IsAccepted c exported
unfolding verify_package
verify_package-passed c exported h ok =
    let (opened, e, h1) = >>=-eq-some (check_structure exported) (verify_opened c exported) h in
    opened-cases c exported opened e h1 ok

pub IsAccepted-passes :
    (c : Crypto) (exported : Value)
    → IsAccepted c exported
    → (checks : List CheckResult) × (verify_package c exported ≡ some checks)
      × (all_passed checks ≡ true)
unfolding verify_package check_chain all_passed
IsAccepted-passes c exported h =
    let (r, untampered, fine) = IsUntampered-passes c exported h.ledger h.untampered in
    (
      passed ∷ r ∷ passed ∷ passed ∷ [],
      rw (IsPackage-opens exported h.ledger h.opened) (
          rw untampered (
            rw (IsLinkedEntries-passes c none h.ledger h.linked) (
              rw h.final_state (rw (IsRootSigned-passes c exported h.ledger h.root_signed) refl)))),
      rw fine refl,
    )

pub verify_package-IsAccepted :
    (c : Crypto) (exported : Value)
    → ((checks : List CheckResult) × (verify_package c exported ≡ some checks)
        × (all_passed checks ≡ true))
      ↔ IsAccepted c exported
verify_package-IsAccepted c exported =
    (λ (checks, h, ok). verify_package-passed c exported h ok, IsAccepted-passes c exported)
