-- ===== src/Package/Parts.antt =====
-- What each check of verify_package asks.
use provable_ai.Canonical.Hashes.{length-hexdigest}
use provable_ai.Base.{
  some, ◌≡◌, refl, true, false, arith, ◌⊎◌, inl, inr, Bool-cases, ap, [], length, Option, ◌∷◌,
  subst, sym,
}
use provable_ai.Base.Optional.{>>=-eq-some}
use provable_ai.Text.{Text, text_eq→eq, text_eq_refl, codes}
use provable_ai.Json.{Value, Items, str, arr, cons, obj, end, nil, int}
use provable_ai.Json.Lookup.{get}
use provable_ai.Crypto.{Crypto, hexdigest, hash_bytes-some}
use provable_ai.Package.{
  is_str, truthy, CheckResult, passed, skipped, check_passed, fail_showing, compute_package_hash,
  check_package_hash, compare_hash, check_links, Bytes, recompute_entry_hash, is_empty, dumped_hash,
  expected_previous, link_result, genesis_hash, pos, dump_bytes,
}

pub is_str→eq : (t : Text) (v : Value) → is_str t v ≡ true → v ≡ str t
is_str→eq t (str s) h = ap str (text_eq→eq s t h)
is_str→eq t _ h = cc

pub is_str_refl : (t : Text) → is_str t (str t) ≡ true
is_str_refl t = text_eq_refl t

-- A check that fails with a shown value does not pass.
pub fail_showing-fails :
    (v : Value) {r : CheckResult} → fail_showing v ≡ some r → check_passed r ≡ false
fail_showing-fails (str s) h = ground arith
fail_showing-fails (arr xs) h = ground arith
fail_showing-fails _ h = cc

-- Check 2: there is no package hash, or it is that of the ledger.
pub record IsUntampered (c : Crypto) (exported : Value) (ledger : Items) : Type 0 where
  pub stored : Value
  pub read : get (codes "package_hash") (str []) exported ≡ some stored
  pub same :
      (truthy stored ≡ false)
      ⊎ ((t : Text) × (compute_package_hash c ledger ≡ some t) × (stored ≡ str t))

compare_hash-passed :
    (stored : Value) (t : Text) {r : CheckResult}
    → compare_hash stored t ≡ some r
    → check_passed r ≡ true
    → stored ≡ str t
compare_hash-passed stored t {r} h ok = elim (Bool-cases (is_str t stored)) [
  | inl same ↦ is_str→eq t stored same
  | inr other ↦
      let fails : check_passed r ≡ false = fail_showing-fails stored (ground (arith, h, other)) in
      absurd (ground (arith, ok, fails))
]

pub check_package_hash-passed :
    (c : Crypto) (exported : Value) (ledger : Items) {r : CheckResult}
    → check_package_hash c exported ledger ≡ some r
    → check_passed r ≡ true
    → IsUntampered c exported ledger
unfolding check_package_hash
check_package_hash-passed c exported ledger {r} h ok =
    let (stored, read, h1) = >>=-eq-some (get (codes "package_hash") (str []) exported) _ h in
    elim (Bool-cases (truthy stored)) [
      | inr absent ↦ record { stored = stored; read = read; same = inl absent }
      | inl given ↦
          let (t, e, h2) =
            >>=-eq-some (compute_package_hash c ledger) (compare_hash stored)
              (ground (arith, h1, given)) in
          record {
            stored = stored;
            read = read;
            same = inr (t, e, compare_hash-passed stored t h2 ok);
          }
    ]

pub IsUntampered-passes :
    (c : Crypto) (exported : Value) (ledger : Items)
    → IsUntampered c exported ledger
    → (r : CheckResult) × (check_package_hash c exported ledger ≡ some r) × (check_passed r ≡ true)
unfolding check_package_hash
IsUntampered-passes c exported ledger h = elim h.same [
  | inl absent ↦ (skipped, rw h.read (rw absent refl), refl)
  | inr same ↦ elim (Bool-cases (truthy h.stored)) [
    | inr absent ↦ (skipped, rw h.read (rw absent refl), refl)
    | inl given ↦
        (passed, rw h.read (rw given (rw same.1 (rw same.2 (rw (is_str_refl same.0) refl)))), refl)
  ]
]

-- An entry that stands behind the hash `prev`: it stores the hash `h`, which is the recomputed one.
pub record IsEntry (c : Crypto) (prev h : Text) (entry : Value) : Type 0 where
  pub block : Value
  pub read : get (codes "ledger") (obj end) entry ≡ some block
  pub stored : get (codes "current_hash") (str []) block ≡ some (str h)
  pub previous : get (codes "previous_hash") (str genesis_hash) block ≡ some (str prev)
  pub computed : recompute_entry_hash c entry ≡ some h

-- Entries that each stand behind the hash of the one before.
abbrev pub IsLinkedEntries : Crypto → Text → Items → Type 0
IsLinkedEntries c prev nil = Unit
IsLinkedEntries c prev (cons e es) = (h : Text) × IsEntry c prev h e × IsLinkedEntries c h es

dumped_hash-hexdigest :
    (c : Crypto) (v : Value) {h : Text}
    → dumped_hash c v ≡ some h
    → (b : Bytes) × (h ≡ hexdigest c b)
unfolding dumped_hash
dumped_hash-hexdigest c v e = hash_bytes-some c (dump_bytes v) e

pub recomputed-hexdigest :
    (c : Crypto) (entry : Value) {h : Text}
    → recompute_entry_hash c entry ≡ some h
    → (b : Bytes) × (h ≡ hexdigest c b)
unfolding recompute_entry_hash
recomputed-hexdigest c entry e =
    let (_, _, e1) = >>=-eq-some (get (codes "ledger") (obj end) entry) _ e in
    let (_, _, e2) = >>=-eq-some (get (codes "decision") (obj end) entry) _ e1 in
    let (_, _, e3) = >>=-eq-some (get (codes "decision_context") (obj end) entry) _ e2 in
    let (_, _, e4) = >>=-eq-some (get (codes "governance") (obj end) entry) _ e3 in
    let (_, _, e5) = >>=-eq-some (get (codes "determinism") (obj end) entry) _ e4 in
    let (_, _, e6) = >>=-eq-some (get (codes "previous_hash") (str []) _) _ e5 in
    let (_, _, e7) = >>=-eq-some (get (codes "sequence_id") (int (pos 0)) _) _ e6 in
    dumped_hash-hexdigest c _ e7

long_text : (t : Text) → length t ≡ 64 → is_empty t ≡ false
long_text [] e = absurd (omega (arith, e))
long_text (a ∷ t) e = refl

not_empty_digest : (c : Crypto) (b : Bytes) → is_empty (hexdigest c b) ≡ false
not_empty_digest c b = long_text (hexdigest c b) (length-hexdigest c b)

-- The hash that the loop keeps is the one that the next entry must name.
pub expected-recomputed :
    (c : Crypto) (entry : Value) (h : Text)
    → recompute_entry_hash c entry ≡ some h
    → expected_previous (some h) ≡ h
expected-recomputed c entry h e =
    let (b, same) = recomputed-hexdigest c entry e in
    let long : is_empty h ≡ false = rw same (not_empty_digest c b) in rw long refl

link_result-passed :
    (prev : Option Text) (computed : Text) (stored previous : Value) (rest : Option CheckResult)
    {r : CheckResult}
    → link_result prev computed stored previous rest ≡ some r
    → check_passed r ≡ true
    → (stored ≡ str computed) × (previous ≡ str (expected_previous prev)) × (rest ≡ some r)
link_result-passed prev computed stored previous rest {r} h ok =
    elim (Bool-cases (is_str computed stored)) [
      | inr other ↦
          let fails : check_passed r ≡ false =
            fail_showing-fails stored (ground (arith, h, other)) in
          absurd (ground (arith, ok, fails))
      | inl same ↦ elim (Bool-cases (is_str (expected_previous prev) previous)) [
        | inr broken ↦ absurd (ground (arith, h, same, broken, ok))
        | inl linked ↦ (
          is_str→eq computed stored same,
          is_str→eq (expected_previous prev) previous linked,
          ground (arith, h, same, linked),
        )
      ]
    ]

pub check_links-passed :
    (c : Crypto) (prev : Option Text) (es : Items) {r : CheckResult}
    → check_links c prev es ≡ some r
    → check_passed r ≡ true
    → IsLinkedEntries c (expected_previous prev) es
unfolding check_links
check_links-passed c prev nil h ok = tt
check_links-passed c prev (cons e es) {r} h ok =
    let (block, read, h1) = >>=-eq-some (get (codes "ledger") (obj end) e) _ h in
    let (stored, e2, h2) = >>=-eq-some (get (codes "current_hash") (str []) block) _ h1 in
    let (previous, e3, h3) =
      >>=-eq-some (get (codes "previous_hash") (str genesis_hash) block) _ h2 in
    let (computed, e4, h4) = >>=-eq-some (recompute_entry_hash c e) _ h3 in
    let (same, linked, later) =
      link_result-passed prev computed stored previous (check_links c (some computed) es) h4 ok in
    (
      computed,
      record {
        block = block;
        read = read;
        stored = rw (sym same) e2;
        previous = rw (sym linked) e3;
        computed = e4;
      },
      subst (λ t. IsLinkedEntries c t es) (expected-recomputed c e computed e4)
          (check_links-passed c (some computed) es later ok),
    )

pub IsLinkedEntries-passes :
    (c : Crypto) (prev : Option Text) (es : Items)
    → IsLinkedEntries c (expected_previous prev) es
    → check_links c prev es ≡ some passed
unfolding check_links
IsLinkedEntries-passes c prev nil h = refl
IsLinkedEntries-passes c prev (cons e es) (t, h, hs) =
    let later : check_links c (some t) es ≡ some passed =
      IsLinkedEntries-passes c (some t) es
        (subst (λ u. IsLinkedEntries c u es) (sym (expected-recomputed c e t h.computed)) hs) in
    rw h.read (
      rw h.stored (
        rw h.previous (
          rw h.computed
            (rw later (rw (is_str_refl t) (rw (is_str_refl (expected_previous prev)) refl))))))
