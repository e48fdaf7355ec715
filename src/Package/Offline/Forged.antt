-- ===== src/Package/Offline/Forged.antt =====
-- Packages without a signature.
use provable_ai.Base.{
  none, some, ◌≡◌, refl, true, arith, ◌⊎◌, inl, inr, [], ◌++◌, List, sym, subst, ◌∙◌, ◌∷◌, All,
  false,
}
use provable_ai.Text.{Text, codes, text_eq}
use provable_ai.Json.{Value, Items, str, obj, arr, end, cons, nil, null, field, text_key}
use provable_ai.Json.Lookup.{get, lookup_field}
use provable_ai.Canonical.{genesis_hash}
use provable_ai.Canonical.Hashes.{hexdigest-digits}
use provable_ai.Text.Hex.{IsHexDigit}
use provable_ai.Json.Utf8.{has_surrogate}
use provable_ai.Json.Surrogates.{has_surrogate-append}
use provable_ai.Crypto.{Crypto, hexdigest}
use provable_ai.Package.{
  package_type, final_state_of, last_item, verify_package, all_passed, CheckResult,
  compute_instance_root, join_hashes, recompute_entry_hash,
}
use provable_ai.Package.Parts.{IsLinkedEntries, recomputed-hexdigest}
use provable_ai.Package.Sound.{IsAccepted, verify_package-IsAccepted}
use provable_ai.Package.Offline.{links_ok, verify_ledger, verify_exported, package_hash_ok}
use provable_ai.Package.Offline.Stricter.{ZeroDigest, linked-links_ok, state-some}

-- A package with nothing but its type and a ledger.
abbrev pub bare_package : Items → Value
bare_package ledger = obj (
    field (text_key (codes "type")) (str package_type) (
      field (text_key (codes "proof")) (obj (field (text_key (codes "ledger")) (arr ledger) end))
        end))

abbrev pub append_items : Items → Items → Items
append_items nil ys = ys
append_items (cons v xs) ys = cons v (append_items xs ys)

linked-suffix :
    (c : Crypto) (prev : Text) (front es : Items)
    → IsLinkedEntries c prev (append_items front es)
    → (behind : Text) × IsLinkedEntries c behind es
linked-suffix c prev nil es h = (prev, h)
linked-suffix c prev (cons v front) es (t, _, h) = linked-suffix c t front es h

last_item-append :
    (v e : Value) (front rest : Items)
    → last_item v (append_items front (cons e rest)) ≡ last_item e rest
last_item-append v e nil rest = refl
last_item-append v e (cons w front) rest = last_item-append w e front rest

final_state-suffix :
    (d e : Value) (front rest : Items)
    → final_state_of d (append_items front (cons e rest)) ≡ final_state_of d (cons e rest)
unfolding final_state_of
final_state-suffix d e nil rest = refl
final_state-suffix d e (cons v front) rest = rw (last_item-append v e front rest) refl

digits-clean : (s : Text) → All IsHexDigit s → has_surrogate s ≡ false
unfolding has_surrogate
digits-clean [] h = refl
digits-clean (a ∷ s) h = ground (arith, h.0, digits-clean s h.1)

linked-clean :
    (c : Crypto) (entry : Value) {h : Text}
    → recompute_entry_hash c entry ≡ some h
    → has_surrogate h ≡ false
linked-clean c entry e =
    let (b, same) = recomputed-hexdigest c entry e in
    rw same (digits-clean (hexdigest c b) (hexdigest-digits c b))

-- The hashes of linked entries can be joined and encoded.
pub join_hashes-linked :
    (c : Crypto) (prev : Text) (es : Items)
    → IsLinkedEntries c prev es
    → (t : Text) × (join_hashes es ≡ some t) × (has_surrogate t ≡ false)
unfolding join_hashes has_surrogate
join_hashes-linked c prev nil h = ([], refl, refl)
join_hashes-linked c prev (cons e es) (t, h, hs) =
    let (rest, joined, clean) = join_hashes-linked c t es hs in
    (
      t ++ rest,
      rw h.read (rw h.stored (rw joined refl)),
      has_surrogate-append t rest ∙ rw (linked-clean c e h.computed, clean) refl,
    )

bare-accepted :
    (c : Crypto) (e : Value) (rest : Items) (state : Value)
    → links_ok c none (cons e rest) ≡ some true
    → ((t : Text) × (join_hashes (cons e rest) ≡ some t) × (has_surrogate t ≡ false))
    → final_state_of null (cons e rest) ≡ some state
    → verify_exported c (bare_package (cons e rest)) ≡ some (true, state)
unfolding verify_exported verify_ledger package_hash_ok get lookup_field text_eq
    compute_instance_root
bare-accepted c e rest state links (t, joined, clean) final =
    rw links (rw joined (rw clean (rw final refl)))

no_key : (c : Crypto) (ledger : Items) → ¬ IsAccepted c (bare_package ledger)
unfolding get lookup_field text_eq
no_key c ledger h = absurd (ground (arith, h.root_signed.read_key, h.root_signed.has_key))

suffix-accepted :
    (c : Crypto) (behind : Text) (front es : Items) {state : Value}
    → IsLinkedEntries c behind es
    → final_state_of (str (codes "unknown")) (append_items front es) ≡ some state
    → ((s : Value) × (verify_exported c (bare_package es) ≡ some (true, s))) ⊎ ZeroDigest c
unfolding verify_exported get lookup_field text_eq
suffix-accepted c behind front nil linked final = inl (null, refl)
suffix-accepted c behind front (cons e rest) {state} linked final =
    let (s, found) =
      state-some (str (codes "unknown")) null (cons e rest)
        (sym (final_state-suffix (str (codes "unknown")) e front rest) ∙ final) in
    elim (linked-links_ok c none behind (cons e rest) linked tt) [
      | inr zero ↦ inr zero
      | inl links ↦ inl (
        s,
        bare-accepted c e rest s links (join_hashes-linked c behind (cons e rest) linked) found,
      )
    ]

-- Whoever drops entries from the front of the ledger of a package that `verify_package` passes, and
-- removes the signature, the key, the root and the package hash, has a package that the offline
-- verifier accepts, unless an input has the genesis hash as its digest, and that `verify_package`
-- does not pass.
pub verify_exported-unsigned :
    (c : Crypto) (exported : Value) (front es : Items) (h : IsAccepted c exported)
    → h.ledger ≡ append_items front es
    → (¬ (
        (checks : List CheckResult) × (verify_package c (bare_package es) ≡ some checks)
        × (all_passed checks ≡ true)))
      × (((state : Value) × (verify_exported c (bare_package es) ≡ some (true, state)))
          ⊎ ZeroDigest c)
verify_exported-unsigned c exported front es h parts =
    let (behind, linked) =
      linked-suffix c genesis_hash front es
        (subst (IsLinkedEntries c genesis_hash) parts h.linked) in
    (
      λ accepted. no_key c es ((verify_package-IsAccepted c (bare_package es)).0 accepted),
      suffix-accepted c behind front es linked (
          subst (λ l. final_state_of (str (codes "unknown")) l ≡ some h.state) parts h.final_state),
    )
