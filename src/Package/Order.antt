-- ===== src/Package/Order.antt =====
-- verify_package on a package whose dicts were written in another order.
use provable_ai.Package.Same.{
  bind_next, bind_same, is_str_same, truthy_same, recompute_entry_hash-SameValue, block_same,
  fail_showing_same, package_hash_same, final_state_same, hex_of_same, root_same, items_refl,
}
use provable_ai.Base.{Option, none, some, ◌≡◌, refl, ap, if◌then◌else◌, ◌&&◌, Bool, true, false}
use provable_ai.Base.Optional.{◌>>=◌}
use provable_ai.Text.{Text}
use provable_ai.Json.{Value, Items, obj, arr, cons, bool, int, str, foreign, null, nil}
use provable_ai.Json.Lookup.{SameFound, both_none, both_some, get-SameValue}
use provable_ai.Json.Sorted.{SameValue, SameItems, same, same_arr, same_obj, same_nil, same_cons}
use provable_ai.Crypto.{Crypto}
use provable_ai.Package.{
  is_str, truthy, CheckResult, recompute_entry_hash, compute_instance_root, compute_package_hash,
  verify_ed25519_hex, check_package_hash, compare_hash, check_links, link_result, check_chain,
  after_links, check_signer, compare_root, passed, failed, skipped, expected_previous,
  non_empty_list, check_structure, verify_opened, verify_package, package_type,
}

compare_hash_same : {v w : Value} → SameValue v w → (t : Text) → compare_hash v t ≡ compare_hash w t
compare_hash_same s t = rw (is_str_same t s) (rw (fail_showing_same s) refl)

check_package_hash_same :
    (c : Crypto) {v w : Value} {xs ys : Items}
    → SameValue v w
    → SameItems xs ys
    → check_package_hash c v xs ≡ check_package_hash c w ys
unfolding check_package_hash
check_package_hash_same c {xs = xs} {ys = ys} s items =
    bind_same (get-SameValue _ _ s) (λ a b stored. rw (truthy_same stored) (
      rw (package_hash_same c items) (
        ap (λ (o : Option CheckResult). if truthy b then o else some skipped)
          (bind_next (compute_package_hash c ys) (compare_hash_same stored)))))

link_result_same :
    (prev : Option Text) (computed : Text) {a b d e : Value} {o p : Option CheckResult}
    → SameValue a b
    → SameValue d e
    → o ≡ p
    → link_result prev computed a d o ≡ link_result prev computed b e p
link_result_same prev computed stored previous more = rw (is_str_same computed stored) (
    rw (fail_showing_same stored)
      (rw (is_str_same (expected_previous prev) previous) (rw more refl)))

check_links_same :
    (c : Crypto) (prev : Option Text) {xs ys : Items}
    → SameItems xs ys
    → check_links c prev xs ≡ check_links c prev ys
unfolding check_links
check_links_same c prev same_nil = refl
check_links_same c prev (same_cons {v = v} {w = w} {xs = xs} {ys = ys} s more) =
    bind_same (get-SameValue _ _ s) (λ _ _ block. bind_same (get-SameValue _ _ block) (λ a b stored.
      bind_same (get-SameValue _ _ block) (λ d e previous. rw (recompute_entry_hash-SameValue c s) (
        bind_next (recompute_entry_hash c w) (λ computed.
          link_result_same prev computed stored previous
            (check_links_same c (some computed) more))))))

after_links_same :
    {xs ys : Items} (r : CheckResult) → SameItems xs ys → after_links xs r ≡ after_links ys r
after_links_same failed s = refl
after_links_same passed s = bind_same (final_state_same _ s) (λ _ _ _. refl)
after_links_same skipped s = bind_same (final_state_same _ s) (λ _ _ _. refl)

check_chain_same :
    (c : Crypto) {xs ys : Items} → SameItems xs ys → check_chain c xs ≡ check_chain c ys
unfolding check_chain
check_chain_same c {xs} {ys} s =
    rw (check_links_same c none s) (bind_next (check_links c none ys) (λ r. after_links_same r s))

compare_root_same :
    (c : Crypto) {a b d e f g : Value}
    → SameValue a b
    → SameValue d e
    → SameValue f g
    → (root : Text) → compare_root c a d f root ≡ compare_root c b e g root
unfolding verify_ed25519_hex
compare_root_same c key sig stored root = rw (truthy_same stored) (
    rw (is_str_same root stored)
      (rw (fail_showing_same stored) (rw (hex_of_same key) (rw (hex_of_same sig) refl))))

check_signer_same :
    (c : Crypto) {v w : Value} {xs ys : Items}
    → SameValue v w
    → SameItems xs ys
    → check_signer c v xs ≡ check_signer c w ys
unfolding check_signer
check_signer_same c {xs = xs} {ys = ys} s items = bind_same (get-SameValue _ _ s) (λ a b key.
    bind_same (get-SameValue _ _ s) (λ d e sig. bind_same (block_same s) (λ _ _ block.
      bind_same (get-SameValue _ _ block) (λ f g stored. rw (truthy_same key) (
        rw (truthy_same sig) (
          rw (root_same c items) (
            ap (λ (o : Option CheckResult). if truthy b && truthy e then o else some failed)
              (bind_next (compute_instance_root c ys) (compare_root_same c key sig stored)))))))))

data SameOpened : Option (Option Items) → Option (Option Items) → Type 0 where
  both_raise : SameOpened none none
  both_refuse : SameOpened (some none) (some none)
  both_open : {xs ys : Items} → SameItems xs ys → SameOpened (some (some xs)) (some (some ys))

non_empty_list_same :
    {v w : Value} → SameValue v w → SameOpened (some (non_empty_list v)) (some (non_empty_list w))
non_empty_list_same (same (arr (cons v xs))) = both_open (items_refl (cons v xs))
non_empty_list_same (same (arr nil)) = both_refuse
non_empty_list_same (same null) = both_refuse
non_empty_list_same (same (bool b)) = both_refuse
non_empty_list_same (same (int n)) = both_refuse
non_empty_list_same (same (str s)) = both_refuse
non_empty_list_same (same (obj fs)) = both_refuse
non_empty_list_same (same (foreign kind t)) = both_refuse
non_empty_list_same (same_arr same_nil) = both_refuse
non_empty_list_same (same_arr (same_cons s more)) = both_open (same_cons s more)
non_empty_list_same (same_obj fs) = both_refuse

bind_SameOpened :
    {a b : Option Value} {f g : Value → Option (Option Items)}
    → SameFound a b
    → ((v w : Value) → SameValue v w → SameOpened (f v) (g w))
    → SameOpened (a >>= f) (b >>= g)
bind_SameOpened both_none next = both_raise
bind_SameOpened (both_some s) next = next _ _ s

SameOpened-if :
    (b : Bool) {o p : Option (Option Items)}
    → SameOpened o p
    → SameOpened (if b then o else some none) (if b then p else some none)
SameOpened-if true s = s
SameOpened-if false s = both_refuse

check_structure_same :
    {v w : Value} → SameValue v w → SameOpened (check_structure v) (check_structure w)
unfolding check_structure
check_structure_same s = bind_SameOpened (get-SameValue _ _ s) (λ a b kind.
    rw (is_str_same package_type kind) (
      SameOpened-if (is_str package_type b) (
        bind_SameOpened (block_same s) (λ _ _ block.
          bind_SameOpened (get-SameValue _ _ block) (λ _ _ ledger. non_empty_list_same ledger)))))

verify_opened_same :
    (c : Crypto) {v w : Value} {a b : Option (Option Items)}
    → SameValue v w
    → SameOpened a b
    → (a >>= verify_opened c v) ≡ (b >>= verify_opened c w)
verify_opened_same c s both_raise = refl
verify_opened_same c s both_refuse = refl
verify_opened_same c s (both_open items) =
    rw (check_package_hash_same c s items)
      (rw (check_chain_same c items) (rw (check_signer_same c s items) refl))

-- `verify_package` does the same on a package and on one that differs from it only in the order of
-- the entries of its dicts, at any depth: it raises on both, or its checks have the same results.
pub verify_package-SameValue :
    (c : Crypto) {v w : Value} → SameValue v w → verify_package c v ≡ verify_package c w
unfolding verify_package
verify_package-SameValue c s = verify_opened_same c s (check_structure_same s)
