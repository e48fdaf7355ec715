-- ===== src/Package/Offline/Stricter.antt =====
-- verify_package.py and offline_verify.py compared.
use provable_ai.Base.{
  Option, none, some, ◌≡◌, refl, true, arith, ◌⊎◌, inl, inr, Option-cases, Bool-cases, ◌∙◌, sym,
  List, [], subst,
}
use provable_ai.Base.Optional.{>>=-eq-some}
use provable_ai.Text.{Text, Bytes, codes}
use provable_ai.Json.{Value, Items, str, obj, arr, end, cons, nil, null}
use provable_ai.Json.Lookup.{get, lookup_field, or_default}
use provable_ai.Canonical.{genesis_hash}
use provable_ai.Crypto.{Crypto, hexdigest}
use provable_ai.Package.{
  truthy, CheckResult, final_state_of, last_item, verify_package, all_passed, package_type,
  compute_package_hash, block_of,
}
use provable_ai.Package.Parts.{
  IsEntry, IsLinkedEntries, IsUntampered, is_str_refl, recomputed-hexdigest,
}
use provable_ai.Package.RootSigned.{IsRootSigned}
use provable_ai.Package.Sound.{verify_package-IsAccepted}
use provable_ai.Package.Offline.{
  links_ok, follows, package_hash_ok, after_root, verify_ledger, verify_exported,
}

-- An input whose digest is the genesis hash.
abbrev pub ZeroDigest : Crypto → Type 0
ZeroDigest c = (b : Bytes) × (hexdigest c b ≡ genesis_hash)

-- A value read with one default, read with another.
get_default :
    (k t : Text) (d v : Value) {w : Value}
    → get k (str t) v ≡ some w
    → (get k d v ≡ some w) ⊎ (w ≡ str t)
unfolding get
get_default k t d (obj fs) h = elim (Option-cases (lookup_field k fs)) [
  | inl missing ↦ inr (ground (arith, h, missing))
  | inr (w, found) ↦ inl (ground (arith, h, found))
]
get_default k t d _ h = cc

get-some :
    (k : Text) (d e v : Value) {w : Value} → get k d v ≡ some w → (u : Value) × (get k e v ≡ some u)
unfolding get
get-some k d e (obj fs) h = (or_default e (lookup_field k fs), refl)
get-some k d e _ h = cc

-- The hash that an entry must name, and what is known of it.
abbrev Expects : Crypto → Option Text → Text → Type 0
Expects c none prev = Unit
Expects c (some t) prev = (t ≡ prev) × ((b : Bytes) × (prev ≡ hexdigest c b))

str_eq : {s t : Text} → str s ≡ str t → s ≡ t
str_eq e = ground (arith, e)

entry-follows :
    (c : Crypto) (prev_hash : Option Text) (prev h : Text) (entry : Value)
    (e : IsEntry c prev h entry)
    → Expects c prev_hash prev
    → ((v : Value) × (get (codes "previous_hash") (str []) e.block ≡ some v)
        × (follows prev_hash v ≡ true))
      ⊎ ZeroDigest c
entry-follows c none prev h entry e k =
    let (v, read) =
      get-some (codes "previous_hash") (str genesis_hash) (str []) e.block e.previous in
    inl (v, read, refl)
entry-follows c (some t) prev h entry e (same, (b, digest)) =
    elim (get_default (codes "previous_hash") genesis_hash (str []) e.block e.previous) [
      | inl read ↦ inl (str prev, read, rw same (is_str_refl prev))
      | inr genesis ↦ inr (b, sym digest ∙ str_eq genesis)
    ]

pub linked-links_ok :
    (c : Crypto) (prev_hash : Option Text) (prev : Text) (es : Items)
    → IsLinkedEntries c prev es
    → Expects c prev_hash prev
    → (links_ok c prev_hash es ≡ some true) ⊎ ZeroDigest c
unfolding links_ok
linked-links_ok c prev_hash prev nil h k = inl refl
linked-links_ok c prev_hash prev (cons entry es) (t, e, h) k =
    elim (entry-follows c prev_hash prev t entry e k) [
      | inr zero ↦ inr zero
      | inl (v, read, fits) ↦
          elim (linked-links_ok c (some t) t es h (refl, recomputed-hexdigest c entry e.computed)) [
            | inr zero ↦ inr zero
            | inl later ↦ inl (
                rw e.read
                  (rw e.stored (rw e.computed (rw read (rw (is_str_refl t) (rw fits later))))))
          ]
    ]

untampered-ok :
    (c : Crypto) (exported : Value) (first : Value) (rest : Items)
    (h : IsUntampered c exported (cons first rest))
    → package_hash_ok c h.stored (arr (cons first rest)) ≡ some true
unfolding package_hash_ok compute_package_hash
untampered-ok c exported first rest h = elim h.same [
  | inl absent ↦ rw absent refl
  | inr (t, hashed, same) ↦ elim (Bool-cases (truthy h.stored)) [
    | inr absent ↦ rw absent refl
    | inl given ↦ rw given (rw hashed (rw same (rw (is_str_refl t) refl)))
  ]
]

pub state-some :
    (d e : Value) (ledger : Items) {state : Value}
    → final_state_of d ledger ≡ some state
    → (s : Value) × (final_state_of e ledger ≡ some s)
unfolding final_state_of
state-some d e nil h = cc
state-some d e (cons v vs) h =
    let (decision, read, h1) =
      >>=-eq-some (get (codes "decision") (obj end) (last_item v vs)) _ h in
    let (s, found) = get-some (codes "to_state") d e decision h1 in (s, ground (arith, read, found))

root_signed-accepts :
    (c : Crypto) (exported : Value) (ledger : Items) (state : Value)
    (h : IsRootSigned c exported ledger)
    → final_state_of null ledger ≡ some state
    → after_root c h.stored_root h.sig_hex h.public_key ledger h.root ≡ some (true, state)
root_signed-accepts c exported ledger state h final = elim h.same_root [
  | inl absent ↦ rw absent (rw h.has_signature (rw h.has_key (rw h.signed (rw final refl))))
  | inr same ↦ rw same (
      rw (is_str_refl h.root)
        (rw h.has_signature (rw h.has_key (rw h.signed (rw final (ground arith))))))
]

ledger-accepts :
    (c : Crypto) (exported first : Value) (rest : Items) (state : Value)
    (u : IsUntampered c exported (cons first rest)) (s : IsRootSigned c exported (cons first rest))
    → final_state_of null (cons first rest) ≡ some state
    → links_ok c none (cons first rest) ≡ some true
    → verify_ledger c s.stored_root u.stored s.sig_hex s.public_key (arr (cons first rest))
      ≡ some (true, state)
unfolding verify_ledger
ledger-accepts c exported first rest state u s final links =
    rw (untampered-ok c exported first rest u)
      (rw links (rw s.computed (root_signed-accepts c exported (cons first rest) state s final)))

opened-accepts :
    (c : Crypto) (exported first : Value) (rest : Items) (block state : Value)
    (u : IsUntampered c exported (cons first rest)) (s : IsRootSigned c exported (cons first rest))
    → get (codes "type") null exported ≡ some (str package_type)
    → block_of exported ≡ some block
    → get (codes "ledger") (arr nil) block ≡ some (arr (cons first rest))
    → final_state_of null (cons first rest) ≡ some state
    → links_ok c none (cons first rest) ≡ some true
    → verify_exported c exported ≡ some (true, state)
unfolding verify_exported
opened-accepts c exported first rest block state u s kind at_block at_ledger final links =
    let same_block : s.block ≡ block = ground (arith, s.read_block, at_block) in
    let root : get (codes "instance_root") (str []) block ≡ some s.stored_root =
      rw (sym same_block) s.read_root in
    rw kind (
      rw (is_str_refl package_type) (
        rw at_block (
          rw at_ledger (
            rw root (
              rw u.read (
                rw s.read_signature
                  (rw s.read_key (ledger-accepts c exported first rest state u s final links))))))))

-- A package that passes `verify_package` is accepted by the offline verifier, with a final state,
-- unless there is an input whose SHA-256 digest is the genesis hash.
pub verify_package-verify_exported :
    (c : Crypto) (exported : Value) (checks : List CheckResult)
    → verify_package c exported ≡ some checks
    → all_passed checks ≡ true
    → ((state : Value) × (verify_exported c exported ≡ some (true, state))) ⊎ ZeroDigest c
verify_package-verify_exported c exported checks returned ok =
    let h = (verify_package-IsAccepted c exported).0 (checks, returned, ok) in
    let o = h.opened in
    let linked = subst (IsLinkedEntries c genesis_hash) o.more h.linked in
    let u = subst (IsUntampered c exported) o.more h.untampered in
    let s = subst (IsRootSigned c exported) o.more h.root_signed in
    let (state, final) =
      state-some (str (codes "unknown")) null (cons o.first o.rest) (
        subst (λ l. final_state_of (str (codes "unknown")) l ≡ some h.state) o.more
          h.final_state) in
    elim (linked-links_ok c none genesis_hash (cons o.first o.rest) linked tt) [
      | inr zero ↦ inr zero
      | inl links ↦ inl (
        state,
        opened-accepts c exported o.first o.rest o.block state u s o.kind o.read_block o.read_ledger
            final links,
      )
    ]
