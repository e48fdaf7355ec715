-- ===== src/Auth/Granted.antt =====
-- Who gets through.
use provable_ai.Base.{
  Option, none, some, ◌≡◌, ◌≢◌, ◌↔◌, refl, true, false, List, [], ◌∷◌, All, arith, Bool-cases, inl,
  inr, subst, sym, take, ◌∙◌, ap, ◌++◌,
}
use provable_ai.Base.Result.{Result, ok, err, Result-cases}
use provable_ai.Dict.{Dict, lookup, insert}
use provable_ai.Text.{Text, codes, has_text, is_empty, text_eq, text_eq→eq}
use provable_ai.Auth.{
  valid_roles, permissions, AuthContext, LoadError, add_key, add_parts, add_pairs, or_no_keys,
  load_api_keys, context_of, resolve, check_role, require_role, require_any, require_permission,
  split, split_first, strip, lower, take,
}

-- A key that is not empty, with one of the three roles.
abbrev pub IsKey : Text × Text → Type 0
IsKey (key, role) = (is_empty key ≡ false) × (has_text role valid_roles ≡ true)

insert-All : (k v : Text) (d : Dict Text) → IsKey (k, v) → All IsKey d → All IsKey (insert k v d)
unfolding insert
insert-All k v [] h hs = (h, tt)
insert-All k v ((j, w) ∷ d) h (here, later) = elim (Bool-cases (text_eq j k)) [
  | inl same ↦ rw same ((here.0, h.1), later)
  | inr other ↦ rw other (here, insert-All k v d h later)
]

add_key-All :
    (keys : Dict Text) (key role : Text) {more : Dict Text}
    → All IsKey keys
    → add_key keys key role ≡ ok more
    → All IsKey more
add_key-All keys key role {more} h e = elim (Bool-cases (is_empty key)) [
  | inl empty ↦ let same : keys ≡ more = ground (arith, e, empty) in subst (All IsKey) same h
  | inr full ↦ elim (Bool-cases (has_text role valid_roles)) [
    | inr invalid ↦ absurd (ground (arith, e, full, invalid))
    | inl valid ↦
        let same : insert key role keys ≡ more = ground (arith, e, full, valid) in
        subst (All IsKey) same (insert-All key role keys (full, valid) h)
  ]
]

add_parts-All :
    (keys : Dict Text) (parts : Option (Text × Text)) {more : Dict Text}
    → All IsKey keys
    → add_parts keys parts ≡ ok more
    → All IsKey more
add_parts-All keys none {more} h e =
    let same : keys ≡ more = ground (arith, e) in subst (All IsKey) same h
add_parts-All keys (some (key, role)) h e = add_key-All keys (strip key) (lower (strip role)) h e

add_pairs-All :
    (keys : Dict Text) (pairs : List Text) {more : Dict Text}
    → All IsKey keys
    → add_pairs keys pairs ≡ ok more
    → All IsKey more
unfolding add_pairs
add_pairs-All keys [] {more} h e =
    let same : keys ≡ more = ground (arith, e) in subst (All IsKey) same h
add_pairs-All keys (pair ∷ pairs) h e =
    elim (Result-cases (add_parts keys (split_first 58 (strip pair)))) [
      | inr (x, refused) ↦ absurd (ground (arith, e, refused))
      | inl (next, added) ↦
          add_pairs-All next pairs (add_parts-All keys (split_first 58 (strip pair)) h added)
            (ground (arith, e, added))
    ]

or_no_keys-All :
    (r : Result LoadError (Dict Text)) {keys : Dict Text}
    → ((more : Dict Text) → r ≡ ok more → All IsKey more)
    → or_no_keys r ≡ ok keys
    → All IsKey keys × (keys ≢ [])
or_no_keys-All (err x) h e = cc
or_no_keys-All (ok []) h e = cc
or_no_keys-All (ok (k ∷ ks)) {keys} h e =
    let same : k ∷ ks ≡ keys = ground (arith, e) in
    subst (λ d. All IsKey d × (d ≢ [])) same (h (k ∷ ks) refl, λ f. cc)

load_api_keys-All :
    (raw : Option Text) {keys : Dict Text}
    → load_api_keys raw ≡ ok keys
    → All IsKey keys × (keys ≢ [])
unfolding load_api_keys
load_api_keys-All none e =
    or_no_keys-All _ (λ more f. add_pairs-All [] (split 44 (codes "dev-key:admin")) tt f) e
load_api_keys-All (some raw) e = or_no_keys-All _ (λ more f. add_pairs-All [] (split 44 raw) tt f) e

lookup-IsKey :
    (k : Text) (d : Dict Text) {role : Text}
    → All IsKey d
    → lookup k d ≡ some role
    → IsKey (k, role)
unfolding lookup
lookup-IsKey k [] h e = cc
lookup-IsKey k ((j, w) ∷ d) {role} (here, later) e = elim (Bool-cases (text_eq j k)) [
  | inl same ↦
      let found : w ≡ role = ground (arith, e, same) in
      rw (sym found) (rw (sym (text_eq→eq j k same)) here)
  | inr other ↦ lookup-IsKey k d later (ground (arith, e, other))
]

-- A stored key whose role is among those of the action.
abbrev pub IsGranted : Text → Dict Text → Text → Text → Type 0
IsGranted action keys key role =
    (allowed : List Text) × (lookup action permissions ≡ some allowed)
    × (lookup key keys ≡ some role)
    × (has_text role allowed ≡ true)

-- A request with the key gets through, with this role.
abbrev pub GetsThrough : Text → Dict Text → Text → Text → Type 0
GetsThrough action keys key role =
    (ctx : AuthContext) × (require_permission action keys (some key) ≡ ok ctx)
    × (ctx.api_key ≡ key)
    × (ctx.role ≡ role)

context_of-some :
    (k : Text) (o : Option Text) {ctx : AuthContext}
    → context_of k o ≡ some ctx
    → (ctx.api_key ≡ k) × (o ≡ some ctx.role)
context_of-some k none e = cc
context_of-some k (some role) e = ground (arith, e)

resolve-some :
    (keys : Dict Text) (k : Text) {ctx : AuthContext}
    → resolve keys (some k) ≡ some ctx
    → (ctx.api_key ≡ k) × (lookup k keys ≡ some ctx.role)
unfolding resolve
resolve-some keys [] e = cc
resolve-some keys (c ∷ k) e = context_of-some (c ∷ k) (lookup (c ∷ k) keys) e

resolve-stored :
    (keys : Dict Text) (k : Text) {role : Text}
    → is_empty k ≡ false
    → lookup k keys ≡ some role
    → resolve keys (some k) ≡ context_of k (some role)
unfolding resolve
resolve-stored keys [] full found = cc
resolve-stored keys (c ∷ k) full found = ap (context_of (c ∷ k)) found

check_role-ok :
    (allowed : List Text) (o : Option AuthContext) {ctx : AuthContext}
    → check_role allowed o ≡ ok ctx
    → (o ≡ some ctx) × (has_text ctx.role allowed ≡ true)
check_role-ok allowed none e = cc
check_role-ok allowed (some found) {ctx} e = elim (Bool-cases (has_text found.role allowed)) [
  | inr other ↦ absurd (ground (arith, e, other))
  | inl among ↦
      let same : found ≡ ctx = ground (arith, e, among) in
      (ap some same, subst (λ (x : AuthContext). has_text x.role allowed ≡ true) same among)
]

require_any-ok :
    (keys : Dict Text) (k : Text) (o : Option (List Text)) {ctx : AuthContext}
    → require_any keys (some k) o ≡ ok ctx
    → (allowed : List Text) × (o ≡ some allowed) × (require_role allowed keys (some k) ≡ ok ctx)
require_any-ok keys k none e = cc
require_any-ok keys k (some allowed) e = (allowed, refl, e)

granted :
    (action : Text) (keys : Dict Text) (k role : Text)
    → GetsThrough action keys k role
    → IsGranted action keys k role
unfolding require_permission require_role
granted action keys k role (ctx, e, same_key, same_role) =
    let (allowed, named, e1) = require_any-ok keys k (lookup action permissions) e in
    let (resolved, among) = check_role-ok allowed (resolve keys (some k)) e1 in
    let (_, stored) = resolve-some keys k resolved in
    (
      allowed,
      named,
      stored ∙ ap some same_role,
      subst (λ r. has_text r allowed ≡ true) same_role among,
    )

gets_through :
    (action : Text) (keys : Dict Text) (k role : Text)
    → is_empty k ≡ false
    → IsGranted action keys k role
    → GetsThrough action keys k role
unfolding require_permission require_role
gets_through action keys k role full (allowed, named, stored, among) = (
  record { api_key = k; role = role; key_id = take 8 k ++ codes "..." },
  ap (require_any keys (some k)) named
      ∙ ap (check_role allowed) (resolve-stored keys k full stored)
      ∙ rw among refl,
  refl,
  refl,
)

-- Whatever ZORYNEX_API_KEYS holds, if it loads: a request for an action gets through with a key and
-- a role exactly if the action is in the permission matrix, the key is stored under this role and
-- the matrix grants the action to it; and every stored key is not empty and has one of the three
-- roles.
pub load_api_keys-require_permission :
    (raw : Option Text) (keys : Dict Text) (action k role : Text)
    → load_api_keys raw ≡ ok keys
    → (GetsThrough action keys k role ↔ IsGranted action keys k role) × All IsKey keys × (keys ≢ [])
load_api_keys-require_permission raw keys action k role loaded =
    let (all_keys, some_keys) = load_api_keys-All raw loaded in
    (
      (
        granted action keys k role,
        λ (allowed, named, stored, among).
            gets_through action keys k role (lookup-IsKey k keys all_keys stored).0
              (allowed, named, stored, among),
      ),
      all_keys,
      some_keys,
    )
