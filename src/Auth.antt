-- ===== src/Auth.antt =====
-- server/auth.py: API keys, roles and permissions.
pub mod Granted
mod Tests
use provable_ai.Base.{
  ℕ, Option, none, some, Bool, true, false, not, ◌&&◌, ◌==◌, List, [], ◌∷◌, ◌++◌, take,
  if◌then◌else◌,
}
use provable_ai.Base.Result.{Result, ok, err}
use provable_ai.Dict.{Dict, lookup, insert}
use provable_ai.Text.{Text, codes, has_text, is_empty, lower}
use provable_ai.Text.Sorted.{sort_texts}
use provable_ai.Text.Hex.{strip_left, strip_right}

abbrev pub role_admin : Text
role_admin = codes "admin"

abbrev pub role_auditor : Text
role_auditor = codes "auditor"

abbrev pub role_system : Text
role_system = codes "system"

abbrev pub valid_roles : List Text
valid_roles = role_admin ∷ role_auditor ∷ role_system ∷ []

-- PERMISSIONS
abbrev pub permissions : Dict (List Text)
permissions =
    (codes "record_decision", role_admin ∷ role_system ∷ [])
    ∷ (codes "read_proof", role_admin ∷ role_auditor ∷ role_system ∷ [])
    ∷ (codes "verify_proof", role_admin ∷ role_auditor ∷ role_system ∷ [])
    ∷ (codes "manage_keys", role_admin ∷ [])
    ∷ (codes "view_metrics", role_admin ∷ [])
    ∷ (codes "system_root", role_admin ∷ role_auditor ∷ [])
    ∷ (codes "webhook_send", role_admin ∷ role_system ∷ [])
    ∷ []

pub record AuthContext : Type 0 where
  pub api_key : Text
  pub role : Text
  pub key_id : Text

pub data LoadError : Type 0 where
  invalid_role : Text → LoadError
  no_keys : LoadError

-- s.strip()
abbrev pub strip : Text → Text
strip s = strip_right (strip_left s)

abbrev pub add_char : ℕ → List Text → List Text
add_char c [] = (c ∷ []) ∷ []
add_char c (t ∷ ts) = (c ∷ t) ∷ ts

-- raw.split(","), for the given character
unfoldable pub split : ℕ → Text → List Text
split sep [] = [] ∷ []
split sep (c ∷ s) = if c == sep then [] ∷ split sep s else add_char c (split sep s)

abbrev pub add_front : ℕ → Option (Text × Text) → Option (Text × Text)
add_front c none = none
add_front c (some (front, rest)) = some (c ∷ front, rest)

-- pair.split(":", 1), where the character is there
unfoldable pub split_first : ℕ → Text → Option (Text × Text)
split_first sep [] = none
split_first sep (c ∷ s) = if c == sep then some ([], s) else add_front c (split_first sep s)

-- The rest of one round, for a key and a role.
abbrev pub add_key : Dict Text → Text → Text → Result LoadError (Dict Text)
add_key keys key role =
    if is_empty key
    then ok keys
    else if has_text role valid_roles
    then ok (insert key role keys)
    else err (invalid_role role)

abbrev pub add_parts : Dict Text → Option (Text × Text) → Result LoadError (Dict Text)
add_parts keys none = ok keys
add_parts keys (some (key, role)) = add_key keys (strip key) (lower (strip role))

-- The loop of `_load_api_keys`, which stops at the first role that is not valid.
unfoldable pub add_pairs : Dict Text → List Text → Result LoadError (Dict Text)
add_pairs keys [] = ok keys
add_pairs keys (pair ∷ pairs) = elim (add_parts keys (split_first 58 (strip pair))) [
  | err e ↦ err e
  | ok more ↦ add_pairs more pairs
]

abbrev pub or_no_keys : Result LoadError (Dict Text) → Result LoadError (Dict Text)
or_no_keys (err e) = err e
or_no_keys (ok []) = err no_keys
or_no_keys (ok (k ∷ ks)) = ok (k ∷ ks)

-- `_load_api_keys`, with the environment variable, if it is set
unfoldable pub load_api_keys : Option Text → Result LoadError (Dict Text)
load_api_keys none = or_no_keys (add_pairs [] (split 44 (codes "dev-key:admin")))
load_api_keys (some raw) = or_no_keys (add_pairs [] (split 44 raw))

abbrev pub context_of : Text → Option Text → Option AuthContext
context_of api_key none = none
context_of api_key (some role) =
    some (record { api_key = api_key; role = role; key_id = take 8 api_key ++ codes "..." })

-- _resolve
unfoldable pub resolve : Dict Text → Option Text → Option AuthContext
resolve keys none = none
resolve keys (some []) = none
resolve keys (some (c ∷ k)) = context_of (c ∷ k) (lookup (c ∷ k) keys)

pub data AuthError : Type 0 where
  -- 401 and 403
  unauthorized : AuthError
  forbidden : Text → List Text → AuthError
  -- ValueError of require_permission
  unknown_permission : AuthError

abbrev pub check_role : List Text → Option AuthContext → Result AuthError AuthContext
check_role allowed none = err unauthorized
check_role allowed (some ctx) =
    if has_text ctx.role allowed then ok ctx else err (forbidden ctx.role (sort_texts allowed))

-- require_role, the check that it returns
unfoldable pub require_role : List Text → Dict Text → Option Text → Result AuthError AuthContext
require_role allowed keys api_key = check_role allowed (resolve keys api_key)

abbrev pub require_any : Dict Text → Option Text → Option (List Text) → Result AuthError AuthContext
require_any keys api_key none = err unknown_permission
require_any keys api_key (some allowed) = require_role allowed keys api_key

-- require_permission, with the check that it returns
unfoldable pub require_permission : Text → Dict Text → Option Text → Result AuthError AuthContext
require_permission action keys api_key = require_any keys api_key (lookup action permissions)
