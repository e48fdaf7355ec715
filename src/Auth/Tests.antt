-- ===== src/Auth/Tests.antt =====
-- Two keys, one with blanks and capitals in its role.
use provable_ai.Base.{some, ◌≡◌, ◌≢◌, ◌↔◌, refl, [], ◌∷◌, All}
use provable_ai.Base.Result.{ok}
use provable_ai.Dict.{Dict, insert}
use provable_ai.Text.{Text, codes, has_text, text_eq, lower}
use provable_ai.Text.Hex.{strip_left, strip_right}
use provable_ai.Auth.{load_api_keys, role_admin, role_auditor, add_pairs, split, split_first}
use provable_ai.Auth.Granted.{GetsThrough, IsGranted, IsKey, load_api_keys-require_permission}

abbrev two_keys : Dict Text
two_keys = (codes "k1", role_admin) ∷ (codes "k2", role_auditor) ∷ []

loaded : load_api_keys (some (codes "k1: Admin ,nothing, k2:auditor")) ≡ ok two_keys
unfolding load_api_keys add_pairs split split_first insert has_text text_eq lower strip_left
    strip_right
loaded = refl

load_api_keys-require_permission_example :
    (GetsThrough (codes "manage_keys") two_keys (codes "k1") role_admin
      ↔ IsGranted (codes "manage_keys") two_keys (codes "k1") role_admin)
    × All IsKey two_keys
    × (two_keys ≢ [])
load_api_keys-require_permission_example =
    load_api_keys-require_permission (some (codes "k1: Admin ,nothing, k2:auditor")) two_keys
      (codes "manage_keys") (codes "k1") role_admin loaded
