-- ===== src/Storage/Approvals.antt =====
-- provable_ai/storage.py: the tables of approved models, agents and policies.
pub mod Listed
mod Tests
use provable_ai.Storage.{Db, commit, text_eq, is_empty}
use provable_ai.Base.{
  List, Option, if◌then◌else◌, none, Bool, ◌∷◌, not, false, ◌==◌, some, [], true, ◌&&◌, ◌||◌, ◌++◌,
}
use provable_ai.Text.{Text}

-- INSERT OR REPLACE: an old row of the key goes, the new one comes last.
unfoldable pub replace_row {ℓ} : {V : Type ℓ} → Text → V → List (Text × V) → List (Text × V)
replace_row k v [] = (k, v) ∷ []
replace_row k v ((j, w) ∷ rows) =
    let rest = replace_row k v rows in if text_eq j k then rest else (j, w) ∷ rest

-- name or version
abbrev pub name_or : Text → Text → Text
name_or name version = if is_empty name then version else name

-- add_approved_model
unfoldable pub add_approved_model : Text → Text → Db → Db
add_approved_model version name db = commit (record db.tables {
  approved_models = replace_row version (name_or name version) db.tables.approved_models;
})

-- add_approved_agent
unfoldable pub add_approved_agent : Text → Text → Db → Db
add_approved_agent version name db = commit (record db.tables {
  approved_agents = replace_row version (name_or name version) db.tables.approved_agents;
})

-- The key of a policy: "name:version", or the version alone.
unfoldable pub policy_key : Text → Text → Text
policy_key version name =
    if not (is_empty name) && not (text_eq name version) then name ++ 58 ∷ version else version

-- add_approved_policy
unfoldable pub add_approved_policy : Text → Text → Db → Db
add_approved_policy version name db = commit (record db.tables {
  approved_policies = replace_row (policy_key version name) true db.tables.approved_policies;
})

unfoldable pub deactivate_rows : Text → List (Text × Bool) → List (Text × Bool)
deactivate_rows k [] = []
deactivate_rows k ((j, active) ∷ rows) = (j, not (text_eq j k) && active) ∷ deactivate_rows k rows

-- deactivate_policy
unfoldable pub deactivate_policy : Text → Db → Db
deactivate_policy version db =
    commit
      (record db.tables { approved_policies = deactivate_rows version db.tables.approved_policies })

-- approve_policy
unfoldable pub approve_policy : Text → Bool → Db → Db
approve_policy version true db = add_approved_policy version [] db
approve_policy version false db = deactivate_policy version db

-- is_policy_active
unfoldable pub is_active : Text → List (Text × Bool) → Bool
is_active k [] = false
is_active k ((j, active) ∷ rows) = (text_eq j k && active) || is_active k rows

-- The "version" of the dicts of get_approved_models and get_approved_agents.
unfoldable pub versions : List (Text × Text) → List Text
versions [] = []
versions ((version, name) ∷ rows) = version ∷ versions rows

-- pv.split(":", 1)[1] where there is a colon, and pv where there is none
unfoldable pub after_colon : Text → Option Text
after_colon [] = none
after_colon (c ∷ s) = if c == 58 then some s else after_colon s

abbrev pub policy_version : Text → Text
policy_version key = elim (after_colon key) [ none ↦ key | some version ↦ version ]

-- The "version" of the dicts of get_approved_policies.
unfoldable pub active_versions : List (Text × Bool) → List Text
active_versions [] = []
active_versions ((key, active) ∷ rows) =
    let rest = active_versions rows in if active then policy_version key ∷ rest else rest
