-- ===== src/Storage/Approvals/Listed.antt =====
-- Which versions the queries list after an approval and after its withdrawal.
use provable_ai.Base.{
  ◌≡◌, List, false, Bool, ◌||◌, ◌++◌, ◌∷◌, true, arith, some, [], refl, Bool-cases, none, inr,
  subst, inl, sym, ◌∙◌, ap,
}
use provable_ai.Text.{has_char, has_text, text_eq_iff, text_eq_refl, text_eq→eq}
use provable_ai.Storage.Approvals.{
  after_colon, policy_key, versions, add_approved_model, active_versions, Text, replace_row, Db,
  text_eq, policy_version, name_or, deactivate_rows, add_approved_policy, deactivate_policy,
  is_empty,
}

versions-replace_row :
    (v n u : Text) (rows : List (Text × Text))
    → has_text u (versions (replace_row v n rows)) ≡ (text_eq u v || has_text u (versions rows))
unfolding versions replace_row has_text
versions-replace_row v n u [] = refl
versions-replace_row v n u ((j, w) ∷ rows) =
    ground
      (arith, versions-replace_row v n u rows, text_eq_iff j v, text_eq_iff u v, text_eq_iff u j)

-- After `add_approved_model` the listed models are those that were listed and the new one.
pub add_approved_model_lem :
    (version name u : Text) (db : Db)
    → has_text u (versions (add_approved_model version name db).tables.approved_models)
      ≡ (text_eq u version || has_text u (versions db.tables.approved_models))
unfolding add_approved_model
add_approved_model_lem version name u db =
    versions-replace_row version (name_or name version) u db.tables.approved_models

after_colon-named :
    (name version : Text)
    → has_char 58 name ≡ false
    → after_colon (name ++ 58 ∷ version) ≡ some version
unfolding after_colon has_char
after_colon-named [] version h = refl
after_colon-named (c ∷ name) version h = ground (arith, after_colon-named name version)

active-replace_row :
    (k : Text) (rows : List (Text × Bool))
    → has_text (policy_version k) (active_versions (replace_row k true rows)) ≡ true
unfolding active_versions replace_row has_text
active-replace_row k [] = ground (arith, text_eq_refl (policy_version k))
active-replace_row k ((j, w) ∷ rows) = ground (arith, active-replace_row k rows)

after_colon-none : (s : Text) → has_char 58 s ≡ false → after_colon s ≡ none
unfolding after_colon has_char
after_colon-none [] h = refl
after_colon-none (c ∷ s) h = ground (arith, after_colon-none s)

policy_version-key :
    (version name : Text)
    → has_char 58 version ≡ false
    → has_char 58 name ≡ false
    → policy_version (policy_key version name) ≡ version
unfolding policy_key
policy_version-key version name hv hn =
    ground (arith, after_colon-none version hv, after_colon-named name version hn)

-- A policy that was added is listed under its version, where neither its version nor its name has a
-- colon.
pub add_approved_policy_lem :
    (version name : Text) (db : Db)
    → has_char 58 version ≡ false
    → has_char 58 name ≡ false
    → has_text version
        (active_versions (add_approved_policy version name db).tables.approved_policies)
      ≡ true
unfolding add_approved_policy
add_approved_policy_lem version name db hv hn =
    subst
      (λ u.
        has_text u (active_versions (add_approved_policy version name db).tables.approved_policies)
        ≡ true)
      (policy_version-key version name hv hn)
      (active-replace_row (policy_key version name) db.tables.approved_policies)

deactivated-other :
    (k version : Text) (rows : List (Text × Bool))
    → text_eq k version ≡ false
    → has_text
        (policy_version k)
        (active_versions (deactivate_rows version (replace_row k true rows)))
      ≡ true
unfolding active_versions replace_row has_text deactivate_rows
deactivated-other k version [] h = ground (arith, text_eq_refl (policy_version k))
deactivated-other k version ((j, w) ∷ rows) h = ground (arith, deactivated-other k version rows h)

key_ne :
    (version name : Text)
    → has_char 58 version ≡ false
    → has_char 58 name ≡ false
    → text_eq (name ++ 58 ∷ version) version ≡ false
key_ne version name hv hn = elim (Bool-cases (text_eq (name ++ 58 ∷ version) version)) [
  | inr differs ↦ differs
  | inl same ↦
      let e = text_eq→eq (name ++ 58 ∷ version) version same in
      let found : some version ≡ none =
        sym (after_colon-named name version hn) ∙ ap after_colon e ∙ after_colon-none version hv in
      absurd (cc found)
]

-- A policy that was added under a name of its own stays listed as active under its version after
-- `deactivate_policy` of that version, where neither has a colon: its row has the key
-- "name:version", and the update looks for the version alone.
pub deactivate_policy_named :
    (version name : Text) (db : Db)
    → has_char 58 version ≡ false
    → has_char 58 name ≡ false
    → is_empty name ≡ false
    → text_eq name version ≡ false
    → has_text version (
        active_versions
          (deactivate_policy version
            (add_approved_policy version name db)).tables.approved_policies)
      ≡ true
unfolding add_approved_policy deactivate_policy policy_key
deactivate_policy_named version name db hv hn he hd =
    subst
      (λ u.
        has_text u (
          active_versions
            (deactivate_policy version
              (add_approved_policy version name db)).tables.approved_policies)
        ≡ true)
      (policy_version-key version name hv hn)
      (deactivated-other (policy_key version name) version db.tables.approved_policies
        (ground (arith, key_ne version name hv hn)))
