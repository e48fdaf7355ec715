-- ===== src/AuditLog/Leaf.antt =====
-- The Merkle leaf of an entry.
use mathlib.Core.List.{append_assoc}
use provable_ai.Base.{◌++◌, ◌∷◌, some, ◌≡◌, refl}
use provable_ai.AuditLog.{compute_audit_leaf, leaf_content, Crypto, Event, Text, ◌++◌, some}

-- Two entries have the same leaf where one has, before its instance, a part that the other has as
-- the end of its tenant: the fields are joined by "|", which they may contain. So the leaf does not
-- tell audit states apart.
pub compute_audit_leaf_shared :
    (c : Crypto) (e : Event) (a b i : Text)
    → compute_audit_leaf c (record e { tenant_id = a ++ 124 ∷ b; instance_id = some i })
      ≡ compute_audit_leaf c (record e { tenant_id = a; instance_id = some (b ++ 124 ∷ i) })
unfolding compute_audit_leaf leaf_content
compute_audit_leaf_shared c e a b i = simp append_assoc refl
