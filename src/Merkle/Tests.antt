-- ===== src/Merkle/Tests.antt =====
-- Batches of three ids.
use provable_ai.Merkle.Inclusion.{Endorses, compute_inclusion_proof-verifies}
use provable_ai.Crypto.Toy.{toy}
use provable_ai.Merkle.{
  merkle_root, BatchSignature, InclusionProof, compute_inclusion_proof, leaf,
  verify_inclusion_proof,
}
use provable_ai.Base.{List, ◌∷◌, ◌≡◌, [], some, Option, refl, true}
use provable_ai.Text.{has_text, Text, text_eq, codes}

abbrev three : List Text
three = codes "b" ∷ codes "a" ∷ codes "c" ∷ []

compute_inclusion_proof-verifies_example :
    (root : Text) × (merkle_root toy three ≡ some root)
    × ((batch : Option BatchSignature)
        → Endorses toy root batch
        → (p : InclusionProof) × (compute_inclusion_proof toy three (codes "c") batch ≡ some p)
          × (p.leaf_hash ≡ leaf toy (codes "c"))
          × (p.root ≡ root)
          × (verify_inclusion_proof toy p ≡ true))
unfolding has_text text_eq
compute_inclusion_proof-verifies_example =
    compute_inclusion_proof-verifies toy three (codes "c") refl
