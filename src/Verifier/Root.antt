-- ===== src/Verifier/Root.antt =====
-- compute_system_root forgets the order of the hashes.
use provable_ai.Text.{concat}
use provable_ai.Base.{List, ◌≡◌, ◌∷◌, ◌∙◌, ap, sym, [], refl, arith}
use provable_ai.Verifier.{compute_system_root, Text, genesis_hash, utf8}
use provable_ai.Crypto.{Crypto, hexdigest}
use provable_ai.Text.Sorted.{insert_text, sort_texts, sort_texts-Perm}
use mathlib.Core.List.{Perm, List, ◌∷◌}

root_of_sorted : Crypto → List Text → Text
root_of_sorted c [] = genesis_hash
root_of_sorted c (h ∷ hs) = hexdigest c (utf8 (concat (h ∷ hs)))

root-insert_text :
    (c : Crypto) (t : Text) (us : List Text)
    → root_of_sorted c (insert_text t us) ≡ hexdigest c (utf8 (concat (insert_text t us)))
unfolding root_of_sorted insert_text
root-insert_text c t [] = refl
root-insert_text c t (u ∷ us) = ground arith

root-sort_texts :
    (c : Crypto) (hs : List Text) → compute_system_root c hs ≡ root_of_sorted c (sort_texts hs)
unfolding compute_system_root root_of_sorted sort_texts
root-sort_texts c [] = refl
root-sort_texts c (h ∷ hs) = sym (root-insert_text c h (sort_texts hs))

-- The system root of the latest hashes does not depend on their order.
pub compute_system_root-Perm :
    (c : Crypto) {hs ks : List Text}
    → Perm hs ks
    → compute_system_root c hs ≡ compute_system_root c ks
compute_system_root-Perm c {hs} {ks} p =
    root-sort_texts c hs ∙ ap (root_of_sorted c) (sort_texts-Perm p) ∙ sym (root-sort_texts c ks)
