-- ===== src/Merkle/Padding.antt =====
-- What a root does not tell: the doubling of an odd leaf.
use provable_ai.Merkle.Level.{parent-IsReadable, leaf-IsReadable}
use provable_ai.Base.{◌≡◌, true, ◌∷◌, [], arith, refl}
use provable_ai.Text.{text_leb}
use provable_ai.Merkle.{
  merkle_root, build_merkle_tree, Text, leaves_of, pad, next_level, climb, Crypto, leaf,
}
use provable_ai.Text.Sorted.{sort_texts, insert_text, text_leb_refl}

sort_three :
    (a b d : Text)
    → text_leb a b ≡ true
    → text_leb b d ≡ true
    → (sort_texts (a ∷ b ∷ d ∷ []) ≡ a ∷ b ∷ d ∷ [])
      × (sort_texts (a ∷ b ∷ d ∷ d ∷ []) ≡ a ∷ b ∷ d ∷ d ∷ [])
unfolding sort_texts insert_text
sort_three a b d h k = ground (arith, text_leb_refl d)

-- Three ids in order have the same root as the same three with the last one twice.
pub merkle_root_doubled :
    (c : Crypto) (a b d : Text)
    → text_leb a b ≡ true
    → text_leb b d ≡ true
    → merkle_root c (a ∷ b ∷ d ∷ []) ≡ merkle_root c (a ∷ b ∷ d ∷ d ∷ [])
unfolding merkle_root build_merkle_tree leaves_of pad next_level climb leaf
merkle_root_doubled c a b d h k =
    let (three, four) = sort_three a b d h k in
    let (x, ex, rx) =
      parent-IsReadable c (leaf c a) (leaf c b) (leaf-IsReadable c a) (leaf-IsReadable c b) in
    let (y, ey, ry) =
      parent-IsReadable c (leaf c d) (leaf c d) (leaf-IsReadable c d) (leaf-IsReadable c d) in
    let (z, ez, rz) = parent-IsReadable c x y rx ry in
    rw three (rw four (rw ex (rw ey (rw ez refl))))
