-- ===== src/Batch/Digest.antt =====
-- The roots of the two Merkle trees, of audit_batch.py and of verify_batch.py.
use provable_ai.Json.Utf8.{utf8}
use provable_ai.Text.Hex.{fromhex}
use provable_ai.Base.{
  ℕ, zero, suc, Option, none, some, ◌≡◌, refl, List, [], ◌∷◌, All, length, arith, leb, ap, ◌∙◌, sym,
  map, ◌++◌, subst, false,
}
use provable_ai.Base.Optional.{◌>>=◌, >>=-eq-some}
use provable_ai.Text.{Text, Bytes, has_text, text_eq_refl}
use provable_ai.Text.Sorted.{sort_texts}
use provable_ai.Crypto.{Crypto, hexdigest}
use provable_ai.Merkle.{
  merkle_root, build_merkle_tree, climb, leaves_of, pad, next_level, parent, leaf, double_single,
  stored,
}
use provable_ai.Merkle.Inclusion.{compute_inclusion_proof-verifies}
use provable_ai.AuditLog.{hash_pair}
use provable_ai.Batch.Verify.{root_loop, build_merkle_root}

-- The digest of some bytes.
abbrev pub IsHash : Crypto → Text → Type 0
IsHash c t = (b : Bytes) × (t ≡ hexdigest c b)

abbrev root_of {ℓ} : {A : Type ℓ} → Option (Text × A) → Option Text
root_of none = none
root_of (some (r, ls)) = some r

two_or_more : (n : ℕ) → leb (suc (suc n)) 1 ≡ false
two_or_more n = ground arith

root_loop-two :
    (fuel : ℕ) (c : Crypto) (a b : Text) (rest : List Text)
    → root_loop (suc fuel) c (a ∷ b ∷ rest)
      ≡ (next_level c (pad (a ∷ b ∷ rest)) >>= root_loop fuel c)
unfolding root_loop
root_loop-two fuel c a b rest = rw (two_or_more (length rest)) refl

abbrev climb_from : ℕ → Crypto → List Text → Option (Text × List (List Text))
climb_from fuel c next = do above ← climb fuel c next; some (above.0, stored next ∷ above.1)

climb-two :
    (fuel : ℕ) (c : Crypto) (a b : Text) (rest : List Text)
    → climb (suc fuel) c (a ∷ b ∷ rest) ≡ (next_level c (pad (a ∷ b ∷ rest)) >>= climb_from fuel c)
unfolding climb
climb-two fuel c a b rest = rw (two_or_more (length rest)) refl

root_of-bind :
    {B : Type 0} (o : Option B) (f : B → Option (Text × List (List Text))) (g : B → Option Text)
    → ((b : B) → g b ≡ root_of (f b))
    → (o >>= g) ≡ root_of (o >>= f)
root_of-bind none f g h = refl
root_of-bind (some b) f g h = h b

root_of-more :
    (o : Option (Text × List (List Text))) (level : List Text)
    → root_of o ≡ root_of (do above ← o; some (above.0, level ∷ above.1))
root_of-more none level = refl
root_of-more (some above) level = refl

climb-root_loop :
    (fuel : ℕ) (c : Crypto) (current : List Text)
    → root_loop fuel c current ≡ root_of (climb fuel c current)
unfolding root_loop climb
climb-root_loop zero c current = refl
climb-root_loop (suc fuel) c [] = refl
climb-root_loop (suc fuel) c (a ∷ []) = refl
climb-root_loop (suc fuel) c (a ∷ b ∷ rest) =
    root_loop-two fuel c a b rest
    ∙ root_of-bind (next_level c (pad (a ∷ b ∷ rest))) (climb_from fuel c) (root_loop fuel c)
        (λ next. climb-root_loop fuel c next ∙ root_of-more (climb fuel c next) (stored next))
    ∙ ap root_of (sym (climb-two fuel c a b rest))

abbrev with_level : Option (Text × List (List Text)) → List Text → Option (Text × List (List Text))
with_level o level = do above ← o; some (above.0, level ∷ above.1)

abbrev tree_root : Text × List (List Text) → Option Text
tree_root tree = some tree.0

root_of-tree :
    (o : Option (Text × List (List Text))) (level : List Text)
    → root_of o ≡ (with_level o level >>= tree_root)
root_of-tree none level = refl
root_of-tree (some above) level = refl

-- The root that verify_batch.py computes is the one of audit_batch.py.
pub build_merkle_root-merkle_root :
    (c : Crypto) (ids : List Text) → build_merkle_root c ids ≡ merkle_root c ids
unfolding build_merkle_root merkle_root build_merkle_tree
build_merkle_root-merkle_root c [] = refl
build_merkle_root-merkle_root c (i ∷ ids) =
    let leaves = leaves_of c (sort_texts (i ∷ ids)) in
    climb-root_loop (length leaves) c leaves ∙ root_of-tree (climb (length leaves) c leaves) leaves

some_eq {ℓ} : {A : Type ℓ} {a b : A} → some a ≡ some b → a ≡ b
some_eq e = ground (arith, e)

hash_pair-IsHash :
    (c : Crypto) (a b : Option Bytes) {t : Text} → hash_pair c a b ≡ some t → IsHash c t
hash_pair-IsHash c (some a) (some b) h = (a ++ b, sym (some_eq h))
hash_pair-IsHash c (some a) none h = cc
hash_pair-IsHash c none b h = cc

parent-IsHash : (c : Crypto) (a b : Text) {t : Text} → parent c a b ≡ some t → IsHash c t
unfolding parent
parent-IsHash c a b {t} h = hash_pair-IsHash c (fromhex a) (fromhex b) h

next_level-IsHash :
    (c : Crypto) (level : List Text) {next : List Text}
    → next_level c level ≡ some next
    → All (IsHash c) next
unfolding next_level
next_level-IsHash c [] h = subst (All (IsHash c)) (some_eq h) tt
next_level-IsHash c (a ∷ []) h = cc
next_level-IsHash c (a ∷ b ∷ rest) h =
    let (above, e, h1) = >>=-eq-some (parent c a b) _ h in
    let (others, f, h2) = >>=-eq-some (next_level c rest) _ h1 in
    subst (All (IsHash c)) (some_eq h2) (parent-IsHash c a b e, next_level-IsHash c rest f)

root_loop-IsHash :
    (fuel : ℕ) (c : Crypto) (current : List Text) {root : Text}
    → All (IsHash c) current
    → root_loop fuel c current ≡ some root
    → IsHash c root
unfolding root_loop
root_loop-IsHash zero c current h e = cc
root_loop-IsHash (suc fuel) c [] h e = cc
root_loop-IsHash (suc fuel) c (a ∷ []) h e = subst (IsHash c) (some_eq e) h.0
root_loop-IsHash (suc fuel) c (a ∷ b ∷ rest) h e =
    let (next, f, e1) =
      >>=-eq-some (next_level c (pad (a ∷ b ∷ rest))) (root_loop fuel c)
        (sym (root_loop-two fuel c a b rest) ∙ e) in
    root_loop-IsHash fuel c next (next_level-IsHash c (pad (a ∷ b ∷ rest)) f) e1

leaves-IsHash : (c : Crypto) (ids : List Text) → All (IsHash c) (map (leaf c) ids)
unfolding leaf
leaves-IsHash c [] = tt
leaves-IsHash c (i ∷ ids) = ((utf8 i, refl), leaves-IsHash c ids)

doubled-IsHash :
    (c : Crypto) (ts : List Text) → All (IsHash c) ts → All (IsHash c) (double_single ts)
doubled-IsHash c [] h = h
doubled-IsHash c (a ∷ []) h = (h.0, h)
doubled-IsHash c (a ∷ b ∷ ts) h = h

-- There is a root, and over one id or more it is a digest.
pub merkle_root-IsHash :
    (c : Crypto) (i : Text) (ids : List Text)
    → (root : Text) × (merkle_root c (i ∷ ids) ≡ some root) × IsHash c root
unfolding build_merkle_root leaves_of has_text
merkle_root-IsHash c i ids =
    let (root, e, _) = compute_inclusion_proof-verifies c (i ∷ ids) i (rw (text_eq_refl i) refl) in
    let built : build_merkle_root c (i ∷ ids) ≡ some root =
      build_merkle_root-merkle_root c (i ∷ ids) ∙ e in
    (
      root,
      e,
      root_loop-IsHash _ c (leaves_of c (sort_texts (i ∷ ids)))
          (doubled-IsHash c (map (leaf c) (sort_texts (i ∷ ids)))
            (leaves-IsHash c (sort_texts (i ∷ ids))))
          built,
    )
