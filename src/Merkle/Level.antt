-- ===== src/Merkle/Level.antt =====
-- One level of the tree: padding makes it even, and the next level has half as many nodes, each
-- the parent of two neighbours.
use provable_ai.Canonical.Hashes.{fromhex-hexdigest}
use provable_ai.Base.{
  ◌≡◌, List, ℕ, All, some, length, get_elem?, arith, ◌∷◌, ◌+◌, ◌++◌, suc, [], not, ◌/◌, refl, ◌%◌,
  ◌==◌, zero,
}
use provable_ai.Text.{Text}
use provable_ai.Crypto.{Crypto, hexdigest}
use provable_ai.Merkle.{
  parent, pad, next_level, List, Bytes, fromhex, sibling_of, combine, leaf, utf8,
}

-- A node that `bytes.fromhex` reads.
abbrev pub IsReadable : Text → Type 0
IsReadable t = (b : Bytes) × (fromhex t ≡ some b)

pub leaf-IsReadable : (c : Crypto) (t : Text) → IsReadable (leaf c t)
unfolding leaf
leaf-IsReadable c t = (_, fromhex-hexdigest c (utf8 t))

pub pad-IsReadable : (xs : List Text) → All IsReadable xs → All IsReadable (pad xs)
unfolding pad
pad-IsReadable [] h = tt
pad-IsReadable (a ∷ []) (ha, h) = (ha, (ha, tt))
pad-IsReadable (a ∷ b ∷ xs) (ha, (hb, h)) = (ha, (hb, pad-IsReadable xs h))

pub parent-IsReadable :
    (c : Crypto) (a b : Text)
    → IsReadable a
    → IsReadable b
    → (t : Text) × (parent c a b ≡ some t) × IsReadable t
unfolding parent
parent-IsReadable c a b (x, ex) (y, ey) =
    (hexdigest c (x ++ y), rw ex (rw ey refl), (c.sha256 (x ++ y), fromhex-hexdigest c (x ++ y)))

-- A level above a padded one.
pub record IsAbove (c : Crypto) (below above : List Text) : Type 0 where
  pub computed : next_level c (pad below) ≡ some above
  pub readable : All IsReadable above
  pub half : (length above ≡ (length below + 1) / 2)

pub next_level-IsAbove :
    (c : Crypto) (xs : List Text) → All IsReadable xs → (above : List Text) × IsAbove c xs above
unfolding next_level pad
next_level-IsAbove c [] h = ([], record { computed = refl; readable = tt; half = omega arith })
next_level-IsAbove c (a ∷ []) (ha, h) =
    let (t, e, r) = parent-IsReadable c a a ha ha in
    (t ∷ [], record { computed = rw e refl; readable = (r, tt); half = omega arith })
next_level-IsAbove c (a ∷ b ∷ xs) (ha, (hb, h)) =
    let (t, e, r) = parent-IsReadable c a b ha hb in
    let (above, s) = next_level-IsAbove c xs h in
    (
      t ∷ above,
      record {
        computed = rw e (rw s.computed refl);
        readable = (r, s.readable);
        half = omega (arith, s.half);
      },
    )

-- The step of an inclusion proof from a node to its parent.
pub record HasStep (c : Crypto) (below above : List Text) (i : ℕ) (x : Text) : Type 0 where
  pub sibling : Text
  pub found : get_elem? (pad below) (sibling_of i) ≡ some sibling
  pub up : Text
  pub joined : combine c x (record { hash = sibling; on_left = not (i % 2 == 0) }) ≡ some up
  pub placed : get_elem? above (i / 2) ≡ some up

sibling_of_next : (i : ℕ) → sibling_of (suc (suc i)) ≡ suc (suc (sibling_of i))
sibling_of_next i = ground arith

mod_next : (i : ℕ) → suc (suc i) % 2 ≡ i % 2
mod_next i = omega arith

half_next : (i : ℕ) → suc (suc i) / 2 ≡ suc (i / 2)
half_next i = omega arith

pub next_level-HasStep :
    (c : Crypto) (xs : List Text) (h : All IsReadable xs) (i : ℕ) (x : Text)
    → get_elem? xs i ≡ some x
    → HasStep c xs (next_level-IsAbove c xs h).0 i x
unfolding next_level pad next_level-IsAbove
next_level-HasStep c [] h i x at = cc
next_level-HasStep c (a ∷ []) (ha, h) zero x at =
    let (t, et, r) = parent-IsReadable c a a ha ha in
    let same : x ≡ a = ground arith in
    record { sibling = a; found = refl; up = t; joined = rw same (rw et refl); placed = refl }
next_level-HasStep c (a ∷ []) h (suc i) x at = cc
next_level-HasStep c (a ∷ b ∷ xs) (ha, (hb, h)) zero x at =
    let (t, et, r) = parent-IsReadable c a b ha hb in
    let same : x ≡ a = ground arith in
    record { sibling = b; found = refl; up = t; joined = rw same (rw et refl); placed = refl }
next_level-HasStep c (a ∷ b ∷ xs) (ha, (hb, h)) (suc zero) x at =
    let (t, et, r) = parent-IsReadable c a b ha hb in
    let same : x ≡ b = ground arith in
    record { sibling = a; found = refl; up = t; joined = rw same (rw et refl); placed = refl }
next_level-HasStep c (a ∷ b ∷ xs) (ha, (hb, h)) (suc (suc i)) x at =
    let s = next_level-HasStep c xs h i x at in
    record {
      sibling = s.sibling;
      found = rw (sibling_of_next i) s.found;
      up = s.up;
      joined = rw (mod_next i) s.joined;
      placed = rw (half_next i) s.placed;
    }
