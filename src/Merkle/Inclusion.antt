-- ===== src/Merkle/Inclusion.antt =====
-- The path of an inclusion proof leads to the root that the tree has.
use provable_ai.Text.Sorted.{insert_text, sort_texts}
use provable_ai.Text.{has_text, text_eq→eq, eq→text_eq, text_eq_refl}
use provable_ai.Merkle.Level.{
  IsReadable, HasStep, next_level-IsAbove, next_level-HasStep, leaf-IsReadable,
}
use provable_ai.Base.{
  ℕ, List, get_elem?, All, ◌≡◌, length, leb, some, false, true, ◌≤◌, arith, suc, ◌∷◌, Bool-cases,
  sym, inl, ◌/◌, [], inr, zero, refl, not, map, ◌%◌, ◌||◌, ap, ◌==◌, Option, ◌∙◌, none,
  get_elem?-lt,
}
use Prim.Native.Nat.{ℕ, suc}
use provable_ai.Merkle.{
  climb, path_up, Crypto, walk_path, Text, Step, stored, double_single, leaf, index_of, has_text,
  sort_texts, text_eq, leaves_of, compute_inclusion_proof, merkle_root, verify_inclusion_proof,
  BatchSignature, build_merkle_tree, check_signature, bind_batch, InclusionProof, fromhex,
}

-- From the node `x` at `i`: the tree has a root, and the path from the node leads to it.
record Reaches (fuel : ℕ) (c : Crypto) (level : List Text) (i : ℕ) (x : Text) : Type 0 where
  root : Text
  levels : List (List Text)
  path : List Step
  climbed : climb fuel c level ≡ some (root, levels)
  found : path_up fuel c level i ≡ some (path, root)
  walked : walk_path c x path ≡ some root

single-Reaches :
    (f : ℕ) (c : Crypto) (level : List Text) (i : ℕ) (x : Text)
    → get_elem? level i ≡ some x
    → leb (length level) 1 ≡ true
    → Reaches (suc f) c level i x
unfolding climb path_up walk_path
single-Reaches f c [] i x at short = cc
single-Reaches f c (a ∷ []) zero x at short = record {
  root = a;
  levels = [];
  path = [];
  climbed = refl;
  found = refl;
  walked = sym at;
}
single-Reaches f c (a ∷ []) (suc i) x at short = cc
single-Reaches f c (a ∷ b ∷ level) i x at short = absurd (ground arith)

above-Reaches :
    (f : ℕ) (c : Crypto) (level : List Text) (h : All IsReadable level) (i : ℕ) (x : Text)
    → leb (length level) 1 ≡ false
    → (s : HasStep c level (next_level-IsAbove c level h).0 i x)
    → Reaches f c (next_level-IsAbove c level h).0 (i / 2) s.up
    → Reaches (suc f) c level i x
unfolding climb path_up walk_path
above-Reaches f c level h i x long s r =
    let above = (next_level-IsAbove c level h).1 in
    record {
      root = r.root;
      levels = stored (next_level-IsAbove c level h).0 ∷ r.levels;
      path = record { hash = s.sibling; on_left = not (i % 2 == 0) } ∷ r.path;
      climbed = rw long (rw above.computed (rw r.climbed refl));
      found = rw long (rw s.found (rw above.computed (rw r.found refl)));
      walked = rw s.joined r.walked;
    }

level-Reaches :
    (f : ℕ) (c : Crypto) (level : List Text) (h : All IsReadable level) (i : ℕ) (x : Text)
    → length level ≤ f
    → 1 ≤ f
    → get_elem? level i ≡ some x
    → Reaches f c level i x
level-Reaches zero c level h i x enough some_fuel at = absurd (omega arith)
level-Reaches (suc f) c level h i x enough some_fuel at = elim (Bool-cases (leb (length level) 1)) [
  | inl short ↦ single-Reaches f c level i x at short
  | inr long ↦
      let (next, above) = next_level-IsAbove c level h in
      let s = next_level-HasStep c level h i x at in
      above-Reaches f c level h i x long s (
        level-Reaches f c next above.readable (i / 2) s.up (ground (arith, above.half))
          (ground arith) s.placed)
]

has_text-insert_text :
    (t u : Text) (us : List Text) → has_text t (insert_text u us) ≡ (text_eq t u || has_text t us)
unfolding has_text insert_text
has_text-insert_text t u [] = refl
has_text-insert_text t u (v ∷ us) = ground (arith, has_text-insert_text t u us)

has_text-sort_texts : (t : Text) (ts : List Text) → has_text t (sort_texts ts) ≡ has_text t ts
unfolding has_text sort_texts
has_text-sort_texts t [] = refl
has_text-sort_texts t (u ∷ ts) =
    ground (arith, has_text-insert_text t u (sort_texts ts), has_text-sort_texts t ts)

-- A place in a list: the first at which `index_of` finds the text.
IsAt : Text → List Text → Type 0
IsAt t xs = (i : ℕ) × (index_of t xs ≡ some i) × (get_elem? xs i ≡ some t)

leaf-IsAt :
    (c : Crypto) (t : Text) (ids : List Text)
    → has_text t ids ≡ true
    → IsAt (leaf c t) (map (leaf c) ids)
unfolding IsAt index_of has_text
leaf-IsAt c t [] h = cc
leaf-IsAt c t (u ∷ ids) h = elim (Bool-cases (text_eq (leaf c u) (leaf c t))) [
  | inl same ↦ (0, rw same refl, ap some (text_eq→eq (leaf c u) (leaf c t) same))
  | inr other ↦
      let later : has_text t ids ≡ true =
        ground (arith, text_eq→eq t u, eq→text_eq (leaf c u) (leaf c t)) in
      let (i, found, at) = leaf-IsAt c t ids later in (suc i, rw other (rw found refl), at)
]

double_single-IsAt : (t : Text) (xs : List Text) → IsAt t xs → IsAt t (double_single xs)
unfolding IsAt index_of
double_single-IsAt t [] h = h
double_single-IsAt t (a ∷ []) (zero, found, at) = (0, ground arith, at)
double_single-IsAt t (a ∷ []) (suc i, found, at) = cc
double_single-IsAt t (a ∷ b ∷ xs) h = h

leaves-IsReadable : (c : Crypto) (ids : List Text) → All IsReadable (map (leaf c) ids)
leaves-IsReadable c [] = tt
leaves-IsReadable c (i ∷ ids) = (leaf-IsReadable c i, leaves-IsReadable c ids)

double_single-IsReadable : (xs : List Text) → All IsReadable xs → All IsReadable (double_single xs)
double_single-IsReadable [] h = h
double_single-IsReadable (a ∷ []) (ha, h) = (ha, (ha, tt))
double_single-IsReadable (a ∷ b ∷ xs) h = h

-- A batch that says nothing of the root, or that names it and carries a signature of it.
abbrev pub Endorses : Crypto → Text → Option BatchSignature → Type 0
Endorses c root none = Unit
Endorses c root (some b) =
    (b.merkle_root ≡ some root)
    × (check_signature c (fromhex b.public_key) (fromhex root) (fromhex b.value) ≡ true)

bind_batch-verifies :
    (c : Crypto) (batch : Option BatchSignature) (t : Text) (i : ℕ) (path : List Step) (root : Text)
    → Endorses c root batch
    → walk_path c t path ≡ some root
    → verify_inclusion_proof c (bind_batch batch t i path root) ≡ true
unfolding verify_inclusion_proof
bind_batch-verifies c none t i path root h walked = rw walked (ground (arith, text_eq_refl root))
bind_batch-verifies c (some b) t i path root (named, signed) walked =
    rw walked (rw named (ground (arith, text_eq_refl root)))

bind_batch_parts :
    (batch : Option BatchSignature) (t : Text) (i : ℕ) (path : List Step) (root : Text)
    → ((bind_batch batch t i path root).leaf_hash ≡ t)
      × ((bind_batch batch t i path root).root ≡ root)
bind_batch_parts none t i path root = (refl, refl)
bind_batch_parts (some b) t i path root = (refl, refl)

tree-root :
    (c : Crypto) (ids : List Text) (root : Text) (levels : List (List Text)) (t : Text)
    → has_text t ids ≡ true
    → climb (length (leaves_of c (sort_texts ids))) c (leaves_of c (sort_texts ids))
      ≡ some (root, levels)
    → merkle_root c ids ≡ some root
unfolding merkle_root build_merkle_tree has_text
tree-root c [] root levels t h e = cc
tree-root c (i ∷ ids) root levels t h e = rw e refl

leaves_of-Reaches :
    (c : Crypto) (ids : List Text) (i : ℕ) (t : Text)
    → get_elem? (leaves_of c ids) i ≡ some t
    → Reaches (length (leaves_of c ids)) c (leaves_of c ids) i t
unfolding leaves_of
leaves_of-Reaches c ids i t at =
    level-Reaches (length (leaves_of c ids)) c (leaves_of c ids)
      (double_single-IsReadable (map (leaf c) ids) (leaves-IsReadable c ids)) i t (omega arith)
      (omega (arith, get_elem?-lt (leaves_of c ids) i at)) at

-- For a member of a batch, the tree has a root and the member an inclusion proof with that root,
-- which `verify_inclusion_proof` accepts, provided that the batch, if one is given, names this root
-- and carries a signature of it under its public key.
pub compute_inclusion_proof-verifies :
    (c : Crypto) (ids : List Text) (t : Text)
    → has_text t ids ≡ true
    → (root : Text) × (merkle_root c ids ≡ some root)
      × ((batch : Option BatchSignature)
          → Endorses c root batch
          → (p : InclusionProof) × (compute_inclusion_proof c ids t batch ≡ some p)
            × (p.leaf_hash ≡ leaf c t)
            × (p.root ≡ root)
            × (verify_inclusion_proof c p ≡ true))
unfolding compute_inclusion_proof leaves_of IsAt
compute_inclusion_proof-verifies c ids t h =
    let member : has_text t (sort_texts ids) ≡ true = has_text-sort_texts t ids ∙ h in
    let (i, found, at) =
      double_single-IsAt (leaf c t) (map (leaf c) (sort_texts ids))
        (leaf-IsAt c t (sort_texts ids) member) in
    let r = leaves_of-Reaches c (sort_texts ids) i (leaf c t) at in
    (
      r.root,
      tree-root c ids r.root r.levels t h r.climbed,
      λ batch endorsed.
          let (same_leaf, same_root) = bind_batch_parts batch (leaf c t) i r.path r.root in
          (
            bind_batch batch (leaf c t) i r.path r.root,
            rw member (rw found (rw r.found refl)),
            same_leaf,
            same_root,
            bind_batch-verifies c batch (leaf c t) i r.path r.root endorsed r.walked,
          ),
    )
