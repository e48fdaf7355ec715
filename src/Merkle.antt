-- ===== src/Merkle.antt =====
-- provable_ai/audit_batch.py: the Merkle tree over the ids of a batch of proofs, and the proof that
-- an id is in it.
pub mod Level
pub mod Inclusion
pub mod Padding
mod Tests
use provable_ai.Json.Utf8.{utf8}
use provable_ai.Text.Sorted.{sort_texts}
use provable_ai.Text.Hex.{fromhex}
use provable_ai.Canonical.{genesis_hash}
use provable_ai.Base.{
  ℕ, List, Option, [], none, ◌∷◌, some, Bool, if◌then◌else◌, map, length, leb, false, ◌%◌, suc,
  get_elem?, ◌==◌, zero, ◌||◌, ◌/◌, ◌&&◌, ◌+◌, not, ◌-◌,
}
use provable_ai.Crypto.{Crypto, hexdigest}
use provable_ai.Text.{Text, Bytes, is_empty, has_text, text_eq}
use Prim.Native.Nat.{ℕ, suc}
use provable_ai.Base.Optional.{◌>>=◌}
use provable_ai.AuditLog.{hash_pair}

unfoldable pub leaf : Crypto → Text → Text
leaf c proof_id = hexdigest c (utf8 proof_id)

-- "if len(leaves) == 1: leaves = leaves + leaves"
abbrev pub double_single : List Text → List Text
double_single (a ∷ []) = a ∷ a ∷ []
double_single xs = xs

unfoldable pub leaves_of : Crypto → List Text → List Text
leaves_of c sorted_ids = double_single (map (leaf c) sorted_ids)

-- The last node once more, where the count is odd.
unfoldable pub pad : List Text → List Text
pad [] = []
pad (a ∷ []) = a ∷ a ∷ []
pad (a ∷ b ∷ rest) = a ∷ b ∷ pad rest

-- SHA-256 of the two nodes' bytes; `none` is a ValueError of bytes.fromhex
unfoldable pub parent : Crypto → Text → Text → Option Text
parent c left right = hash_pair c (fromhex left) (fromhex right)

-- The nodes above those of a padded level; `none` is an exception.
unfoldable pub next_level : Crypto → List Text → Option (List Text)
next_level c [] = some []
next_level c (a ∷ []) = none
next_level c (a ∷ b ∷ rest) = do
  above ← parent c a b
  others ← next_level c rest
  some (above ∷ others)

-- A level as `levels` holds it in the end: the loop pads the list that it has stored.
abbrev pub stored : List Text → List Text
stored level = if leb (length level) 1 then level else pad level

abbrev pub first : List Text → Option Text
first [] = none
first (a ∷ rest) = some a

-- The loop of `build_merkle_tree`: the root, and the levels above `current`. `none` is an
-- exception or too little fuel.
unfoldable pub climb : ℕ → Crypto → List Text → Option (Text × List (List Text))
climb zero c current = none
climb (suc fuel) c current =
    let rest = (do
      next ← next_level c (pad current)
      above ← climb fuel c next
      some (above.0, stored next ∷ above.1)) in
    if leb (length current) 1 then (do root ← first current; some (root, [])) else rest

abbrev pub no_leaves : Text
no_leaves = genesis_hash

-- build_merkle_tree
unfoldable pub build_merkle_tree : Crypto → List Text → Option (Text × List (List Text))
build_merkle_tree c [] = some (no_leaves, [])
build_merkle_tree c (i ∷ ids) =
    let leaves = leaves_of c (sort_texts (i ∷ ids)) in
    do above ← climb (length leaves) c leaves; some (above.0, leaves ∷ above.1)

unfoldable pub merkle_root : Crypto → List Text → Option Text
merkle_root c ids = do tree ← build_merkle_tree c ids; some tree.0

-- A step of an inclusion proof: the sibling, and whether it stands on the left.
pub record Step : Type 0 where
  pub hash : Text
  pub on_left : Bool

-- idx ^ 1
abbrev pub sibling_of : ℕ → ℕ
sibling_of idx = if idx % 2 == 0 then idx + 1 else idx - 1

-- The loop of `compute_inclusion_proof`: the path from the node at `idx`, and the root.
unfoldable pub path_up : ℕ → Crypto → List Text → ℕ → Option (List Step × Text)
path_up zero c current idx = none
path_up (suc fuel) c current idx =
    let rest = (do
      sibling ← get_elem? (pad current) (sibling_of idx)
      next ← next_level c (pad current)
      above ← path_up fuel c next (idx / 2)
      some (record { hash = sibling; on_left = not (idx % 2 == 0) } ∷ above.0, above.1)) in
    if leb (length current) 1 then (do root ← first current; some ([], root)) else rest

-- leaves.index(target)
unfoldable pub index_of : Text → List Text → Option ℕ
index_of t [] = none
index_of t (s ∷ ss) =
    let rest = (do i ← index_of t ss; some (suc i)) in if text_eq s t then some 0 else rest

-- What a batch export says of its root and signature.
pub record BatchSignature : Type 0 where
  pub merkle_root : Option Text
  pub value : Text
  pub public_key : Text
  pub key_id : Text

pub record InclusionProof : Type 0 where
  pub leaf_hash : Text
  pub leaf_index : ℕ
  pub path : List Step
  pub root : Text
  pub signed_root : Text
  pub signature : Text
  pub public_key : Text
  pub key_id : Text

-- The proof with the fields that it takes from the batch.
abbrev pub bind_batch : Option BatchSignature → Text → ℕ → List Step → Text → InclusionProof
bind_batch none target i path root = record {
  leaf_hash = target;
  leaf_index = i;
  path = path;
  root = root;
  signed_root = root;
  signature = [];
  public_key = [];
  key_id = [];
}
bind_batch (some b) target i path root = record {
  leaf_hash = target;
  leaf_index = i;
  path = path;
  root = root;
  signed_root = elim b.merkle_root [ none ↦ root | some signed ↦ signed ];
  signature = b.value;
  public_key = b.public_key;
  key_id = b.key_id;
}

-- `compute_inclusion_proof`; `none` is a ValueError, or another exception.
unfoldable pub compute_inclusion_proof :
    Crypto → List Text → Text → Option BatchSignature → Option InclusionProof
compute_inclusion_proof c ids target batch =
    let leaves = leaves_of c (sort_texts ids) in
    let built = (do
      i ← index_of (leaf c target) leaves
      up ← path_up (length leaves) c leaves i
      some (bind_batch batch (leaf c target) i up.0 up.1)) in
    if has_text target (sort_texts ids) then built else none

abbrev pub combine : Crypto → Text → Step → Option Text
combine c current step =
    if step.on_left then parent c step.hash current else parent c current step.hash

-- The root that a path leads to.
unfoldable pub walk_path : Crypto → Text → List Step → Option Text
walk_path c current [] = some current
walk_path c current (step ∷ path) = do next ← combine c current step; walk_path c next path

abbrev pub check_signature : Crypto → Option Bytes → Option Bytes → Option Bytes → Bool
check_signature c (some public_key) (some message) (some signature) =
    c.ed25519_verify public_key message signature
check_signature c _ _ _ = false

abbrev pub signed_ok : Crypto → InclusionProof → Bool
signed_ok c p =
    is_empty p.signature
    || (is_empty p.public_key
        || check_signature c (fromhex p.public_key) (fromhex p.root) (fromhex p.signature))

abbrev bound_to : Crypto → InclusionProof → Option Text → Bool
bound_to c p none = false
bound_to c p (some reached) =
    text_eq reached p.root
    && ((is_empty p.signed_root || text_eq reached p.signed_root) && signed_ok c p)

-- verify_inclusion_proof
unfoldable pub verify_inclusion_proof : Crypto → InclusionProof → Bool
verify_inclusion_proof c p = bound_to c p (walk_path c p.leaf_hash p.path)
