-- ===== src/Verifier/Sound.antt =====
-- What it means that verifier.py calls a proof, or a chain of proofs, valid.
use provable_ai.Base.Result.{Result-cases}
use provable_ai.Base.{
  ℕ, ◌≡◌, some, true, ◌↔◌, arith, ◌&&◌, not, ◌==◌, Option-cases, inl, inr, List, ◌∙◌, ◌+◌, ◌∷◌, ◌≢◌,
  ap, [], none, refl,
}
use provable_ai.Text.{Text, Bytes, text_eq, text_eq_iff, text_eq_refl, text_eq→eq, codes}
use provable_ai.Crypto.{Crypto}
use provable_ai.Verifier.{
  verify_links, ProofV1, ℕ, recompute_hash, ok, genesis_hash, to_sign_bytes, verify_ed25519,
  determinism_consistent, verify_model, verify_signed, verify_proof, verify_rest, Reader,
  verify_chain, Progress, Value, model_validate, update_progress,
}

links-valid :
    (at prev : Text) (n : ℕ) (p : ProofV1)
    → (verify_links at (some prev) (some n) p).valid ≡ (
        text_eq p.ledger.previous_hash prev
        && (not (p.ledger.sequence_id == 1 && not (text_eq p.ledger.previous_hash genesis_hash))
            && (p.ledger.sequence_id == n && determinism_consistent p.determinism)))
unfolding verify_links
links-valid at prev n p = ground arith

-- The places of a chain: the first is behind the genesis hash.
abbrev pub IsStart : Text → ℕ → Type 0
IsStart prev n = (n ≡ 1) → (prev ≡ genesis_hash)

links_iff :
    (at prev : Text) (n : ℕ) (p : ProofV1)
    → IsStart prev n
    → ((verify_links at (some prev) (some n) p).valid ≡ true) ↔ (
        (p.ledger.previous_hash ≡ prev)
        × (p.ledger.sequence_id ≡ n)
        × (determinism_consistent p.determinism ≡ true))
links_iff at prev n p start = rw links-valid (
    ground (
      arith,
      text_eq_iff p.ledger.previous_hash prev,
      text_eq_iff p.ledger.previous_hash genesis_hash,
      start,
    ))

-- What `verify_proof` asks of a validated proof at place `n` behind the hash `prev`.
pub record IsSound (c : Crypto) (prev : Text) (n : ℕ) (p : ProofV1) : Type 0 where
  pub hashed : recompute_hash c p ≡ ok p.ledger.current_hash
  pub message : Bytes
  pub sign_bytes : to_sign_bytes p ≡ some message
  pub signed : verify_ed25519 c p.signature.public_key message p.signature.value ≡ true
  pub previous : p.ledger.previous_hash ≡ prev
  pub sequence : p.ledger.sequence_id ≡ n
  pub consistent : determinism_consistent p.determinism ≡ true

model-hashed :
    (c : Crypto) (at prev : Text) (n : ℕ) (p : ProofV1)
    → (verify_model c at (some prev) (some n) p).valid ≡ true
    → recompute_hash c p ≡ ok p.ledger.current_hash
unfolding verify_model
model-hashed c at prev n p h = elim (Result-cases (recompute_hash c p)) [
  | inl (t, e) ↦ e ∙ ap ok (text_eq→eq t p.ledger.current_hash (ground arith))
  | inr (r, e) ↦ absurd (ground arith)
]

model→IsSound :
    (c : Crypto) (at prev : Text) (n : ℕ) (p : ProofV1)
    → IsStart prev n
    → (verify_model c at (some prev) (some n) p).valid ≡ true
    → IsSound c prev n p
unfolding verify_model verify_signed
model→IsSound c at prev n p start h = elim (Option-cases (to_sign_bytes p)) [
  | inl unreadable ↦ absurd (ground arith)
  | inr (m, e) ↦
      let signed : verify_ed25519 c p.signature.public_key m p.signature.value ≡ true =
        ground arith in
      let linked : (verify_links at (some prev) (some n) p).valid ≡ true = ground arith in
      let (previous, sequence, consistent) = (links_iff at prev n p start).0 linked in
      record {
        hashed = model-hashed c at prev n p h;
        message = m;
        sign_bytes = e;
        signed = signed;
        previous = previous;
        sequence = sequence;
        consistent = consistent;
      }
]

IsSound→model :
    (c : Crypto) (at prev : Text) (n : ℕ) (p : ProofV1)
    → IsStart prev n
    → IsSound c prev n p
    → (verify_model c at (some prev) (some n) p).valid ≡ true
unfolding verify_model verify_signed
IsSound→model c at prev n p start s =
    let linked = (links_iff at prev n p start).1 (s.previous, s.sequence, s.consistent) in
    ground (arith, text_eq_refl p.ledger.current_hash, linked)

-- The dicts are validated proofs, each sound at its place: the first at place `n` behind the hash
-- `prev`, each later one behind the hash of the one before it.
abbrev pub IsLinked : Crypto → Reader → Text → ℕ → List Value → Type 0
IsLinked c read prev n [] = Unit
IsLinked c read prev n (d ∷ ds) =
    (p : ProofV1) × (model_validate read d ≡ some p)
    × IsSound c prev n p
    × IsLinked c read p.ledger.current_hash (n + 1) ds

pub proof→IsSound :
    (c : Crypto) (read : Reader) (at prev : Text) (n : ℕ) (d : Value)
    → IsStart prev n
    → (verify_proof c read at d (some prev) (some n)).valid ≡ true
    → (p : ProofV1) × (model_validate read d ≡ some p) × IsSound c prev n p
unfolding verify_proof
proof→IsSound c read at prev n d start h = elim (Option-cases (model_validate read d)) [
  | inl refused ↦ absurd (ground arith)
  | inr (p, e) ↦ (p, e, model→IsSound c at prev n p start (ground arith))
]

pub IsSound→proof :
    (c : Crypto) (read : Reader) (at prev : Text) (n : ℕ) (d : Value) (p : ProofV1)
    → IsStart prev n
    → model_validate read d ≡ some p
    → IsSound c prev n p
    → (verify_proof c read at d (some prev) (some n)).valid ≡ true
unfolding verify_proof
IsSound→proof c read at prev n d p start e s = ground (arith, IsSound→model c at prev n p start s)

rest→IsLinked :
    (c : Crypto) (read : Reader) (at : Text) (done : ℕ) (s : Progress) (ds : List Value)
    → IsStart s.last_hash (done + 1)
    → (verify_rest c read at done s ds).valid ≡ true
    → IsLinked c read s.last_hash (done + 1) ds
unfolding verify_rest
rest→IsLinked c read at done s [] start h = tt
rest→IsLinked c read at done s (d ∷ ds) start h =
    let here : (verify_proof c read at d (some s.last_hash) (some (done + 1))).valid ≡ true =
      ground arith in
    let (p, e, sound) = proof→IsSound c read at s.last_hash (done + 1) d start here in
    let later : (verify_rest c read at (done + 1) (update_progress s (some p)) ds).valid ≡ true =
      ground arith in
    (
      p,
      e,
      sound,
      rest→IsLinked c read at (done + 1) (update_progress s (some p)) ds
          (λ one. absurd (omega arith)) later,
    )

IsLinked→rest :
    (c : Crypto) (read : Reader) (at : Text) (done : ℕ) (s : Progress) (ds : List Value)
    → IsStart s.last_hash (done + 1)
    → IsLinked c read s.last_hash (done + 1) ds
    → (verify_rest c read at done s ds).valid ≡ true
unfolding verify_rest
IsLinked→rest c read at done s [] start l = refl
IsLinked→rest c read at done s (d ∷ ds) start (p, e, sound, l) = ground (
  arith,
  IsSound→proof c read at s.last_hash (done + 1) d p start e sound,
  IsLinked→rest c read at (done + 1) (update_progress s (some p)) ds (λ one. absurd (omega arith))
      l,
)

-- `verify_chain` calls a list of proofs valid exactly if it is not empty and each dict is a
-- validated proof whose stored hash is the hash of its content, whose signature verifies, whose
-- sequence_id is its place counted from 1, whose previous_hash is the hash of the proof before it
-- (the genesis hash for the first), and whose determinism fields fit its mode.
pub verify_chain-IsLinked :
    (c : Crypto) (read : Reader) (at : Text) (ds : List Value)
    → ((verify_chain c read at ds).valid ≡ true) ↔ ((ds ≢ []) × IsLinked c read genesis_hash 1 ds)
unfolding verify_chain
verify_chain-IsLinked c read at [] = (λ h. cc, λ p. absurd (p.0 refl))
verify_chain-IsLinked c read at (d ∷ ds) =
    let start : Progress = record {
      last_hash = genesis_hash;
      final_state = none;
      final_key_id = codes "unknown";
    } in
    (
      λ h. (λ e. cc, rest→IsLinked c read at 0 start (d ∷ ds) (λ one. refl) h),
      λ p. IsLinked→rest c read at 0 start (d ∷ ds) (λ one. refl) p.1,
    )
