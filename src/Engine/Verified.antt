-- ===== src/Engine/Verified.antt =====
-- When a recorded decision verifies offline, provable_ai/verifier.py.
use provable_ai.Storage.Append.{IsValid}
use provable_ai.Canonical.Hashes.{is_valid_hash_digest}
use provable_ai.Base.Result.{Result-cases, Result, err}
use provable_ai.Schema.{strict_deterministic, replay_with_seed, model_validate, Reader}
use provable_ai.Verifier.{determinism_consistent, is_none, calls_hash_ok, verify_proof}
use provable_ai.Engine.{
  Request, calls_hash, Crypto, Text, check_determinism, no_text, replay_with_recorded_io,
  DeterminismMode, Determinism, no_items, ok, Value, obj, hash_raw, field, text_key, is_valid_hash,
  codes, arr, end, Signer, ProofV1, Row, Db, proof_dump, record_decision, EngineError,
}
use provable_ai.Engine.Build.{IsSealed}
use provable_ai.Engine.SubModels.{hash_raw-IsDigest}
use provable_ai.Engine.Recorded.{IsRecorded, Outcome, record_decision-Outcome, chain_before}
use provable_ai.Verifier.Sound.{IsSound, IsSound→proof, proof→IsSound, IsStart}
use provable_ai.Storage.Chain.{last_hash}
use provable_ai.Base.{
  ◌≡◌, true, Option, Bool, false, arith, some, none, refl, inr, inl, ℕ, List, ◌∙◌, length, ◌+◌, ◌∷◌,
  [], Bool-cases, sym, subst,
}

-- The requests that the verifier's determinism rules allow: an unused seed is refused.
unfoldable pub replayable : Request → Bool
replayable r = elim r.determinism_mode [
  | strict_deterministic ↦ is_none r.random_seed
  | replay_with_seed ↦ true
  | replay_with_recorded_io ↦ true
]

present_text : (o : Option Text) → no_text o ≡ false → is_none o ≡ false
present_text none h = absurd (ground arith)
present_text (some t) h = refl

abbrev calls_value : Request → Value
calls_value r = obj (field (text_key (codes "calls")) (arr r.external_calls) end)

recorded_calls-ok :
    (c : Crypto) (r : Request) (calls : Option Text)
    → r.determinism_mode ≡ replay_with_recorded_io
    → no_items r.external_calls ≡ false
    → calls_hash c r ≡ ok calls
    → calls_hash_ok calls ≡ true
unfolding calls_hash
recorded_calls-ok c r calls mode some_calls h = elim (Result-cases (hash_raw c (calls_value r))) [
  | inr (e, refused) ↦ absurd (ground arith)
  | inl (t, e) ↦
      let digest : is_valid_hash t ≡ true =
        is_valid_hash_digest t (hash_raw-IsDigest c (calls_value r) e) in
      ground (arith, digest)
]

consistent_as :
    (c : Crypto) (m : DeterminismMode) (r : Request) (d : Determinism)
    → r.determinism_mode ≡ m
    → d.mode ≡ m
    → d.seed ≡ r.random_seed
    → calls_hash c r ≡ ok d.external_calls_hash
    → check_determinism r ≡ ok tt
    → determinism_consistent d ≡ replayable r
unfolding determinism_consistent replayable check_determinism calls_hash
consistent_as c strict_deterministic r d em ed es ec checked = ground arith
consistent_as c replay_with_seed r d em ed es ec checked =
    let given : no_text r.random_seed ≡ false = ground arith in
    ground (arith, present_text r.random_seed given)
consistent_as c replay_with_recorded_io r d em ed es ec checked =
    let given : no_items r.external_calls ≡ false = ground arith in
    ground (arith, recorded_calls-ok c r d.external_calls_hash em given ec)

-- Whether a sealed proof says of its determinism what the verifier asks.
pub IsSealed-consistent :
    {c : Crypto} {prev : Text} {n : ℕ} {r : Request} {p : ProofV1}
    → IsSealed c prev n r p
    → check_determinism r ≡ ok tt
    → determinism_consistent p.determinism ≡ replayable r
IsSealed-consistent {c} {prev} {n} {r} {p} h checked =
    consistent_as c r.determinism_mode r p.determinism refl h.mode h.seed h.calls checked

pub IsSealed-IsSound :
    {c : Crypto} {prev : Text} {n : ℕ} {r : Request} {p : ProofV1}
    → IsSealed c prev n r p
    → check_determinism r ≡ ok tt
    → replayable r ≡ true
    → IsSound c prev n p
IsSealed-IsSound h checked fit = record {
  hashed = h.hashed;
  message = h.message;
  sign_bytes = h.sign_bytes;
  signed = h.signed;
  previous = h.previous;
  sequence = h.sequence;
  consistent = IsSealed-consistent h checked ∙ fit;
}

-- The dump of a sealed proof is validated to the proof, where it is read back as the proof.
pub IsSealed-model_validate :
    {c : Crypto} {prev : Text} {n : ℕ} {r : Request} {p : ProofV1} (read : Reader)
    → IsSealed c prev n r p
    → read (proof_dump p) ≡ some p
    → model_validate read (proof_dump p) ≡ some p
unfolding model_validate
IsSealed-model_validate read h back = ground (arith, back, h.validated)

next-IsStart : (rows : List Row) → IsStart (last_hash rows) (length rows + 1)
next-IsStart [] one = refl
next-IsStart (r ∷ rs) one = absurd (omega arith)

pub recorded :
    {c : Crypto} (db : Db) (r : Request) (p : ProofV1) (o : Db × Result EngineError ProofV1)
    → Outcome c db r o
    → o.1 ≡ ok p
    → IsRecorded c db o.0 r p
recorded {c} db r p (after, ok q) h e =
    let same : q ≡ p = ground arith in subst (IsRecorded c db after r) same h
recorded db r p (after, err e') h e = absurd (ground arith)

-- A proof that is sealed at a place verifies there if its request is replayable.
IsSealed-verify_proof :
    {c : Crypto} (read : Reader) (at prev : Text) (n : ℕ) (r : Request) (p : ProofV1)
    → IsStart prev n
    → IsSealed c prev n r p
    → check_determinism r ≡ ok tt
    → read (proof_dump p) ≡ some p
    → (verify_proof c read at (proof_dump p) (some prev) (some n)).valid ≡ replayable r
IsSealed-verify_proof {c} read at prev n r p start h checked back =
    let read_back : model_validate read (proof_dump p) ≡ some p =
      IsSealed-model_validate read h back in
    elim (Bool-cases (verify_proof c read at (proof_dump p) (some prev) (some n)).valid) [
      | inl valid ↦
          let (q, e, sound) = proof→IsSound c read at prev n (proof_dump p) start valid in
          let same : q ≡ p = ground (arith, e, read_back) in
          let fit : replayable r ≡ true =
            sym (IsSealed-consistent h checked)
            ∙ subst (λ (x : ProofV1). determinism_consistent x.determinism ≡ true) same
                sound.consistent in
          valid ∙ sym fit
      | inr invalid ↦ elim (Bool-cases (replayable r)) [
        | inr unfit ↦ invalid ∙ sym unfit
        | inl fit ↦
            let valid =
              IsSound→proof c read at prev n (proof_dump p) p start read_back
                (IsSealed-IsSound h checked fit) in
            valid ∙ sym fit
      ]
    ]

-- A decision that was recorded from valid tables gives a proof which, read back from its dump,
-- verifies offline at the end of the chain of its instance exactly if the request is replayable,
-- that is unless it gave a seed in the strict mode.
pub record_decision-verify_proof :
    {c : Crypto} (s : Signer c) (now : Text) (db : Db) (r : Request) (p : ProofV1) (read : Reader)
    (at : Text)
    → IsValid db
    → (record_decision s now db r).1 ≡ ok p
    → read (proof_dump p) ≡ some p
    → (verify_proof c read at
        (proof_dump p)
        (some (last_hash (chain_before db r)))
        (some (length (chain_before db r) + 1))).valid
      ≡ replayable r
record_decision-verify_proof {c} s now db r p read at v h back =
    let done =
      recorded db r p (record_decision s now db r) (record_decision-Outcome s now db r v) h in
    IsSealed-verify_proof read at (last_hash (chain_before db r)) (length (chain_before db r) + 1) r
      p (next-IsStart (chain_before db r)) done.sealed done.checked back
