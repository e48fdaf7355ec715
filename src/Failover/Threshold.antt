-- ===== src/Failover/Threshold.antt =====
-- When `sign_hash` of `FailoverSigner` moves to the fallback, and whose key it reports meanwhile.
use provable_ai.Base.{
  ℕ, zero, suc, ◌+◌, ◌≤◌, ◌<◌, ◌≡◌, refl, true, false, List, arith, length, replicate, ltb, min,
  if◌then◌else◌, ◌∙◌, ◌&&◌, ◌-◌, Bool-cases, inl, ltb→lt, inr,
}
use provable_ai.Failover.{
  Signer, primary, fallback, answered, unavailable, signed, init, active, sign_hash, Event, handle,
  run, sign, Reply,
}

module _ (now : ℕ) (h sig : List ℕ) (s : Signer) (is32 : length h ≡ 32) where
  -- While the primary is healthy and answers, its signature is returned, its key is the one that is
  -- reported, and the run of failures ends.
  pub sign_hash_primary :
      (f : Reply (List ℕ))
      → s.primary_healthy ≡ true
      → let (out, s') = sign_hash now h (answered sig) f s in
        (out ≡ signed primary sig) × (active s' ≡ primary) × (s'.consecutive_failures ≡ 0)
  unfolding sign_hash active
  sign_hash_primary f up = ground arith

  -- If the primary is unavailable and the fallback answers, the call returns the fallback's
  -- signature. The key that is reported afterwards is the fallback's if the primary was down
  -- already or this failure reaches the limit, and the primary's otherwise.
  pub sign_hash_fallback :
      let (out, s') = sign_hash now h unavailable (answered sig) s in
      (out ≡ signed fallback sig)
      × (active s' ≡ (
          if s.primary_healthy && ltb (s.consecutive_failures + 1) s.max_consecutive
          then primary
          else fallback))
  unfolding sign_hash active
  sign_hash_fallback = ground arith

abbrev pub outage : ℕ → List ℕ → List ℕ → Event
outage now h sig = sign now h unavailable (answered sig)

module _ (now : ℕ) (h sig : List ℕ) (is32 : length h ≡ 32) where
  outage_below :
      (s : Signer)
      → s.primary_healthy ≡ true
      → s.consecutive_failures + 1 < s.max_consecutive
      → let s' = handle (outage now h sig) s in
        (s'.primary_healthy ≡ true)
        × (s'.consecutive_failures ≡ s.consecutive_failures + 1)
        × (s'.max_consecutive ≡ s.max_consecutive)
        × (s'.primary_errors ≡ s.primary_errors + 1)
  unfolding handle
  outage_below s up below = ground arith

  outage_reaches :
      (s : Signer)
      → s.primary_healthy ≡ true
      → s.max_consecutive ≤ s.consecutive_failures + 1
      → let s' = handle (outage now h sig) s in
        (s'.primary_healthy ≡ false) × (s'.primary_errors ≡ s.primary_errors + 1)
  unfolding handle
  outage_reaches s up reach = ground arith

  outage_down :
      (s : Signer)
      → s.primary_healthy ≡ false
      → let s' = handle (outage now h sig) s in
        (s'.primary_healthy ≡ false) × (s'.primary_errors ≡ s.primary_errors)
  unfolding handle
  outage_down s isdown = ground arith

  outages_down :
      (n : ℕ) (s : Signer)
      → s.primary_healthy ≡ false
      → let s' = run (replicate n (outage now h sig)) s in
        (s'.primary_healthy ≡ false) × (s'.primary_errors ≡ s.primary_errors)
  unfolding run
  outages_down zero s isdown = (isdown, refl)
  outages_down (suc n) s isdown =
      let (d, e) = outage_down s isdown in
      let (d', e') = outages_down n (handle (outage now h sig) s) d in (d', e' ∙ e)

  outages :
      (n : ℕ) (s : Signer)
      → s.primary_healthy ≡ true
      → s.consecutive_failures < s.max_consecutive
      → let s' = run (replicate n (outage now h sig)) s in
        (s'.primary_healthy ≡ ltb (s.consecutive_failures + n) s.max_consecutive)
        × (s'.primary_errors
            ≡ s.primary_errors + min n (s.max_consecutive - s.consecutive_failures))
  unfolding run
  outages zero s up below = (ground arith, omega arith)
  outages (suc n) s up below =
      elim (Bool-cases (ltb (s.consecutive_failures + 1) s.max_consecutive)) [
        | inl more ↦
            ground
              (arith, outage_below s up (ltb→lt _ _ more), outages n (handle (outage now h sig) s))
        | inr reached ↦ ground (
          arith,
          outage_reaches s up (ground arith),
          outages_down n (handle (outage now h sig) s),
        )
      ]

-- During an outage of the primary, with a fallback that answers, a new signer whose limit is at
-- least 1 is on the primary after `n` calls exactly while `n` is below the limit; the primary is
-- asked once in each of the first `limit` calls and not again.
pub outage_threshold :
    (max n now : ℕ) (h sig : List ℕ)
    → length h ≡ 32
    → 0 < max
    → let s = run (replicate n (outage now h sig)) (init max) in
      (s.primary_healthy ≡ ltb n max) × (s.primary_errors ≡ min n max)
outage_threshold max n now h sig is32 positive =
    let start : (let s = run (replicate n (outage now h sig)) (init max) in
        (s.primary_healthy ≡ ltb (0 + n) max) × (s.primary_errors ≡ 0 + min n (max - 0))) =
      unfold init in outages now h sig is32 n (init max) refl positive in
    ground arith
