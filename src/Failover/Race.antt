-- ===== src/Failover/Race.antt =====
-- The window of `FailoverSigner` in which the health probe is still alive and has made its last
-- test: a failover there starts no probe, since `_start_health_probe` asks only `is_alive()`.
use provable_ai.Base.{
  ◌≡◌, Bool, List, ℕ, ◌∷◌, length, false, true, arith, ◌≤◌, replicate, ◌+◌, [], refl, ◌⊎◌,
}
use provable_ai.Failover.{
  Signer, primary, fallback, Reply, answered, unavailable, active, Probe, absent, sleeping, awake,
  responded, recovered, returning, probe_step, Event, handle, run, sign, probe_moves,
  operator_failover, operator_failback,
}

-- The probe will test the primary again, or has its answer.
abbrev pub is_looping : Probe → Bool
is_looping sleeping = true
is_looping awake = true
is_looping responded = true
is_looping _ = false

-- The probe is alive and will not test again.
abbrev pub in_window : Probe → Bool
in_window recovered = true
in_window returning = true
in_window _ = false

-- The primary is up, or a probe is looking for it.
abbrev pub IsWatched : Signer → Type 0
IsWatched s = (s.primary_healthy ≡ true) ⊎ (is_looping s.probe ≡ true)

probe_step-IsWatched :
    (p : Probe) (now : ℕ) (r : Reply (List ℕ)) (s : Signer)
    → s.probe ≡ p
    → in_window p ≡ false
    → IsWatched s
    → IsWatched (probe_step now r s)
unfolding probe_step
probe_step-IsWatched absent now r s e out w = ground arith
probe_step-IsWatched _ now r s e out w = ground arith

-- Outside that window every event keeps a signer watched: afterwards the primary is up, or a probe
-- is looking for it.
pub handle-IsWatched :
    (e : Event) (s : Signer) → in_window s.probe ≡ false → IsWatched s → IsWatched (handle e s)
unfolding handle
handle-IsWatched (sign now h p f) s out w = ground arith
handle-IsWatched (probe_moves now r) s out w = probe_step-IsWatched s.probe now r s refl out w
handle-IsWatched (operator_failover now) s out w = ground arith
handle-IsWatched (operator_failback now) s out w = ground arith

-- A watched signer whose primary is down is back on the primary after at most three probe steps in
-- which the primary answers.
pub probe_recovers :
    (now : ℕ) (key : List ℕ) (s : Signer)
    → s.primary_healthy ≡ false
    → IsWatched s
    → (n : ℕ) × (n ≤ 3) × (active (run (replicate n (probe_moves now (answered key))) s) ≡ primary)
unfolding run handle active
probe_recovers now key s isdown w = recovers s.probe refl
  where
    recovers :
        (p : Probe)
        → s.probe ≡ p
        → (n : ℕ) × (n ≤ 3)
          × (active (run (replicate n (probe_moves now (answered key))) s) ≡ primary)
    recovers sleeping e = (3, omega arith, ground arith)
    recovers awake e = (2, omega arith, ground arith)
    recovers responded e = (1, omega arith, ground arith)
    recovers absent e = ground arith
    recovers recovered e = ground arith
    recovers returning e = ground arith

-- No operator command to fail back.
abbrev pub Unattended : List Event → Type 0
Unattended [] = Unit
Unattended (operator_failback now ∷ es) = ⊥
Unattended (e ∷ es) = Unattended es

-- Down, with no probe that will test the primary.
abbrev pub IsStranded : Signer → Type 0
IsStranded s = (s.primary_healthy ≡ false) × (is_looping s.probe ≡ false)

probe_step-IsStranded :
    (p : Probe) (now : ℕ) (r : Reply (List ℕ)) (s : Signer)
    → s.probe ≡ p
    → IsStranded s
    → IsStranded (probe_step now r s)
unfolding probe_step
probe_step-IsStranded absent now r s e w = ground arith
probe_step-IsStranded _ now r s e w = ground arith

run-IsStranded :
    (es : List Event) (s : Signer) → Unattended es → IsStranded s → IsStranded (run es s)
unfolding run handle
run-IsStranded [] s u st = st
run-IsStranded (sign now h p f ∷ es) s u st =
    run-IsStranded es (handle (sign now h p f) s) u (ground arith)
run-IsStranded (probe_moves now r ∷ es) s u st =
    run-IsStranded es (probe_step now r s) u (probe_step-IsStranded s.probe now r s refl st)
run-IsStranded (operator_failover now ∷ es) s u st =
    run-IsStranded es (handle (operator_failover now) s) u (ground arith)
run-IsStranded (operator_failback now ∷ es) s u st = absurd u

-- If the primary fails for the limit's time while the probe has just restored it, or is returning,
-- the signer goes to the fallback and stays there, whatever is signed and whatever the probe and a
-- recovered primary do, until an operator fails back.
pub window_strands :
    (now : ℕ) (h : List ℕ) (f : Reply (List ℕ)) (s : Signer) (es : List Event)
    → length h ≡ 32
    → s.primary_healthy ≡ true
    → in_window s.probe ≡ true
    → s.max_consecutive ≤ s.consecutive_failures + 1
    → Unattended es
    → active (run (sign now h unavailable f ∷ es) s) ≡ fallback
unfolding run active
window_strands now h f s es is32 up w limit u =
    let start = handle (sign now h unavailable f) s in
    let stranded : IsStranded start = unfold handle in ground arith in
    ground (arith, run-IsStranded es start u stranded)
