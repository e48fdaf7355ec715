-- ===== src/Failover/Invariant.antt =====
-- What every history of calls and probe steps of `FailoverSigner` keeps, and who signs when
-- `sign_hash` is called.
use provable_ai.Base.{ℕ, ◌+◌, ◌≤◌, ◌≡◌, refl, Bool, true, false, List, [], ◌∷◌, arith}
use provable_ai.Failover.{
  Signer, Reply, init, probe_step, Event, handle, run, sign, probe_moves, operator_failover,
  operator_failback, absent, recovered, Probe,
}

abbrev pub down : Bool → ℕ
down true = 0
down false = 1

-- A failback that the probe has made and not counted yet.
abbrev pub uncounted : Probe → ℕ
uncounted recovered = 1
uncounted _ = 0

-- The counters agree with one another and with the mode.
pub record IsValid (s : Signer) : Type 0 where
  pub consecutive : s.consecutive_failures ≤ s.primary_errors
  pub errors : s.primary_errors ≤ s.total_signs
  pub fallback_errors : s.fallback_errors ≤ s.total_signs
  pub failovers : s.failover_count ≤ s.failback_count + down s.primary_healthy + uncounted s.probe

probe_step-IsValid :
    (p : Probe) (now : ℕ) (r : Reply (List ℕ)) (s : Signer)
    → s.probe ≡ p
    → IsValid s
    → IsValid (probe_step now r s)
unfolding probe_step
probe_step-IsValid absent now r s e v = ground arith
probe_step-IsValid _ now r s e v = ground arith

handle-IsValid : (e : Event) (s : Signer) → IsValid s → IsValid (handle e s)
unfolding handle
handle-IsValid (sign now h p f) s v = ground arith
handle-IsValid (probe_moves now r) s v = probe_step-IsValid s.probe now r s refl v
handle-IsValid (operator_failover now) s v = ground arith
handle-IsValid (operator_failback now) s v = ground arith

run_keeps-IsValid : (es : List Event) (s : Signer) → IsValid s → IsValid (run es s)
unfolding run
run_keeps-IsValid [] s v = v
run_keeps-IsValid (e ∷ es) s v = run_keeps-IsValid es (handle e s) (handle-IsValid e s v)

-- After any history of signing calls, probe steps and operator commands, on a new signer: the
-- consecutive failures are at most the primary's errors, these and the fallback's errors are at
-- most the signing calls, and there is at most one failover more than there are failbacks, counted
-- or made by the probe and not yet counted, and that one only while the primary is down.
pub run-IsValid : (max : ℕ) (es : List Event) → IsValid (run es (init max))
run-IsValid max es = run_keeps-IsValid es (init max) (unfold init in ground arith)
