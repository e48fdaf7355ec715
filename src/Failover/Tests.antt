-- ===== src/Failover/Tests.antt =====
-- Runs of `FailoverSigner`, and the theorems about it at concrete histories.
use provable_ai.Base.{ℕ, ◌≡◌, refl, true, List, [], ◌∷◌, arith, replicate, ◌≤◌}
use provable_ai.Failover.{
  Signer, primary, fallback, answered, unavailable, signed, init, active, sign_hash, Event, handle,
  run, sign, probe_moves, operator_failover, recovered,
}
use provable_ai.Failover.Invariant.{IsValid, run-IsValid}
use provable_ai.Failover.Threshold.{outage, sign_hash_fallback}
use provable_ai.Failover.Race.{IsWatched, handle-IsWatched, probe_recovers, window_strands}

abbrev hash : List ℕ
hash = replicate 32 7

-- Two failures, and the probe finds the primary again and has not counted that yet.
abbrev history : List Event
history =
    outage 1 hash (5 ∷ [])
    ∷ outage 2 hash (5 ∷ [])
    ∷ probe_moves 60 unavailable
    ∷ probe_moves 60 unavailable
    ∷ probe_moves 120 unavailable
    ∷ probe_moves 120 (answered (9 ∷ []))
    ∷ probe_moves 120 unavailable
    ∷ []

abbrev restored : Signer
restored = run history (init 2)

restored_window : restored.probe ≡ recovered
unfolding run handle init
restored_window = refl

restored_up : restored.primary_healthy ≡ true
unfolding run handle init
restored_up = refl

run-IsValid_example : IsValid (run history (init 2))
run-IsValid_example = run-IsValid 2 history

-- The first failure: the fallback has signed, and the primary's key is reported.
sign_hash_fallback_example :
    let (out, s') = sign_hash 0 hash unavailable (answered (5 ∷ [])) (init 2) in
    (out ≡ signed fallback (5 ∷ [])) × (active s' ≡ primary)
unfolding init
sign_hash_fallback_example = sign_hash_fallback 0 hash (5 ∷ []) (init 2) refl

handle-IsWatched_example : IsWatched (handle (operator_failover 3) (init 2))
unfolding init
handle-IsWatched_example = handle-IsWatched (operator_failover 3) (init 2) refl (ground arith)

probe_recovers_example :
    (n : ℕ) × (n ≤ 3)
    × (active (
          run
            (replicate n (probe_moves 60 (answered (9 ∷ []))))
            (handle (operator_failover 3) (init 2)))
        ≡ primary)
unfolding init handle
probe_recovers_example =
    probe_recovers 60 (9 ∷ []) (handle (operator_failover 3) (init 2)) refl (ground arith)

window_strands_example :
    active (
      run
        (outage 121 hash (5 ∷ [])
          ∷ probe_moves 180 (answered (9 ∷ []))
          ∷ sign 200 hash (answered (4 ∷ [])) (answered (5 ∷ []))
          ∷ [])
        restored)
    ≡ fallback
unfolding run handle init
window_strands_example =
    window_strands 121 hash (answered (5 ∷ [])) restored
      (probe_moves 180 (answered (9 ∷ []))
        ∷ sign 200 hash (answered (4 ∷ [])) (answered (5 ∷ []))
        ∷ [])
      refl restored_up refl (omega arith) tt
