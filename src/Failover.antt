-- ===== src/Failover.antt =====
-- provable_ai/signer_failover.py: the signer that moves from a primary key to a fallback key and
-- back. The two signers behind it are other objects: what each call of them does is an argument,
-- a `Reply`. The probe thread is a phase of the state, and each of its locked sections is a step.
pub mod Invariant
pub mod Threshold
pub mod Race
mod Tests
use provable_ai.Base.{
  ℕ, ◌+◌, Bool, true, false, ◌&&◌, Option, none, some, List, [], ◌∷◌, length, leb, ◌==◌,
  if◌then◌else◌,
}

-- What a call of one of the two signers does: it returns, it raises one of `_FAILOVER_EXCEPTIONS`,
-- or it raises anything else.
pub data Reply (A : Type 0) : Type 0 where
  answered : A → Reply A
  unavailable : Reply A
  broken : Reply A

pub data Role : Type 0 where
  primary fallback : Role

-- Where the probe thread stands. `returning` has left the loop and is still alive.
pub data Probe : Type 0 where
  absent sleeping awake responded recovered returning : Probe

abbrev pub is_alive : Probe → Bool
is_alive absent = false
is_alive _ = true

-- class FailoverMetrics; a time is the number that the clock shows
pub record Metrics : Type 0 where
  pub failover_count : ℕ
  pub failback_count : ℕ
  pub primary_errors : ℕ
  pub fallback_errors : ℕ
  pub total_signs : ℕ
  pub consecutive_failures : ℕ
  pub last_failover_at : Option ℕ
  pub last_failback_at : Option ℕ

abbrev pub fresh_metrics : Metrics
fresh_metrics = record {
  failover_count = 0;
  failback_count = 0;
  primary_errors = 0;
  fallback_errors = 0;
  total_signs = 0;
  consecutive_failures = 0;
  last_failover_at = none;
  last_failback_at = none;
}

pub record_sign : Metrics → Metrics
record_sign m = record m { total_signs = m.total_signs + 1 }

pub record_primary_error : Metrics → Metrics
record_primary_error m = record m {
  primary_errors = m.primary_errors + 1;
  consecutive_failures = m.consecutive_failures + 1;
}

pub record_failover : ℕ → Metrics → Metrics
record_failover now m = record m {
  failover_count = m.failover_count + 1;
  last_failover_at = some now;
}

pub record_failback : ℕ → Metrics → Metrics
record_failback now m = record m {
  failback_count = m.failback_count + 1;
  consecutive_failures = 0;
  last_failback_at = some now;
}

pub record_fallback_error : Metrics → Metrics
record_fallback_error m = record m { fallback_errors = m.fallback_errors + 1 }

pub reset_consecutive : Metrics → Metrics
reset_consecutive m = record m { consecutive_failures = 0 }

-- class FailoverSigner
pub record Signer : Type 0 where
  pub max_consecutive : ℕ
  pub primary_healthy : Bool
  pub probe : Probe
  pub metrics : Metrics
  pub open metrics use *

pub init : ℕ → Signer
init max_consecutive_failures = record {
  max_consecutive = max_consecutive_failures;
  primary_healthy = true;
  probe = absent;
  metrics = fresh_metrics;
}

-- The signer whose key `get_public_key` and `get_key_id` return.
pub active : Signer → Role
active s = if s.primary_healthy then primary else fallback

pub start_health_probe : Signer → Signer
start_health_probe s = if is_alive s.probe then s else record s { probe = sleeping }

-- The part of `_handle_primary_failure` that holds the lock.
fail_over_if_due : ℕ → Signer → Signer
unfolding start_health_probe record_failover
fail_over_if_due now s =
    if leb s.max_consecutive s.consecutive_failures && s.primary_healthy
    then start_health_probe
        (record s { primary_healthy = false; metrics = record_failover now s.metrics })
    else s

pub handle_primary_failure : ℕ → Signer → Signer
unfolding fail_over_if_due record_primary_error
handle_primary_failure now s =
    fail_over_if_due now (record s { metrics = record_primary_error s.metrics })

-- How `sign_hash` ends: a signature and who made it, `ValueError` on a hash that is not 32 bytes,
-- the primary's own exception, or `SigningFailed` when the fallback raises.
pub data Outcome : Type 0 where
  signed : Role → List ℕ → Outcome
  value_error : Outcome
  primary_raised : Outcome
  signing_failed : Outcome

pub use_fallback : Reply (List ℕ) → Signer → Outcome × Signer
unfolding record_fallback_error
use_fallback (answered sig) s = (signed fallback sig, s)
use_fallback _ s = (signing_failed, record s { metrics = record_fallback_error s.metrics })

use_primary : ℕ → Reply (List ℕ) → Reply (List ℕ) → Signer → Outcome × Signer
unfolding reset_consecutive handle_primary_failure use_fallback
use_primary now (answered sig) f s =
    (signed primary sig, record s { metrics = reset_consecutive s.metrics })
use_primary now unavailable f s = use_fallback f (handle_primary_failure now s)
use_primary now broken f s = (primary_raised, s)

-- `p` and `f` say what the primary and the fallback do if they are called.
pub sign_hash : ℕ → List ℕ → Reply (List ℕ) → Reply (List ℕ) → Signer → Outcome × Signer
unfolding use_primary use_fallback record_sign
sign_hash now hash_bytes p f s =
    if length hash_bytes == 32
    then (let s' = record s { metrics = record_sign s.metrics } in
        if s.primary_healthy then use_primary now p f s' else use_fallback f s')
    else (value_error, s)

-- One locked section, or one call of the primary, of `_health_probe_loop`.
advance : Probe → ℕ → Reply (List ℕ) → Signer → Signer
unfolding record_failback
advance absent now r s = s
advance sleeping now r s = record s { probe = if s.primary_healthy then returning else awake }
advance awake now (answered key) s = record s { probe = responded }
advance awake now _ s = record s { probe = sleeping }
advance responded now r s = record s { primary_healthy = true; probe = recovered }
advance recovered now r s = record s { metrics = record_failback now s.metrics; probe = returning }
advance returning now r s = record s { probe = absent }

pub probe_step : ℕ → Reply (List ℕ) → Signer → Signer
unfolding advance
probe_step now r s = advance s.probe now r s

pub force_failover : ℕ → Signer → Signer
unfolding record_failover start_health_probe
force_failover now s =
    if s.primary_healthy
    then start_health_probe
        (record s { primary_healthy = false; metrics = record_failover now s.metrics })
    else s

pub force_failback : ℕ → Signer → Signer
unfolding record_failback
force_failback now s = record s { primary_healthy = true; metrics = record_failback now s.metrics }

-- What happens to a signer, in the order in which it happens.
pub data Event : Type 0 where
  sign : ℕ → List ℕ → Reply (List ℕ) → Reply (List ℕ) → Event
  probe_moves : ℕ → Reply (List ℕ) → Event
  operator_failover : ℕ → Event
  operator_failback : ℕ → Event

pub handle : Event → Signer → Signer
unfolding sign_hash probe_step force_failover force_failback
handle (sign now h p f) s = (sign_hash now h p f s).1
handle (probe_moves now r) s = probe_step now r s
handle (operator_failover now) s = force_failover now s
handle (operator_failback now) s = force_failback now s

pub run : List Event → Signer → Signer
run [] s = s
run (e ∷ es) s = run es (handle e s)
