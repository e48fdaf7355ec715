-- ===== src/RateLimit.antt =====
-- server/rate_limit.py: sliding windows of 60 seconds, and the limiter that asks three of them.
-- Times are nanoseconds of the monotonic clock; the source's floats carry the same numbers.
pub mod Window
pub mod Starvation
mod Tests
use provable_ai.Base.{
  ℕ, ◌+◌, ◌-◌, ◌*◌, ◌/◌, Bool, true, false, List, [], ◌∷◌, ◌++◌, length, ltb, leb, if◌then◌else◌,
  none, some,
}
use provable_ai.Text.{Text, codes, text_eq}
use provable_ai.Dict.{Dict, lookup, insert}

abbrev pub second : ℕ
second = 1_000_000_000

abbrev pub window_length : ℕ
window_length = 60 * second

-- `t > now - 60.0`
abbrev pub is_recent : ℕ → ℕ → Bool
is_recent now t = ltb now (t + window_length)

unfoldable pub evict : ℕ → List ℕ → List ℕ
evict now [] = []
evict now (t ∷ w) = if is_recent now t then t ∷ evict now w else evict now w

-- The result of `count_and_check`. With a limit of 0 `self.timestamps[0]` can raise IndexError.
pub data Verdict : Type 0 where
  allowed : Verdict
  refused : ℕ → Verdict
  index_error : Verdict

-- int(60 - (now - oldest)) + 1
abbrev pub retry_after : ℕ → ℕ → ℕ
retry_after now oldest = (window_length + oldest - now) / second + 1

refusal : ℕ → List ℕ → Verdict
refusal now [] = index_error
refusal now (oldest ∷ w) = refused (retry_after now oldest)

decide : ℕ → ℕ → List ℕ → Verdict × List ℕ
unfolding refusal
decide now limit w = if leb limit (length w) then (refusal now w, w) else (allowed, w ++ now ∷ [])

pub count_and_check : ℕ → ℕ → List ℕ → Verdict × List ℕ
unfolding decide
count_and_check now limit w = decide now limit (evict now w)

pub current_count : ℕ → List ℕ → ℕ
unfolding evict
current_count now w = length (evict now w)

pub record RateLimiter : Type 0 where
  pub global_rpm : ℕ
  pub tenant_rpm : ℕ
  pub decision_rpm : ℕ
  pub global : List ℕ
  pub tenant : Dict (List ℕ)
  pub tenant_writes : Dict (List ℕ)

pub data Action : Type 0 where
  read write : Action

pub data Scope : Type 0 where
  global tenant tenant_decisions : Scope

-- `check` returns, or raises 429 with the scope and the seconds to wait, or IndexError.
pub data Answer : Type 0 where
  pass : Answer
  too_many : Scope → ℕ → Answer
  crash : Answer

-- `self._tenant[tenant_id]` of a defaultdict
abbrev pub window_of : Text → Dict (List ℕ) → List ℕ
window_of k d = elim (lookup k d) [ none ↦ [] | some w ↦ w ]

abbrev answer : Scope → Verdict → Answer → Answer
answer scope allowed next = next
answer scope (refused retry) next = too_many scope retry
answer scope index_error next = crash

abbrev is_allowed : Verdict → Bool
is_allowed allowed = true
is_allowed _ = false

-- Layer 3, the writes of a tenant.
check_writes : ℕ → Text → Action → RateLimiter → Answer × RateLimiter
unfolding count_and_check
check_writes now tenant_id read r = (pass, r)
check_writes now tenant_id write r =
    let (v, w) = count_and_check now r.decision_rpm (window_of tenant_id r.tenant_writes) in
    (
      answer tenant_decisions v pass,
      record r { tenant_writes = insert tenant_id w r.tenant_writes },
    )

-- Layer 1, the requests of a tenant.
check_tenant : ℕ → Text → Action → RateLimiter → Answer × RateLimiter
unfolding count_and_check check_writes
check_tenant now tenant_id action r =
    let (v, w) = count_and_check now r.tenant_rpm (window_of tenant_id r.tenant) in
    let r' = record r { tenant = insert tenant_id w r.tenant } in
    if is_allowed v then check_writes now tenant_id action r' else (answer tenant v pass, r')

-- Layer 2, all requests, is asked first.
pub check : ℕ → Text → Action → RateLimiter → Answer × RateLimiter
unfolding count_and_check check_tenant
check now tenant_id action r =
    let (v, w) = count_and_check now r.global_rpm r.global in
    let r' = record r { global = w } in
    if is_allowed v then check_tenant now tenant_id action r' else (answer global v pass, r')

abbrev pub new_limiter : ℕ → ℕ → ℕ → RateLimiter
new_limiter global_rpm tenant_rpm decision_rpm = record {
  global_rpm = global_rpm;
  tenant_rpm = tenant_rpm;
  decision_rpm = decision_rpm;
  global = [];
  tenant = [];
  tenant_writes = [];
}
