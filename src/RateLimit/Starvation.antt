-- ===== src/RateLimit/Starvation.antt =====
-- What `RateLimiter.check` asks and what it charges: to whom a request is counted.
use provable_ai.Base.{
  Bool, ℕ, ◌≢◌, length, ◌≤◌, suc, replicate, true, ◌<◌, ◌≡◌, ltb, ◌++◌, false, ap, ◌+◌, zero, arith,
  ◌∷◌, ◌&&◌, refl, not, [], ◌||◌, List, ◌∙◌, Bool-cases, inl, ltb→lt, inr,
}
use provable_ai.Text.{Text, text_eq_iff}
use provable_ai.Dict.{lookup-insert}
use provable_ai.RateLimit.{
  RateLimiter, Action, read, write, Answer, pass, too_many, Scope, check, count_and_check,
  current_count, window_of, new_limiter, evict, Bool, ℕ,
}

abbrev pub is_write : Action → Bool
is_write write = true
is_write read = false

abbrev pub is_pass : Answer → Bool
is_pass pass = true
is_pass _ = false

-- A request passes exactly if fewer requests than the limit are recent in the global window, in the
-- tenant's and, for a write, in the tenant's window of writes.
pub check-pass :
    (now : ℕ) (t : Text) (action : Action) (r : RateLimiter)
    → is_pass (check now t action r).0 ≡ (
        ltb (current_count now r.global) r.global_rpm
        && (ltb (current_count now (window_of t r.tenant)) r.tenant_rpm
            && (not (is_write action)
                || ltb (current_count now (window_of t r.tenant_writes)) r.decision_rpm)))
unfolding check current_count
check-pass now t read r = ground arith
check-pass now t write r = ground arith

-- A request of one tenant leaves the windows of every other tenant as they are.
pub check_others :
    (now : ℕ) (t u : Text) (action : Action) (r : RateLimiter)
    → t ≢ u
    → let r' = (check now t action r).1 in
      (window_of u r'.tenant ≡ window_of u r.tenant)
      × (window_of u r'.tenant_writes ≡ window_of u r.tenant_writes)
unfolding check
check_others now t u read r ne =
    let w = (count_and_check now r.tenant_rpm (window_of t r.tenant)).1 in
    ground (arith, text_eq_iff t u, lookup-insert t u w r.tenant)
check_others now t u write r ne =
    let w = (count_and_check now r.tenant_rpm (window_of t r.tenant)).1 in
    let v = (count_and_check now r.decision_rpm (window_of t r.tenant_writes)).1 in
    ground
      (arith, text_eq_iff t u, lookup-insert t u w r.tenant, lookup-insert t u v r.tenant_writes)

check-global :
    (now : ℕ) (t : Text) (action : Action) (r : RateLimiter)
    → let r' = (check now t action r).1 in
      (r'.global ≡ (count_and_check now r.global_rpm r.global).1) × (r'.global_rpm ≡ r.global_rpm)
unfolding check
check-global now t read r = ground arith
check-global now t write r = ground arith

-- `n` requests of one tenant at one time
pub flood : ℕ → ℕ → Text → Action → RateLimiter → RateLimiter
flood zero now t action r = r
flood (suc n) now t action r = flood n now t action (check now t action r).1

replicate-snoc : (n a : ℕ) → replicate n a ++ a ∷ [] ≡ replicate (suc n) a
replicate-snoc zero a = refl
replicate-snoc (suc n) a = ap (λ (w : List ℕ). a ∷ w) (replicate-snoc n a)

evict-replicate : (n now : ℕ) → evict now (replicate n now) ≡ replicate n now
unfolding evict
evict-replicate zero now = refl
evict-replicate (suc n) now = ground (arith, evict-replicate n now)

length-replicate : (n a : ℕ) → length (replicate n a) ≡ n
length-replicate zero a = refl
length-replicate (suc n) a = ap suc (length-replicate n a)

charge :
    (now limit k : ℕ)
    → k < limit
    → (count_and_check now limit (replicate k now)).1 ≡ replicate (suc k) now
unfolding count_and_check
charge now limit k h =
    ground (arith, evict-replicate k now, length-replicate k now, replicate-snoc k now)

full : (now limit : ℕ) → (count_and_check now limit (replicate limit now)).1 ≡ replicate limit now
unfolding count_and_check
full now limit = ground (arith, evict-replicate limit now, length-replicate limit now)

flood-global :
    (n now g k : ℕ) (t : Text) (action : Action) (r : RateLimiter)
    → k ≤ g
    → g ≤ k + n
    → r.global_rpm ≡ g
    → r.global ≡ replicate k now
    → let r' = flood n now t action r in (r'.global ≡ replicate g now) × (r'.global_rpm ≡ g)
unfolding flood
flood-global zero now g k t action r le ge eg e =
    (e ∙ ap (λ (m : ℕ). replicate m now) (omega arith), eg)
flood-global (suc n) now g k t action r le ge eg e =
    let r' = (check now t action r).1 in
    let (cg, cr) = check-global now t action r in
    let charged =
      cg
      ∙ ap (λ (w : List ℕ). (count_and_check now r.global_rpm w).1) e
      ∙ ap (λ (m : ℕ). (count_and_check now m (replicate k now)).1) eg in
    elim (Bool-cases (ltb k g)) [
      | inl below ↦
          flood-global n now g (suc k) t action r' (ltb→lt k g below) (omega arith) (cr ∙ eg)
            (charged ∙ charge now g k (ltb→lt k g below))
      | inr at_limit ↦
          let same : k ≡ g = ground arith in
          flood-global n now g g t action r' (omega arith) (omega arith) (cr ∙ eg) (
            charged ∙ ap (λ (m : ℕ). (count_and_check now g (replicate m now)).1) same ∙ full now g)
    ]

refused_full :
    (now g : ℕ) (u : Text) (b : Action) (r : RateLimiter)
    → r.global_rpm ≡ suc g
    → r.global ≡ replicate (suc g) now
    → (check now u b r).0 ≡ too_many Scope.global 61
unfolding check evict
refused_full now g u b r eg e = ground (arith, evict-replicate g now, length-replicate g now)

-- One tenant can lock out all others: once it has sent as many requests as the global limit,
-- refused ones included, every request of every tenant at that time is refused by the global
-- window, however small the share is that each tenant may use.
pub flood_starves :
    (n now g tenant_rpm decision_rpm : ℕ) (t u : Text) (a b : Action)
    → 0 < g
    → g ≤ n
    → (check now u b (flood n now t a (new_limiter g tenant_rpm decision_rpm))).0
      ≡ too_many Scope.global 61
flood_starves n now zero tenant_rpm decision_rpm t u a b pos enough = absurd (omega arith)
flood_starves n now (suc g) tenant_rpm decision_rpm t u a b pos enough =
    let (e, eg) =
      flood-global n now (suc g) 0 t a (new_limiter (suc g) tenant_rpm decision_rpm) (omega arith)
        (omega arith) refl refl in
    refused_full now g u b (flood n now t a (new_limiter (suc g) tenant_rpm decision_rpm)) eg e
