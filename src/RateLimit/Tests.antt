-- ===== src/RateLimit/Tests.antt =====
-- Runs of the rate limiter, and the theorems about it at concrete requests.
use provable_ai.Base.{◌∷◌, ◌*◌, ◌≡◌, ◌≢◌, arith, [], refl, ◌≤◌, length, ◌↔◌, ◌<◌}
use provable_ai.Text.{Text, codes, text_eq}
use provable_ai.Dict.{lookup, insert}
use provable_ai.RateLimit.{
  RateLimiter, read, write, too_many, Scope, check, count_and_check, current_count, new_limiter,
  allowed, refused, second, ◌∷◌, evict, ◌*◌, text_eq, lookup, insert,
}
use provable_ai.RateLimit.Window.{count_and_check-limit, retry_after_suffices, serve, serve_limit}
use provable_ai.RateLimit.Starvation.{flood, flood_starves}

abbrev alice : Text
alice = codes "alice"

abbrev bob : Text
bob = codes "bob"

abbrev limiter : RateLimiter
limiter = new_limiter 3 2 1

alice_ne_bob : alice ≢ bob
alice_ne_bob e = cc

run-check :
    (check 7 alice write (check 5 alice write limiter).1).0 ≡ too_many Scope.tenant_decisions 60
unfolding check evict text_eq lookup insert
run-check = refl

refused_wait : (count_and_check (20 * second) 1 (5 * second ∷ [])).0 ≡ refused 46
unfolding count_and_check evict
refused_wait = refl

count_and_check-limit_example :
    let (v, w') = count_and_check 9 2 (5 ∷ []) in
    (length w' ≤ 2) × ((v ≡ allowed) ↔ (current_count 9 (5 ∷ []) < 2))
count_and_check-limit_example = count_and_check-limit 9 2 (5 ∷ []) (omega arith)

refused_meanwhile :
    (serve 1
      (30 * second ∷ 40 * second ∷ [])
      ((count_and_check (20 * second) 1 (5 * second ∷ [])).1, [])).1
    ≡ []
unfolding serve count_and_check evict
refused_meanwhile = refl

retry_after_suffices_example :
    (count_and_check
      (66 * second)
      1
      (serve 1
        (30 * second ∷ 40 * second ∷ [])
        ((count_and_check (20 * second) 1 (5 * second ∷ [])).1, [])).0).0
    ≡ allowed
retry_after_suffices_example =
    retry_after_suffices (20 * second) 1 46 (66 * second) (5 * second ∷ [])
      (30 * second ∷ 40 * second ∷ []) (omega arith) (omega arith) refused_wait (omega arith)
      (omega arith) refused_meanwhile (omega arith)

serve_limit_example : current_count 9 (serve 2 (1 ∷ 2 ∷ 3 ∷ []) ([], [])).1 ≤ 2
serve_limit_example = serve_limit 2 9 (1 ∷ 2 ∷ 3 ∷ []) (omega arith) (omega arith)

flood_starves_example :
    (check 5 bob read (flood 3 5 alice write limiter)).0 ≡ too_many Scope.global 61
flood_starves_example = flood_starves 3 5 3 2 1 alice bob write read (omega arith) (omega arith)
