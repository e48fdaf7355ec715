-- ===== src/RateLimit/Window.antt =====
-- What one sliding window of rate_limit.py promises.
use provable_ai.Base.{
  ℕ, List, ◌∷◌, length, ◌++◌, ◌<◌, ◌≤◌, ◌≡◌, [], arith, refl, ◌+◌, ◌↔◌, ◌*◌, length-append, ◌∙◌,
  sym, ◌≢◌, ◌⊎◌, inl, inr, Bool-cases, leb, subst, ap,
}
use provable_ai.RateLimit.{
  second, evict, Verdict, allowed, refused, index_error, count_and_check, current_count, ℕ, decide,
}

length-evict-le : (now : ℕ) (w : List ℕ) → length (evict now w) ≤ length w
unfolding evict
length-evict-le now [] = omega arith
length-evict-le now (t ∷ w) = ground (arith, length-evict-le now w)

evict-append : (now : ℕ) (v w : List ℕ) → evict now (v ++ w) ≡ evict now v ++ evict now w
unfolding evict
evict-append now [] w = refl
evict-append now (t ∷ v) w = ground (arith, evict-append now v w)

-- What is gone at an earlier time is gone later.
evict-evict : (now later : ℕ) (w : List ℕ) → now ≤ later → evict later (evict now w) ≡ evict later w
unfolding evict
evict-evict now later [] h = refl
evict-evict now later (t ∷ w) h = ground (arith, evict-evict now later w h)

-- A window never holds more than the limit, and a request is let through exactly if fewer than
-- `limit` requests that were let through are less than 60 seconds old.
pub count_and_check-limit :
    (now limit : ℕ) (w : List ℕ)
    → length w ≤ limit
    → let (v, w') = count_and_check now limit w in
      (length w' ≤ limit) × ((v ≡ allowed) ↔ (current_count now w < limit))
unfolding count_and_check current_count
count_and_check-limit now limit w h =
    ground (arith, length-evict-le now w, length-append (evict now w) (now ∷ []))

retry_decided :
    (now limit retry later : ℕ) (v : List ℕ)
    → 0 < limit
    → length v ≤ limit
    → (decide now limit v).0 ≡ refused retry
    → now + retry * second ≤ later
    → (decide later limit (evict later (decide now limit v).1)).0 ≡ allowed
unfolding decide evict
retry_decided now limit retry later [] pos h r wait = ground arith
retry_decided now limit retry later (t ∷ v) pos h r wait = ground (arith, length-evict-le later v)

abbrev pub let_through : Verdict → ℕ → List ℕ → List ℕ
let_through allowed now through = through ++ now ∷ []
let_through _ now through = through

-- Requests at the given times, in order: the window afterwards and the times let through.
unfoldable pub serve : ℕ → List ℕ → List ℕ × List ℕ → List ℕ × List ℕ
serve limit [] (w, through) = (w, through)
serve limit (now ∷ times) (w, through) =
    let (v, w') = count_and_check now limit w in serve limit times (w', let_through v now through)

-- The times ascend from `t`.
abbrev pub Ascending : ℕ → List ℕ → Type 0
Ascending t [] = Unit
Ascending t (now ∷ times) = (t ≤ now) × Ascending now times

abbrev pub last : ℕ → List ℕ → ℕ
last t [] = t
last t (now ∷ times) = last now times

last-ge : (t : ℕ) (times : List ℕ) → Ascending t times → t ≤ last t times
last-ge t [] asc = omega arith
last-ge t (now ∷ times) asc = omega (arith, last-ge now times asc.1)

-- A request is let through, or leaves the window as it was evicted.
decide-cases :
    (now limit : ℕ) (v : List ℕ)
    → ((decide now limit v).0 ≡ allowed)
      ⊎ (((decide now limit v).1 ≡ v) × (let_through (decide now limit v).0 now [] ≡ []))
unfolding decide
decide-cases now limit [] = elim (Bool-cases (leb limit 0)) [
  | inl full ↦ inr (rw full (refl, refl))
  | inr room ↦ inl (rw room refl)
]
decide-cases now limit (t ∷ v) = elim (Bool-cases (leb limit (length (t ∷ v)))) [
  | inl full ↦ inr (rw full (refl, refl))
  | inr room ↦ inl (rw room refl)
]

let_through-grows :
    (v : Verdict) (now t : ℕ) (through : List ℕ)
    → (rest : List ℕ) × (let_through v now (t ∷ through) ≡ t ∷ rest)
let_through-grows allowed now t through = (through ++ now ∷ [], refl)
let_through-grows (refused retry) now t through = (through, refl)
let_through-grows index_error now t through = (through, refl)

-- What was let through is never forgotten.
serve-grows : (limit t : ℕ) (times w through : List ℕ) → (serve limit times (w, t ∷ through)).1 ≢ []
unfolding serve
serve-grows limit t [] w through = λ e. cc
serve-grows limit t (now ∷ times) w through =
    let (v, w') = count_and_check now limit w in
    let (rest, grown) = let_through-grows v now t through in
    subst (λ x. (serve limit times (w', x)).1 ≢ []) (sym grown) (serve-grows limit t times w' rest)

-- Requests of which none is let through do not change what is recent later.
serve-refused :
    (limit t later : ℕ) (times w : List ℕ)
    → Ascending t times
    → last t times ≤ later
    → (serve limit times (w, [])).1 ≡ []
    → evict later (serve limit times (w, [])).0 ≡ evict later w
unfolding serve count_and_check
serve-refused limit t later [] w asc le none_through = refl
serve-refused limit t later (now ∷ times) w asc le none_through =
    let (v, w') = decide now limit (evict now w) in
    elim (decide-cases now limit (evict now w)) [
      | inl through ↦ absurd (
          serve-grows limit now times w' [] (
            subst (λ x. (serve limit times (w', let_through x now [])).1 ≡ []) through
              none_through))
      | inr (kept, nothing) ↦
          let still = subst (λ x. (serve limit times (w', x)).1 ≡ []) nothing none_through in
          ap (λ x. evict later (serve limit times (w', x)).0) nothing
          ∙ serve-refused limit now later times w' asc.1 le still
          ∙ ap (evict later) kept
          ∙ evict-evict now later w (omega (arith, last-ge now times asc.1))
    ]

-- A client that waits as long as it was told to is let through, whatever requests of its window
-- came meanwhile, if none of these was let through.
pub retry_after_suffices :
    (now limit retry later : ℕ) (w times : List ℕ)
    → 0 < limit
    → length w ≤ limit
    → (count_and_check now limit w).0 ≡ refused retry
    → Ascending now times
    → last now times ≤ later
    → (serve limit times ((count_and_check now limit w).1, [])).1 ≡ []
    → now + retry * second ≤ later
    → (count_and_check later limit (serve limit times ((count_and_check now limit w).1, [])).0).0
      ≡ allowed
unfolding count_and_check
retry_after_suffices now limit retry later w times pos h r asc le none_through wait =
    let w' = (count_and_check now limit w).1 in
    ap (λ x. (decide later limit x).0) (serve-refused limit now later times w' asc le none_through)
    ∙ retry_decided now limit retry later (evict now w) pos (omega (arith, length-evict-le now w)) r
        wait

-- The window knows every time let through that is still recent.
abbrev Agrees : ℕ → List ℕ × List ℕ → Type 0
Agrees t (w, through) = (later : ℕ) → t ≤ later → evict later through ≡ evict later w

decide-Agrees :
    (now limit later : ℕ) (v through : List ℕ)
    → evict later through ≡ evict later v
    → let (d, v') = decide now limit v in evict later (let_through d now through) ≡ evict later v'
unfolding decide
decide-Agrees now limit later [] through e =
    ground (arith, evict-append later through (now ∷ []), evict-append later [] (now ∷ []))
decide-Agrees now limit later (t ∷ v) through e =
    ground (arith, evict-append later through (now ∷ []), evict-append later (t ∷ v) (now ∷ []))

step-Agrees :
    (now limit : ℕ) (w through : List ℕ)
    → Agrees now (w, through)
    → let (v, w') = count_and_check now limit w in Agrees now (w', let_through v now through)
unfolding count_and_check
step-Agrees now limit w through a later h =
    decide-Agrees now limit later (evict now w) through
      (a later h ∙ sym (evict-evict now later w h))

serve-Agrees :
    (limit t : ℕ) (times : List ℕ) (w through : List ℕ)
    → Ascending t times
    → length w ≤ limit
    → Agrees t (w, through)
    → let s = serve limit times (w, through) in Agrees (last t times) s × (length s.0 ≤ limit)
unfolding serve
serve-Agrees limit t [] w through asc h a = (a, h)
serve-Agrees limit t (now ∷ times) w through asc h a =
    let (v, w') = count_and_check now limit w in
    serve-Agrees limit now times w' (let_through v now through) asc.1
      (count_and_check-limit now limit w h).0
      (step-Agrees now limit w through (λ later le. a later (omega arith)))

-- After any sequence of requests at ascending times, at every later time, at most `limit` of the
-- requests that were let through are less than 60 seconds old.
pub serve_limit :
    (limit now : ℕ) (times : List ℕ)
    → Ascending 0 times
    → last 0 times ≤ now
    → current_count now (serve limit times ([], [])).1 ≤ limit
unfolding current_count
serve_limit limit now times asc h =
    let (agrees, fits) = serve-Agrees limit 0 times [] [] asc (omega arith) (λ later le. refl) in
    rw (agrees now h) (omega (arith, length-evict-le now (serve limit times ([], [])).0, fits))
