-- ===== src/Webhook/Replay.antt =====
-- A signed request is accepted once.
use provable_ai.Text.{text_eq_refl}
use provable_ai.Webhook.{
  verify_webhook_request, check_and_store, evict, has_nonce, Store, second, age, Mac, Text,
  WebhookRequest, Loads, ℤ, read_int, Value, after_nonce, ok, is_empty, check_age, text_eq, pos,
  negsuc,
}
use provable_ai.Base.{
  ◌≡◌, true, ℕ, ◌||◌, Bool, ◌<◌, arith, List, false, Option, Bool-cases, ◌≤◌, ◌++◌, All, refl, ◌∷◌,
  ◌*◌, inl, some, inr, [], ltb, ◌+◌, ◌&&◌, none, ◌==◌, subst, Option-cases,
}

-- The store has the nonce with this expiry.
unfoldable pub holds : Text → ℕ → Store → Bool
holds n e [] = false
holds n e ((m, x) ∷ store) = (text_eq n m && x == e) || holds n e store

pub holds-has_nonce :
    (n : Text) (e : ℕ) (store : Store) → holds n e store ≡ true → has_nonce n store ≡ true
unfolding holds has_nonce
holds-has_nonce n e [] h = absurd (ground arith)
holds-has_nonce n e ((m, x) ∷ store) h = ground (arith, holds-has_nonce n e store)

pub holds-evict :
    (n : Text) (e now : ℕ) (store : Store)
    → holds n e store ≡ true
    → now < e
    → holds n e (evict now store) ≡ true
unfolding holds evict
holds-evict n e now [] h live = absurd (ground arith)
holds-evict n e now ((m, x) ∷ store) h live = ground (arith, holds-evict n e now store)

holds-append :
    (n : Text) (e : ℕ) (store more : Store)
    → (holds n e store || holds n e more) ≡ true
    → holds n e (store ++ more) ≡ true
unfolding holds
holds-append n e [] more h = ground arith
holds-append n e ((m, x) ∷ store) more h = ground (arith, holds-append n e store more)

pub holds-new : (n : Text) (e : ℕ) (store : Store) → holds n e (store ++ (n, e) ∷ []) ≡ true
unfolding holds
holds-new n e [] = ground (arith, text_eq_refl n)
holds-new n e ((m, x) ∷ store) = ground (arith, holds-new n e store)

-- An entry that has not expired stays.
holds-check_and_store :
    (n : Text) (e ttl_s now : ℕ) (nonce : Text) (store : Store)
    → holds n e store ≡ true
    → now < e
    → holds n e (check_and_store ttl_s now nonce store).0 ≡ true
unfolding check_and_store
holds-check_and_store n e ttl_s now nonce store h live =
    let kept = holds-evict n e now store h live in
    elim (Bool-cases (has_nonce nonce (evict now store))) [
      | inl seen ↦ rw seen kept
      | inr fresh ↦ rw fresh (
          holds-append n e (evict now store) ((nonce, now + ttl_s * second) ∷ [])
            (ground (arith, kept)))
    ]

after_nonce-store :
    (mac : Mac) (loads : Loads) (r : WebhookRequest) (o : Store × Bool)
    → (after_nonce mac loads r o).0 ≡ o.0
after_nonce-store mac loads r (store, true) = refl
after_nonce-store mac loads r (store, false) = refl

holds-check_age :
    (mac : Mac) (loads : Loads) (n : Text) (e tolerance now : ℕ) (store : Store)
    (r : WebhookRequest) (ts : Option ℤ)
    → holds n e store ≡ true
    → now < e
    → holds n e (check_age mac loads tolerance now store r ts).0 ≡ true
holds-check_age mac loads n e tolerance now store r none h live = h
holds-check_age mac loads n e tolerance now store r (some ts) h live =
    elim (Bool-cases (ltb (tolerance * second) (age now ts))) [
      | inl old ↦ rw old h
      | inr recent ↦ rw recent (
          rw (after_nonce-store mac loads r (check_and_store (tolerance * 2) now r.nonce store))
            (holds-check_and_store n e (tolerance * 2) now r.nonce store h live))
    ]

holds-verify :
    (mac : Mac) (loads : Loads) (n : Text) (e tolerance now : ℕ) (store : Store)
    (r : WebhookRequest)
    → holds n e store ≡ true
    → now < e
    → holds n e (verify_webhook_request mac loads tolerance now store r).0 ≡ true
unfolding verify_webhook_request
holds-verify mac loads n e tolerance now store r h live =
    elim (Bool-cases (is_empty r.sig_header || (is_empty r.ts_header || is_empty r.nonce))) [
      | inl missing ↦ rw missing h
      | inr given ↦
          rw given
            (holds-check_age mac loads n e tolerance now store r (read_int r.ts_header) h live)
    ]

-- The store after some more requests, each at its time.
unfoldable pub serve_all : Mac → Loads → ℕ → Store → List (ℕ × WebhookRequest) → Store
serve_all mac loads tolerance store [] = store
serve_all mac loads tolerance store (call ∷ calls) =
    serve_all mac loads tolerance (verify_webhook_request mac loads tolerance call.0 store call.1).0
      calls

pub holds-serve_all :
    (mac : Mac) (loads : Loads) (n : Text) (e tolerance until : ℕ) (store : Store)
    (calls : List (ℕ × WebhookRequest))
    → until < e
    → All (λ (call : ℕ × WebhookRequest). call.0 ≤ until) calls
    → holds n e store ≡ true
    → holds n e (serve_all mac loads tolerance store calls) ≡ true
unfolding serve_all
holds-serve_all mac loads n e tolerance until store [] live before h = h
holds-serve_all mac loads n e tolerance until store (call ∷ calls) live (first, before) h =
    holds-serve_all mac loads n e tolerance until
      (verify_webhook_request mac loads tolerance call.0 store call.1).0 calls live before
      (holds-verify mac loads n e tolerance call.0 store call.1 h (omega (arith, live, first)))

-- What an accepted request has passed, and what it leaves.
pub record IsAccepted (tolerance now : ℕ) (store : Store) (r : WebhookRequest) (after : Store)
    : Type 0 where
  pub ts : ℤ
  pub read : read_int r.ts_header ≡ some ts
  pub recent : age now ts ≤ tolerance * second
  pub fresh : has_nonce r.nonce (evict now store) ≡ false
  pub noted : holds r.nonce (now + tolerance * 2 * second) after ≡ true

check_age-IsAccepted :
    (mac : Mac) (loads : Loads) (tolerance now : ℕ) (store : Store) (r : WebhookRequest) (ts : ℤ)
    {v : Value}
    → read_int r.ts_header ≡ some ts
    → (check_age mac loads tolerance now store r (some ts)).1 ≡ ok v
    → IsAccepted tolerance now store r (check_age mac loads tolerance now store r (some ts)).0
unfolding check_and_store
check_age-IsAccepted mac loads tolerance now store r ts read h =
    elim (Bool-cases (ltb (tolerance * second) (age now ts))) [
      | inl old ↦ absurd (ground (arith, old))
      | inr recent ↦ elim (Bool-cases (has_nonce r.nonce (evict now store))) [
        | inl seen ↦ absurd (ground (arith, recent, seen))
        | inr fresh ↦ record {
          ts = ts;
          read = read;
          recent = ground (arith, recent);
          fresh = fresh;
          noted =
              rw recent
                (rw fresh (holds-new r.nonce (now + tolerance * 2 * second) (evict now store)));
        }
      ]
    ]

pub verify-IsAccepted :
    (mac : Mac) (loads : Loads) (tolerance now : ℕ) (store : Store) (r : WebhookRequest) {v : Value}
    → (verify_webhook_request mac loads tolerance now store r).1 ≡ ok v
    → IsAccepted tolerance now store r (verify_webhook_request mac loads tolerance now store r).0
unfolding verify_webhook_request
verify-IsAccepted mac loads tolerance now store r {v} h =
    elim (Bool-cases (is_empty r.sig_header || (is_empty r.ts_header || is_empty r.nonce))) [
      | inl missing ↦ absurd (ground (arith, missing))
      | inr given ↦ elim (Option-cases (read_int r.ts_header)) [
        | inl unreadable ↦ absurd (ground (arith, given, unreadable))
        | inr (ts, read) ↦ rw given (
            rw read (
              check_age-IsAccepted mac loads tolerance now store r ts {v = v} read
                (ground (arith, given, read))))
      ]
    ]

age-near :
    (t1 t2 tolerance : ℕ) (ts : ℤ)
    → age t1 ts ≤ tolerance * second
    → age t2 ts ≤ tolerance * second
    → t2 ≤ t1 + tolerance * 2 * second
age-near t1 t2 tolerance (pos n) h k = omega (arith, h, k)
age-near t1 t2 tolerance (negsuc n) h k = omega (arith, h, k)

-- Two accepted requests with one nonce and one timestamp, with any requests between them: the
-- second came exactly twice the tolerance after the first, when its nonce has just expired and its
-- timestamp has not. So a replay at any other time is refused.
pub accepted_once :
    (mac : Mac) (loads : Loads) (tolerance t1 t2 : ℕ) (store : Store)
    (between : List (ℕ × WebhookRequest)) (r1 r2 : WebhookRequest) (v1 v2 : Value)
    → r2.nonce ≡ r1.nonce
    → r2.ts_header ≡ r1.ts_header
    → All (λ (call : ℕ × WebhookRequest). call.0 ≤ t2) between
    → (verify_webhook_request mac loads tolerance t1 store r1).1 ≡ ok v1
    → (verify_webhook_request mac loads tolerance t2
        (serve_all mac loads tolerance
          (verify_webhook_request mac loads tolerance t1 store r1).0
          between)
        r2).1
      ≡ ok v2
    → t2 ≡ t1 + tolerance * 2 * second
accepted_once mac loads tolerance t1 t2 store between r1 r2 v1 v2 nonce stamp before h1 h2 =
    let first = verify-IsAccepted mac loads tolerance t1 store r1 h1 in
    let served = (verify_webhook_request mac loads tolerance t1 store r1).0 in
    let second_one =
      verify-IsAccepted mac loads tolerance t2 (serve_all mac loads tolerance served between) r2
        h2 in
    let same : second_one.ts ≡ first.ts = ground (arith, first.read, second_one.read, stamp) in
    let expiry = t1 + tolerance * 2 * second in
    let near : t2 ≤ expiry =
      age-near t1 t2 tolerance first.ts first.recent
        (subst (λ ts. age t2 ts ≤ tolerance * second) same second_one.recent) in
    elim (Bool-cases (ltb t2 expiry)) [
      | inr late ↦ ground (arith, near, late)
      | inl live ↦
          let kept =
            holds-serve_all mac loads r1.nonce expiry tolerance t2 served between
              (ground (arith, live)) before first.noted in
          let seen =
            holds-has_nonce r1.nonce expiry
              (evict t2 (serve_all mac loads tolerance served between))
              (holds-evict r1.nonce expiry t2 (serve_all mac loads tolerance served between) kept
                (ground (arith, live))) in
          absurd (ground (arith, second_one.fresh, nonce, seen))
    ]
