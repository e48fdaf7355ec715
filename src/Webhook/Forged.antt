-- ===== src/Webhook/Forged.antt =====
-- A request without a valid signature uses up its nonce.
use provable_ai.Base.{
  ℕ, List, ◌≡◌, some, ◌+◌, All, ◌≤◌, ◌*◌, true, ◌<◌, Bool-cases, ◌≢◌, ltb, ◌||◌, inl, arith, inr,
  Option-cases,
}
use provable_ai.Webhook.Replay.{
  holds, holds-new, holds-serve_all, holds-evict, holds-has_nonce, serve_all, verify-IsAccepted,
}
use provable_ai.Webhook.{
  verify_webhook_request, check_age, check_and_store, second, Store, Mac, Loads, ℕ, WebhookRequest,
  ℤ, err, signature_invalid, Value, is_empty, age, ok, evict, has_nonce, read_int,
}

-- A request that was refused for its signature has left its nonce.
aged-noted :
    (mac : Mac) (loads : Loads) (tolerance now : ℕ) (store : Store) (r : WebhookRequest) (ts : ℤ)
    → (check_age mac loads tolerance now store r (some ts)).1 ≡ err signature_invalid
    → holds r.nonce
        (now + tolerance * 2 * second)
        (check_age mac loads tolerance now store r (some ts)).0
      ≡ true
unfolding check_and_store
aged-noted mac loads tolerance now store r ts h =
    elim (Bool-cases (ltb (tolerance * second) (age now ts))) [
      | inl old ↦ absurd (ground (arith, old))
      | inr recent ↦ elim (Bool-cases (has_nonce r.nonce (evict now store))) [
        | inl seen ↦ absurd (ground (arith, recent, seen))
        | inr fresh ↦
            rw recent
              (rw fresh (holds-new r.nonce (now + tolerance * 2 * second) (evict now store)))
      ]
    ]

forged-noted :
    (mac : Mac) (loads : Loads) (tolerance now : ℕ) (store : Store) (r : WebhookRequest)
    → (verify_webhook_request mac loads tolerance now store r).1 ≡ err signature_invalid
    → holds r.nonce
        (now + tolerance * 2 * second)
        (verify_webhook_request mac loads tolerance now store r).0
      ≡ true
unfolding verify_webhook_request
forged-noted mac loads tolerance now store r h =
    elim (Bool-cases (is_empty r.sig_header || (is_empty r.ts_header || is_empty r.nonce))) [
      | inl missing ↦ absurd (ground (arith, missing))
      | inr given ↦ elim (Option-cases (read_int r.ts_header)) [
        | inl unreadable ↦ absurd (ground (arith, given, unreadable))
        | inr (ts, read) ↦
            rw given (
              rw read (aged-noted mac loads tolerance now store r ts (ground (arith, given, read))))
      ]
    ]

-- After a request that was refused because its signature is invalid, no request with its nonce is
-- accepted before twice the tolerance has passed, a genuine one included.
pub forged_burns_nonce :
    (mac : Mac) (loads : Loads) (tolerance t1 t2 : ℕ) (store : Store)
    (between : List (ℕ × WebhookRequest)) (forged genuine : WebhookRequest)
    → (verify_webhook_request mac loads tolerance t1 store forged).1 ≡ err signature_invalid
    → genuine.nonce ≡ forged.nonce
    → All (λ (call : ℕ × WebhookRequest). call.0 ≤ t2) between
    → t2 < t1 + tolerance * 2 * second
    → (v : Value)
    → (verify_webhook_request mac loads tolerance t2
        (serve_all mac loads tolerance
          (verify_webhook_request mac loads tolerance t1 store forged).0
          between)
        genuine).1
      ≢ ok v
forged_burns_nonce mac loads tolerance t1 t2 store between forged genuine h nonce before early v e =
    let served = (verify_webhook_request mac loads tolerance t1 store forged).0 in
    let later = serve_all mac loads tolerance served between in
    let expiry = t1 + tolerance * 2 * second in
    let accepted = verify-IsAccepted mac loads tolerance t2 later genuine e in
    let kept =
      holds-serve_all mac loads forged.nonce expiry tolerance t2 served between early before
        (forged-noted mac loads tolerance t1 store forged h) in
    let seen =
      holds-has_nonce forged.nonce expiry (evict t2 later)
        (holds-evict forged.nonce expiry t2 later kept early) in
    absurd (ground (arith, accepted.fresh, nonce, seen))
