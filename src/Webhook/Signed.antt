-- ===== src/Webhook/Signed.antt =====
-- What sign_webhook signs is accepted.
use provable_ai.Text.{starts_with, text_eq_refl}
use provable_ai.Base.{
  ℕ, ◌≡◌, some, false, arith, ◌∷◌, [], refl, ◌≤◌, ◌*◌, Option-cases, ltb, inl, inr, ap, ◌∙◌, subst,
}
use provable_ai.Webhook.{
  sign_webhook, verify_webhook_request, request_of, check_hmac, envelope, Text, check_and_store, ℕ,
  starts_with, is_empty, Mac, ℤ, Loads, decimal, Value, pos, SignedWebhookPayload, Store, age, ok,
  second, has_nonce, evict, signed_payload, dumps, utf8, compute_hmac,
}
use provable_ai.Text.Int.{read_int-decimal, read_int}

not_empty : (t : Text) (i : ℤ) → read_int t ≡ some i → is_empty t ≡ false
unfolding read_int
not_empty [] i h = absurd (ground arith)
not_empty (c ∷ t) i h = refl

decimal-is_empty : (n : ℕ) → is_empty (decimal n) ≡ false
decimal-is_empty n = not_empty (decimal n) (pos n) (read_int-decimal n)

hmac-checked :
    (mac : Mac) (loads : Loads) (event nonce : Text) (ts : ℕ) (body : Text) (v : Value)
    → loads body ≡ some v
    → check_hmac mac loads (request_of (signed_payload mac event ts nonce body)) (some body) ≡ ok v
unfolding check_hmac starts_with
hmac-checked mac loads event nonce ts body v back =
    rw (text_eq_refl (utf8 (compute_hmac mac (decimal ts) nonce body))) (rw back refl)

payload-accepted :
    (mac : Mac) (loads : Loads) (event nonce : Text) (ts tolerance now : ℕ) (body : Text)
    (v : Value) (store : Store)
    → is_empty nonce ≡ false
    → age now (pos ts) ≤ tolerance * second
    → has_nonce nonce (evict now store) ≡ false
    → loads body ≡ some v
    → (verify_webhook_request mac loads tolerance now store
        (request_of (signed_payload mac event ts nonce body))).1
      ≡ ok v
unfolding verify_webhook_request check_and_store
payload-accepted mac loads event nonce ts tolerance now body v store given recent fresh back =
    let in_time : ltb (tolerance * second) (age now (pos ts)) ≡ false = ground (arith, recent) in
    rw (decimal-is_empty ts) (
      rw given (
        rw (read_int-decimal ts)
          (rw in_time (rw fresh (hmac-checked mac loads event nonce ts body v back)))))

-- A payload that `sign_webhook` signed is accepted, with the parsed body, at every time at which
-- its timestamp is within the tolerance and its nonce has not been seen.
pub sign_webhook-accepted :
    (mac : Mac) (loads : Loads) (event nonce : Text) (ts tolerance now : ℕ) (payload v : Value)
    (p : SignedWebhookPayload) (store : Store)
    → sign_webhook mac event ts nonce payload ≡ some p
    → is_empty nonce ≡ false
    → age now (pos ts) ≤ tolerance * second
    → has_nonce nonce (evict now store) ≡ false
    → loads p.body ≡ some v
    → (verify_webhook_request mac loads tolerance now store (request_of p)).1 ≡ ok v
unfolding sign_webhook
sign_webhook-accepted mac loads event nonce ts tolerance now payload v p store signed given recent
      fresh back =
    elim (Option-cases (dumps (envelope event ts nonce payload))) [
      | inl not_json ↦ absurd (ground (arith, not_json))
      | inr (body, e) ↦
          let same : signed_payload mac event ts nonce body ≡ p = ground (arith, e) in
          let loaded : loads body ≡ some v =
            ap (λ (x : SignedWebhookPayload). loads x.body) same ∙ back in
          subst
            (λ x. (verify_webhook_request mac loads tolerance now store (request_of x)).1 ≡ ok v)
            same
            (payload-accepted mac loads event nonce ts tolerance now body v store given recent fresh
              loaded)
    ]
