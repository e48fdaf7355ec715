-- ===== src/Webhook/Tests.antt =====
-- A request at the two ends of its time, a forged one before it, and a signed one.
use provable_ai.Text.Hex.{hex}
use provable_ai.Text.Int.{read_int}
use provable_ai.Json.Utf8.{utf8}
use provable_ai.Text.Decimal.{decimal}
use provable_ai.Text.{text_leb, starts_with, text_eq}
use provable_ai.Json.{
  entry_texts, null, escape_all, insert_entry, sort_entries, int_text, join, dumps,
}
use provable_ai.Base.{
  Option, [], some, replicate, ◌*◌, List, ℕ, ◌≢◌, ◌≡◌, none, ◌++◌, ◌+◌, ◌∷◌, false, length, ◌%◌,
  refl, arith,
}
use provable_ai.Webhook.{
  verify_webhook_request, sign_webhook, request_of, WebhookRequest, Mac, Loads, signed_payload,
  second, some, ◌*◌, has_nonce, Option, codes, dumps, List, check_and_store, [],
  SignedWebhookPayload, Store, evict, ok, read_int, check_hmac, compute_hmac, utf8, hex, decimal,
  err, signature_invalid,
}
use provable_ai.Webhook.Replay.{accepted_once, serve_all}
use provable_ai.Webhook.Forged.{forged_burns_nonce}
use provable_ai.Webhook.Signed.{sign_webhook-accepted}

-- A code of the right size for the tests.
abbrev mac : Mac
mac m = replicate 31 1 ++ (length m % 256) ∷ []

abbrev loads : Loads
loads t = some null

abbrev signed : SignedWebhookPayload
signed = signed_payload mac (codes "paid") 1000 (codes "n1") (codes "{}")

abbrev empty_request : WebhookRequest
empty_request = record { sig_header = []; ts_header = []; nonce = []; body = none }

abbrev calls : List (ℕ × WebhookRequest)
calls = (800 * second, empty_request) ∷ []

abbrev early_store : Store
early_store = (verify_webhook_request mac loads 300 (700 * second) [] (request_of signed)).0

both_accepted :
    ((verify_webhook_request mac loads 300 (700 * second) [] (request_of signed)).1 ≡ ok null)
    × ((verify_webhook_request mac loads 300
          (1300 * second)
          (serve_all mac loads 300 early_store calls)
          (request_of signed)).1
        ≡ ok null)
unfolding verify_webhook_request check_and_store evict has_nonce read_int check_hmac compute_hmac
    utf8 hex decimal serve_all starts_with text_eq
both_accepted = (refl, refl)

accepted_once_example : 1300 * second ≡ 700 * second + 300 * 2 * second
accepted_once_example =
    accepted_once mac loads 300 (700 * second) (1300 * second) [] calls (request_of signed)
      (request_of signed) null null refl refl (ground arith, tt) both_accepted.0 both_accepted.1

abbrev forged : WebhookRequest
forged = record (request_of signed) { sig_header = codes "sha256=00" }

forged_refused :
    (verify_webhook_request mac loads 300 (900 * second) [] forged).1 ≡ err signature_invalid
unfolding verify_webhook_request check_and_store evict has_nonce read_int check_hmac compute_hmac
    utf8 hex decimal starts_with text_eq
forged_refused = refl

forged_burns_nonce_example :
    (verify_webhook_request mac loads 300
      (1000 * second)
      (serve_all mac loads 300 (verify_webhook_request mac loads 300 (900 * second) [] forged).0 [])
      (request_of signed)).1
    ≢ ok null
forged_burns_nonce_example =
    forged_burns_nonce mac loads 300 (900 * second) (1000 * second) [] [] forged (request_of signed)
      forged_refused refl tt (omega arith) null

abbrev sent : Option SignedWebhookPayload
sent = sign_webhook mac (codes "paid") 1000 (codes "n1") null

abbrev payload_in : Option SignedWebhookPayload → SignedWebhookPayload
payload_in none = signed
payload_in (some p) = p

was_sent : sent ≡ some (payload_in sent)
unfolding sign_webhook dumps entry_texts escape_all insert_entry sort_entries int_text join text_leb
was_sent = refl

not_seen : has_nonce (codes "n1") (evict (900 * second) []) ≡ false
unfolding has_nonce evict
not_seen = refl

sign_webhook-accepted_example :
    (verify_webhook_request mac loads 300 (900 * second) [] (request_of (payload_in sent))).1
    ≡ ok null
sign_webhook-accepted_example =
    sign_webhook-accepted mac loads (codes "paid") (codes "n1") 1000 300 (900 * second) null null
      (payload_in sent) [] was_sent refl (ground arith) not_seen refl
