-- ===== src/Webhook.antt =====
-- server/webhook.py: requests that are signed by an HMAC, each accepted once.
pub mod Replay
pub mod Forged
pub mod Signed
mod Tests
use provable_ai.Schema.{str_field}
use provable_ai.Text.Decimal.{decimal}
use provable_ai.Json.Utf8.{utf8}
use provable_ai.Base.{
  List, Option, ℕ, Bool, suc, false, ◌-◌, if◌then◌else◌, some, true, ltb, not, none, ◌++◌, ◌*◌, ◌∷◌,
  ◌+◌, ◌||◌, [], zero,
}
use Prim.Native.Nat.{ℕ, suc}
use provable_ai.Text.{Bytes, Text, is_empty, starts_with, text_eq, codes}
use provable_ai.Base.Result.{Result, ok, err}
use provable_ai.Base.Int.{ℤ, pos, negsuc}
use provable_ai.Text.Int.{read_int}
use provable_ai.Text.Hex.{hex}
use provable_ai.Json.{Value, bool, bytes, obj, dumps, field, text_key, int, end}

-- HMAC-SHA256 under the secret of the server, and json.loads.
abbrev pub Mac : Type 0
Mac = Bytes → Bytes

abbrev pub Loads : Type 0
Loads = Text → Option Value

-- TIMESTAMP_TOLERANCE_S in nanoseconds; times are nanoseconds.
abbrev pub second : ℕ
second = 1000000000

-- _NonceStore._store: each nonce with the time at which it expires.
abbrev pub Store : Type 0
Store = List (Text × ℕ)

unfoldable pub evict : ℕ → Store → Store
evict now [] = []
evict now ((n, exp) ∷ store) =
    let rest = evict now store in if ltb now exp then (n, exp) ∷ rest else rest

unfoldable pub has_nonce : Text → Store → Bool
has_nonce n [] = false
has_nonce n ((m, exp) ∷ store) = text_eq n m || has_nonce n store

-- check_and_store, with the time to live in seconds
unfoldable pub check_and_store : ℕ → ℕ → Text → Store → Store × Bool
check_and_store ttl_s now nonce store =
    let kept = evict now store in
    if has_nonce nonce kept
    then (kept, false)
    else (kept ++ (nonce, now + ttl_s * second) ∷ [], true)

-- _compute_hmac
unfoldable pub compute_hmac : Mac → Text → Text → Text → Text
compute_hmac mac timestamp nonce body = hex (mac (utf8 (timestamp ++ 46 ∷ (nonce ++ 46 ∷ body))))

-- The parts of a request that are read; `none` is a body that is not UTF-8.
pub record WebhookRequest : Type 0 where
  pub sig_header : Text
  pub ts_header : Text
  pub nonce : Text
  pub body : Option Text

pub data WebhookError : Type 0 where
  missing_headers : WebhookError
  invalid_timestamp : WebhookError
  timestamp_expired : WebhookError
  replay_detected : WebhookError
  -- UnicodeDecodeError
  not_utf8 : WebhookError
  invalid_sig_format : WebhookError
  signature_invalid : WebhookError
  invalid_json : WebhookError

-- abs(time.time() - ts)
abbrev pub age : ℕ → ℤ → ℕ
age now (pos n) = (now - n * second) + (n * second - now)
age now (negsuc n) = now + (n + 1) * second

abbrev pub drop_prefix : ℕ → Text → Text
drop_prefix zero s = s
drop_prefix (suc n) [] = []
drop_prefix (suc n) (c ∷ s) = drop_prefix n s

abbrev parsed : Option Value → Result WebhookError Value
parsed none = err invalid_json
parsed (some v) = ok v

-- Step 4, and the parsing of the body.
unfoldable pub check_hmac : Mac → Loads → WebhookRequest → Option Text → Result WebhookError Value
check_hmac mac loads r none = err not_utf8
check_hmac mac loads r (some body) =
    if not (starts_with (codes "sha256=") r.sig_header)
    then err invalid_sig_format
    else if not (
        text_eq (utf8 (drop_prefix 7 r.sig_header))
          (utf8 (compute_hmac mac r.ts_header r.nonce body)))
    then err signature_invalid
    else parsed (loads body)

abbrev pub after_nonce :
    Mac → Loads → WebhookRequest → Store × Bool → Store × Result WebhookError Value
after_nonce mac loads r (store, false) = (store, err replay_detected)
after_nonce mac loads r (store, true) = (store, check_hmac mac loads r r.body)

-- Steps 2 to 4, with the tolerance in seconds.
abbrev pub check_age :
    Mac → Loads → ℕ → ℕ → Store → WebhookRequest → Option ℤ → Store × Result WebhookError Value
check_age mac loads tolerance now store r none = (store, err invalid_timestamp)
check_age mac loads tolerance now store r (some ts) =
    if ltb (tolerance * second) (age now ts)
    then (store, err timestamp_expired)
    else after_nonce mac loads r (check_and_store (tolerance * 2) now r.nonce store)

-- verify_webhook_request
unfoldable pub verify_webhook_request :
    Mac → Loads → ℕ → ℕ → Store → WebhookRequest → Store × Result WebhookError Value
verify_webhook_request mac loads tolerance now store r =
    if is_empty r.sig_header || (is_empty r.ts_header || is_empty r.nonce)
    then (store, err missing_headers)
    else check_age mac loads tolerance now store r (read_int r.ts_header)

-- SignedWebhookPayload, with the headers that carry the signature.
pub record SignedWebhookPayload : Type 0 where
  pub body : Text
  pub signature : Text
  pub timestamp : Text
  pub nonce : Text
  pub event : Text

abbrev pub envelope : Text → ℕ → Text → Value → Value
envelope event ts nonce payload = obj (
    str_field (codes "event") event (
      field (text_key (codes "timestamp")) (int (pos ts))
        (str_field (codes "nonce") nonce (field (text_key (codes "data")) payload end))))

abbrev pub signed_payload : Mac → Text → ℕ → Text → Text → SignedWebhookPayload
signed_payload mac event ts nonce body = record {
  body = body;
  signature = codes "sha256=" ++ compute_hmac mac (decimal ts) nonce body;
  timestamp = decimal ts;
  nonce = nonce;
  event = event;
}

abbrev pub signed_body : Mac → Text → ℕ → Text → Option Text → Option SignedWebhookPayload
signed_body mac event ts nonce none = none
signed_body mac event ts nonce (some body) = some (signed_payload mac event ts nonce body)

-- sign_webhook, at a time in seconds and with the nonce that it draws; `none` is a TypeError of
-- json.dumps
unfoldable pub sign_webhook : Mac → Text → ℕ → Text → Value → Option SignedWebhookPayload
sign_webhook mac event ts nonce payload =
    signed_body mac event ts nonce (dumps (envelope event ts nonce payload))

-- The request that carries a payload.
abbrev pub request_of : SignedWebhookPayload → WebhookRequest
request_of p = record {
  sig_header = p.signature;
  ts_header = p.timestamp;
  nonce = p.nonce;
  body = some p.body;
}
