-- ===== src/Crypto.antt =====
-- What the source takes from hashlib and PyNaCl: SHA-256 and the test of an Ed25519 signature.
-- Neither is under the repository; they are parameters, with the sizes that their documents state.
pub mod Toy
use provable_ai.Base.{◌≡◌, Bool, All, length, ◌≢◌, Option, some, none, arith}
use provable_ai.Base.Result.{Result, ok, err}
use provable_ai.Text.{Text, Bytes, IsByte}
use provable_ai.Text.Hex.{hex}

pub record Crypto : Type 0 where
  -- hashlib.sha256(data).digest()
  pub sha256 : Bytes → Bytes
  pub length-sha256 : (b : Bytes) → length (sha256 b) ≡ 32
  pub sha256-bytes : (b : Bytes) → All IsByte (sha256 b)
  -- whether `VerifyKey(public_key).verify(message, signature)` returns
  pub ed25519_verify : Bytes → Bytes → Bytes → Bool

-- hashlib.sha256(data).hexdigest()
unfoldable pub hexdigest : Crypto → Bytes → Text
hexdigest c data_bytes = hex (c.sha256 data_bytes)

-- Two byte strings that both are there and differ, with one digest.
abbrev pub Collides : Crypto → Option Bytes → Option Bytes → Type 0
Collides c u v =
    (a : Bytes) × (b : Bytes) × (u ≡ some a) × (v ≡ some b) × (a ≢ b) × (c.sha256 a ≡ c.sha256 b)

-- hashlib.sha256(b).hexdigest(), unless making the bytes raised
abbrev pub hash_bytes {ℓ} : {E : Type ℓ} → Crypto → Result E Bytes → Option Text
hash_bytes c (err e) = none
hash_bytes c (ok b) = some (hexdigest c b)

pub hash_bytes-some {ℓ} :
    {E : Type ℓ} (c : Crypto) (r : Result E Bytes) {h : Text}
    → hash_bytes c r ≡ some h
    → (b : Bytes) × (h ≡ hexdigest c b)
hash_bytes-some c (ok b) e = (b, ground (arith, e))
hash_bytes-some c (err x) e = cc
