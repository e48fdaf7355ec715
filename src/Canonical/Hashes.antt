-- ===== src/Canonical/Hashes.antt =====
-- The texts that canonical.py takes for hashes.
use provable_ai.Base.Result.{>>=-eq-ok}
use provable_ai.Text.Hex.{
  IsHexDigit, fromhex, hex-digits, fromhex-hex, length-hex, is_int16_digits, is_int16_prefixed,
}
use provable_ai.Base.{
  ◌≡◌, All, length, true, arith, ◌∷◌, some, ◌⊎◌, none, [], replicate, refl, inl, inr,
}
use provable_ai.Canonical.{
  is_valid_hash, Bytes, Value, canonical_hash, ok, genesis_hash, canonical_encode,
}
use provable_ai.Text.{Text}
use provable_ai.Crypto.{Crypto, hexdigest}

pub hexdigest-digits : (c : Crypto) (b : Bytes) → All IsHexDigit (hexdigest c b)
unfolding hexdigest
hexdigest-digits c b = hex-digits (c.sha256 b) (c.sha256-bytes b)

pub length-hexdigest : (c : Crypto) (b : Bytes) → length (hexdigest c b) ≡ 64
unfolding hexdigest
length-hexdigest c b = omega (arith, length-hex (c.sha256 b), c.length-sha256 b)

pub fromhex-hexdigest : (c : Crypto) (b : Bytes) → fromhex (hexdigest c b) ≡ some (c.sha256 b)
unfolding hexdigest
fromhex-hexdigest c b = fromhex-hex (c.sha256 b) (c.sha256-bytes b)

-- A text of 64 lowercase hexadecimal digits.
abbrev pub IsDigest : Text → Type 0
IsDigest s = All IsHexDigit s × (length s ≡ 64)

pub is_valid_hash_digest : (s : Text) → IsDigest s → is_valid_hash s ≡ true
unfolding is_valid_hash
is_valid_hash_digest [] h = absurd (omega arith)
is_valid_hash_digest (c ∷ s) h = ground (arith, is_int16_digits c s h.0)

pub hexdigest-IsDigest : (c : Crypto) (b : Bytes) → IsDigest (hexdigest c b)
hexdigest-IsDigest c b = (hexdigest-digits c b, length-hexdigest c b)

genesis_hash-IsDigest : IsDigest genesis_hash
unfolding genesis_hash
genesis_hash-IsDigest = ground arith

pub fromhex-genesis : fromhex genesis_hash ≡ some (replicate 32 0)
unfolding genesis_hash fromhex
fromhex-genesis = refl

pub canonical_hash-hexdigest :
    (c : Crypto) (v : Value) (t : Text)
    → canonical_hash c v ≡ ok t
    → (b : Bytes) × (canonical_encode v ≡ ok b) × (t ≡ hexdigest c b)
unfolding canonical_hash
canonical_hash-hexdigest c v t h =
    let (b, e, d) = >>=-eq-ok (canonical_encode v) (λ b. ok (hexdigest c b)) h in (b, e, cc d)

IsDigest-valid :
    (t : Text) (b : Bytes)
    → IsDigest t
    → fromhex t ≡ some b
    → length b ≡ 32
    → IsDigest t × (is_valid_hash t ≡ true) × ((b : Bytes) × (fromhex t ≡ some b) × (length b ≡ 32))
IsDigest-valid t b d e l = (d, is_valid_hash_digest t d, (b, e, l))

-- Every result of `canonical_hash` is 64 lowercase hexadecimal digits, passes `is_valid_hash`, and
-- `bytes.fromhex` turns it into 32 bytes; and so it is with the genesis hash.
pub hashes_are_valid :
    (c : Crypto) (v : Value) (t : Text)
    → (canonical_hash c v ≡ ok t) ⊎ (t ≡ genesis_hash)
    → IsDigest t × (is_valid_hash t ≡ true) × ((b : Bytes) × (fromhex t ≡ some b) × (length b ≡ 32))
hashes_are_valid c v t (inl h) =
    let (b, _, e) = canonical_hash-hexdigest c v t h in
    rw e (
      IsDigest-valid (hexdigest c b) (c.sha256 b) (hexdigest-IsDigest c b) (fromhex-hexdigest c b)
        (c.length-sha256 b))
hashes_are_valid c v t (inr e) =
    rw e (IsDigest-valid genesis_hash (replicate 32 0) genesis_hash-IsDigest fromhex-genesis refl)

-- `is_valid_hash` also accepts a text of 64 characters that is no hexadecimal hash: the prefix 0x
-- before any 62 digits, of which `bytes.fromhex` makes nothing.
pub is_valid_hash_prefixed :
    (s : Text)
    → All IsHexDigit s
    → length s ≡ 62
    → (is_valid_hash (48 ∷ 120 ∷ s) ≡ true) × (fromhex (48 ∷ 120 ∷ s) ≡ none)
unfolding is_valid_hash
is_valid_hash_prefixed [] h l = absurd (omega arith)
is_valid_hash_prefixed (c ∷ s) h l =
    (ground (arith, is_int16_prefixed c s h), unfold fromhex in refl)
