-- ===== src/Signer.antt =====
-- provable_ai/signer.py: the interface of a signer, with the contract that BaseSigner documents.
-- The implementations call PyNaCl or a key service.
pub mod Toy
use provable_ai.Verifier.{verify_ed25519}
use provable_ai.Schema.{is_blank_text}
use provable_ai.Text.Hex.{IsHexDigit}
use provable_ai.Base.{Option, ◌≡◌, some, All, length, false, true}
use provable_ai.Text.{Bytes, Text, IsByte}
use provable_ai.Crypto.{Crypto}

pub record Signer (c : Crypto) : Type 0 where
  -- `none` is an exception
  pub sign_hash : Bytes → Option Text
  pub public_key : Text
  pub key_id : Text
  -- 128 hexadecimal characters, 64 hexadecimal characters, a text that is not blank
  pub sign_hash-hex :
      (m : Bytes) (s : Text) → sign_hash m ≡ some s → All IsHexDigit s × (length s ≡ 128)
  pub public_key-hex : All IsHexDigit public_key × (length public_key ≡ 64)
  pub key_id_not_blank : is_blank_text key_id ≡ false
  -- what it signs verifies under its public key
  pub sign_hash-verifies :
      (m : Bytes) (s : Text)
      → All IsByte m
      → sign_hash m ≡ some s
      → verify_ed25519 c public_key m s ≡ true
