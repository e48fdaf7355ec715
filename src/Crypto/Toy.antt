-- ===== src/Crypto/Toy.antt =====
-- A small hash and signature of the right sizes: they show that the parameters can be met, and
-- the tests run on them.
use provable_ai.Text.{text_eq}
use provable_ai.Base.{
  ℕ, List, ◌∷◌, length, ◌/◌, All, replicate, ◌++◌, ◌*◌, ◌≡◌, ◌%◌, ◌+◌, arith, refl, [],
}
use provable_ai.Crypto.{Crypto, IsByte}
use Prim.Native.Nat.{ℕ}

weight : ℕ → List ℕ → ℕ
weight acc [] = acc
weight acc (b ∷ bs) = weight ((31 * acc + b) % 65521) bs

abbrev tail_of : List ℕ
tail_of = replicate 30 7

unfoldable pub toy_sha256 : List ℕ → List ℕ
unfolding weight
toy_sha256 b = (weight 1 b / 256 % 256) ∷ (weight 1 b % 256) ∷ tail_of

pub length-toy : (b : List ℕ) → length (toy_sha256 b) ≡ 32
unfolding toy_sha256
length-toy b = refl

pub toy-bytes : (b : List ℕ) → All IsByte (toy_sha256 b)
unfolding toy_sha256
toy-bytes b = omega arith

-- The signature of a message is the message, twice.
abbrev pub toy : Crypto
toy = record {
  sha256 = toy_sha256;
  length-sha256 = length-toy;
  sha256-bytes = toy-bytes;
  ed25519_verify = λ public_key message signature. text_eq signature (message ++ message);
}
