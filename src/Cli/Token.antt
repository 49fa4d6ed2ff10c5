-- ===== src/Cli/Token.antt =====
-- The token that src/cli/push_cli.cpp derives, against the tests of src/tracker/tracker_handlers.cpp
-- and src/cli/pull_cli.cpp.
use embr.Base.{
  All, List, [], arith, concat, length, length-take, refl, suc, take, true, zero, ℕ, ◌%◌, ◌*◌, ◌/◌,
  ◌<◌, ◌==◌, ◌∷◌, ◌≡◌,
}
use embr.Cli.Pull.{is_token}
use embr.Cli.Push.{derive_token, hex, hex_digit}
use embr.Protocol.{Bytes}
use embr.Tracker.Handlers.{all_of, is_hex_char, valid_token}

-- A digest: 32 bytes.
pub record IsDigest (sha256 : Bytes → Bytes) : Type 0 where
  pub sized : (b : Bytes) → length (sha256 b) ≡ 32
  pub bytes : (b : Bytes) → All (λ x. x < 256) (sha256 b)

length-hex : (bs : Bytes) → length (hex bs) ≡ 2 * length bs
unfolding hex
length-hex [] = refl
length-hex (b ∷ bs) = omega (arith, length-hex bs)

is_hex_char-hex_digit : (d : ℕ) → d < 16 → is_hex_char (hex_digit d) ≡ true
is_hex_char-hex_digit d h = ground arith

all_of-hex : (bs : Bytes) → All (λ x. x < 256) bs → all_of is_hex_char (hex bs) ≡ true
unfolding all_of hex
all_of-hex [] h = refl
all_of-hex (b ∷ bs) (small, h) =
    rw
      (
        is_hex_char-hex_digit (b / 16) (omega arith),
        is_hex_char-hex_digit (b % 16) (omega arith),
        all_of-hex bs h,
      )
      refl

take-All : (n : ℕ) (bs : Bytes) → All (λ x. x < 256) bs → All (λ x. x < 256) (take n bs)
take-All zero bs h = tt
take-All (suc n) [] h = tt
take-All (suc n) (b ∷ bs) (small, h) = (small, take-All n bs h)

-- The token that push derives is one that the tracker's handlers and pull accept.
pub derive_token-valid :
    (sha256 : Bytes → Bytes) (chunk_hashes : List Bytes)
    → IsDigest sha256
    → (valid_token (derive_token sha256 chunk_hashes) ≡ true)
      × (is_token (derive_token sha256 chunk_hashes) ≡ true)
unfolding valid_token is_token derive_token
derive_token-valid sha256 chunk_hashes d = (rw (sixteen, all_hex) refl, rw (sixteen, all_hex) refl)
  where
    front : Bytes
    front = take 8 (sha256 (concat chunk_hashes))

    eight : length front ≡ 8
    eight =
        omega (arith, length-take 8 (sha256 (concat chunk_hashes)), d.sized (concat chunk_hashes))

    sixteen : (length (hex front) == 16) ≡ true
    sixteen = ground (arith, length-hex front, eight)

    all_hex : all_of is_hex_char (hex front) ≡ true
    all_hex =
        all_of-hex front (take-All 8 (sha256 (concat chunk_hashes)) (d.bytes (concat chunk_hashes)))
