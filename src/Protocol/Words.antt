-- ===== src/Protocol/Words.antt =====
-- Big-endian words: htonl followed by memcpy on the way out, memcpy followed by ntohl on the way
-- in (src/core/protocol.cpp).
use embr.Base.{All, [], arith, get_or, length, refl, ℕ, ◌%◌, ◌*◌, ◌+◌, ◌/◌, ◌<◌, ◌^◌, ◌∷◌, ◌≡◌}
use embr.Protocol.{Bytes, IsByte, u32_mod}

-- The four bytes of a uint32_t, high byte first.
abbrev pub be32 : ℕ → Bytes
be32 v = v / 2 ^ 24 % 256 ∷ v / 2 ^ 16 % 256 ∷ v / 2 ^ 8 % 256 ∷ v % 256 ∷ []

-- The uint32_t that the first four bytes stand for.
abbrev pub of_be32 : Bytes → ℕ
of_be32 bs = get_or bs 0 0 * 2 ^ 24 + get_or bs 1 0 * 2 ^ 16 + get_or bs 2 0 * 2 ^ 8 + get_or bs 3 0

pub of_be32-be32 : (v : ℕ) → v < u32_mod → of_be32 (be32 v) ≡ v
of_be32-be32 v h = omega arith

pub length-be32 : (v : ℕ) → length (be32 v) ≡ 4
length-be32 v = refl

pub be32-IsByte : (v : ℕ) → All IsByte (be32 v)
be32-IsByte v = omega arith

-- A word that is not read off the wire by `of_be32` cannot have these bytes: the encoding is onto.
pub be32-of_be32 :
    (a b c d : ℕ)
    → IsByte a
    → IsByte b
    → IsByte c
    → IsByte d
    → be32 (of_be32 (a ∷ b ∷ c ∷ d ∷ [])) ≡ a ∷ b ∷ c ∷ d ∷ []
be32-of_be32 a b c d ha hb hc hd = ground arith
