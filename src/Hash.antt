-- ===== src/Hash.antt =====
-- The cache file of src/core/hash.cpp: the fields in the byte order of a little-endian machine, as
-- memory holds them, and then the hashes.
pub mod Load
pub mod Save
pub mod Workers
pub mod Finish
pub mod Cache
use embr.Base.{[], arith, drop, get_or, ℕ, ◌%◌, ◌*◌, ◌++◌, ◌+◌, ◌/◌, ◌<◌, ◌^◌, ◌∷◌, ◌≡◌}
use embr.Protocol.{Bytes, u32_mod, u64_mod}

abbrev pub le32 : ℕ → Bytes
le32 v = v % 256 ∷ v / 2 ^ 8 % 256 ∷ v / 2 ^ 16 % 256 ∷ v / 2 ^ 24 % 256 ∷ []

abbrev pub of_le32 : Bytes → ℕ
of_le32 bs = get_or bs 0 0 + get_or bs 1 0 * 2 ^ 8 + get_or bs 2 0 * 2 ^ 16 + get_or bs 3 0 * 2 ^ 24

abbrev pub le64 : ℕ → Bytes
le64 v = le32 (v % u32_mod) ++ le32 (v / 2 ^ 32 % u32_mod)

abbrev pub of_le64 : Bytes → ℕ
of_le64 bs = of_le32 bs + of_le32 (drop 4 bs) * 2 ^ 32

pub of_le32-le32 : (v : ℕ) → v < u32_mod → of_le32 (le32 v) ≡ v
of_le32-le32 v h = omega arith

pub of_le64-le64 : (v : ℕ) → v < u64_mod → of_le64 (le64 v) ≡ v
of_le64-le64 v h = omega (
  arith,
  of_le32-le32 (v % u32_mod) (omega arith),
  of_le32-le32 (v / 2 ^ 32 % u32_mod) (omega arith),
)
