-- ===== src/Geometry.antt =====
-- How src/core/push.cpp and src/core/pull.cpp divide a file into chunks.
use embr.Base.{
  arith, drop, length, length-drop, length-take, min, take, ℕ, ◌%◌, ◌*◌, ◌+◌, ◌-◌, ◌/◌, ◌<◌, ◌^◌,
  ◌≡◌, ◌≤◌,
}
use embr.Protocol.{Bytes, chunk_size_const, u32_mod, u64_mod}

-- (file_size + CHUNK_SIZE - 1) / CHUNK_SIZE in uint64_t, cut to uint32_t.
abbrev pub count_for : ℕ → ℕ
count_for file_size = (file_size + chunk_size_const - 1) % u64_mod / chunk_size_const % u32_mod

-- static_cast<uint64_t>(index) * CHUNK_SIZE: the index is a uint32_t, so the product is below 2^52.
abbrev pub offset_of : ℕ → ℕ
offset_of index = index * chunk_size_const

-- min(CHUNK_SIZE, file_size - offset), the subtraction in uint64_t.
abbrev pub chunk_len : ℕ → ℕ → ℕ
chunk_len file_size index = min chunk_size_const ((file_size + u64_mod - offset_of index) % u64_mod)

-- The bytes of a chunk of a file.
abbrev pub chunk_bytes : Bytes → ℕ → Bytes
chunk_bytes file index = take (chunk_len (length file) index) (drop (offset_of index) file)

-- A chunk that begins inside a file lies inside it.
pub chunk_fits :
    (file_size index : ℕ)
    → file_size < u64_mod
    → offset_of index ≤ file_size
    → offset_of index + chunk_len file_size index ≤ file_size
chunk_fits file_size index h k = omega arith

pub length-chunk_bytes :
    (file : Bytes) (index : ℕ)
    → length file < u64_mod
    → offset_of index ≤ length file
    → length (chunk_bytes file index) ≡ chunk_len (length file) index
length-chunk_bytes file index h k = omega (
  arith,
  length-take (chunk_len (length file) index) (drop (offset_of index) file),
  length-drop (offset_of index) file,
)

-- Every index below the count begins inside the file.
pub index_inside :
    (file_size index : ℕ)
    → file_size < 2 ^ 52
    → index < count_for file_size
    → offset_of index < file_size
index_inside file_size index h k = omega arith
