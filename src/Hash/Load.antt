-- ===== src/Hash/Load.antt =====
-- hash_cache_load of src/core/hash.cpp.
use embr.Base.{
  List, Option, Result, [], if◌then◌else◌, none, ok, some, suc, zero, ℕ, ◌&&◌, ◌==◌, ◌>>=◌, ◌∷◌,
}
use embr.Chunks.{chunk_count}
use embr.Hash.{of_le32, of_le64}
use embr.Paths.{hash_cache_path_for}
use embr.Protocol.{Bytes, hash_size}
use embr.World.{World}
use embr.World.Files.{catch_runtime_error, read_exact}

unfoldable pub read_hashes : ℕ → Bytes → Result (List Bytes)
read_hashes zero left = ok []
read_hashes (suc n) left = do
  (hash, left') ← read_exact hash_size left
  hashes ← read_hashes n left'
  ok (hash ∷ hashes)

-- The try block: the hashes, or `none` where it returns false.
unfoldable pub cache_body : ℕ → ℕ → ℕ → Bytes → Result (Option (List Bytes))
cache_body file_size mtime_ns chunk_count bytes = do
  (stored_size, b) ← read_exact 8 bytes
  (stored_mtime, c) ← read_exact 8 b
  (stored_chunk_size, d) ← read_exact 4 c
  (stored_count, left) ← read_exact 4 d
  if of_le64 stored_size == file_size
        && (of_le64 stored_mtime == mtime_ns && of_le32 stored_count == chunk_count)
      then (read_hashes chunk_count left >>= λ hashes. ok (some hashes))
      else ok none

abbrev pub cache_found : ℕ → ℕ → ℕ → Option Bytes → Result (Option (List Bytes))
cache_found file_size mtime_ns chunk_count none = ok none
cache_found file_size mtime_ns chunk_count (some bytes) =
    catch_runtime_error (cache_body file_size mtime_ns chunk_count bytes) none

unfoldable pub hash_cache_load : Bytes → ℕ → ℕ → ℕ → World → Result (Option (List Bytes))
hash_cache_load file_path file_size mtime_ns chunk_count w = do
  cache_path ← hash_cache_path_for file_path
  cache_found file_size mtime_ns chunk_count (w.disk cache_path)
