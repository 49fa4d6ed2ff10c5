-- ===== src/Partial/Load.antt =====
-- PartialFile::load of src/core/partial_file.cpp.
use embr.Base.{
  Bool, Option, Result, false, if◌then◌else◌, length, none, ok, some, ℕ, ◌%◌, ◌&&◌, ◌*◌, ◌==◌,
  ◌>>=◌,
}
use embr.Chunks.{ChunkManager, new_manager}
use embr.Partial.Bitmap.{bitmap_bytes, unpack}
use embr.Paths.{path_for}
use embr.Protocol.{Bytes, chunk_size_const, hash_size, u64_mod}
use embr.World.{World}
use embr.World.Files.{catch_runtime_error, read_exact, same_bytes}

-- ::stat of the output file: its size, if it is there.
abbrev pub stat_size : Option Bytes → Option ℕ
stat_size none = none
stat_size (some bytes) = some (length bytes)

-- The output must be there, of the size of its chunks.
unfoldable pub size_fits : Option ℕ → ℕ → Bool
size_fits none count = false
size_fits (some size) count = size == count * chunk_size_const % u64_mod

-- What the try block does once the stored hash has been compared and the output checked.
unfoldable pub read_bitmap : ℕ → Bytes → Result (Option ChunkManager)
read_bitmap count left = do
  (raw, left') ← read_exact (bitmap_bytes count) left
  cm ← unpack count 0 raw (new_manager count)
  ok (some cm)

unfoldable pub load_body : Option Bytes → Bytes → ℕ → Bytes → Result (Option ChunkManager)
load_body output file_hash count partial = do
  (stored_hash, left) ← read_exact hash_size partial
  if same_bytes stored_hash file_hash && size_fits (stat_size output) count
      then read_bitmap count left
      else ok none

unfoldable pub load : Bytes → Bytes → ℕ → World → Result (Option ChunkManager)
load output_path file_hash count w = elim (w.disk (path_for output_path)) [
  | none ↦ ok none
  | some partial ↦ catch_runtime_error (load_body (w.disk output_path) file_hash count partial) none
]
