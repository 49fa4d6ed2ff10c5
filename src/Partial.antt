-- ===== src/Partial.antt =====
-- src/core/partial_file.cpp: the resume state that is kept beside an output file. The format is
-- [file_hash: 32 bytes][bitmap].
pub mod Bitmap
pub mod Load
pub mod RoundTrip
use embr.Base.{replicate}
use embr.Chunks.{ChunkManager, chunk_count}
use embr.Exec.{Exec, lift, ◌>>=◌, ◌>>◌}
use embr.Partial.Bitmap.{bitmap_bytes, pack}
use embr.Paths.{path_for}
use embr.Protocol.{Bytes}
use embr.World.{World}
use embr.World.Files.{append_file, open_truncate, unlink}

unfoldable pub save : Bytes → Bytes → ChunkManager → Exec World (Unit {0})
save output_path file_hash cm = do
  open_truncate (path_for output_path)
  append_file (path_for output_path) file_hash
  raw ← lift (pack 0 cm.bitmap (replicate (bitmap_bytes (chunk_count cm)) 0))
  append_file (path_for output_path) raw

unfoldable pub remove : Bytes → Exec World (Unit {0})
remove output_path = unlink (path_for output_path)
