-- ===== src/Pull.antt =====
-- run_pull of src/core/pull.cpp, over TCP. The messages that it prints are left out. SHA-256 is a
-- parameter: the code takes it from OpenSSL.
pub mod Output
pub mod Verify
pub mod Steps
pub mod Chunk
pub mod Fetch
pub mod Whole
use embr.Base.{List, Option, [], if◌then◌else◌, index_mismatch, unexpected_message, ℕ, ◌==◌, ◌∷◌}
use embr.Chunks.{ChunkManager, all_done, chunk_count, needed_chunks}
use embr.Exec.{Exec, lift, pure, require, ◌>>=◌, ◌>>◌}
use embr.Geometry.{chunk_len, offset_of}
use embr.Partial.{remove, save}
use embr.Partial.Load.{load}
use embr.Protocol.{Bytes, FileMeta, Message, chunk_hdr, file_meta, is_type}
use embr.Protocol.Build.{make_chunk_req, make_complete, make_handshake}
use embr.Protocol.Parse.{parse_chunk_hdr, parse_filemeta}
use embr.Pull.Output.{map_range, open_output, preallocate}
use embr.Pull.Verify.{hash_at, settle}
use embr.Tcp.{recv_file}
use embr.Wire.{recv_msg, send_msg}
use embr.World.{World}

abbrev pub load_partial : Bytes → Bytes → ℕ → Exec World (Option ChunkManager)
load_partial out file_hash count w = (load out file_hash count w, w)

-- What was done before, and the output open.
unfoldable pub prepare : Bytes → FileMeta → Bytes → Exec World ChunkManager
prepare out meta file_hash = do
  found ← load_partial out file_hash meta.chunk_count
  cm ← open_output out meta.chunk_count found
  preallocate out meta.file_size found
  pure cm

unfoldable pub send_requests : List ℕ → Exec World (Unit {0})
send_requests [] = pure tt
send_requests (i ∷ is) = do
  req ← lift (make_chunk_req (record { chunk_index = i }))
  send_msg req
  send_requests is

-- The path of the output: the name that the sender gives is used where none is asked for.
abbrev pub output_for : Bytes → FileMeta → Bytes
output_for [] meta = meta.file_name
output_for (b ∷ bs) meta = b ∷ bs

module _ (sha256 : Bytes → Bytes) where
  -- The chunk is in the output: verify it, mark it and record the marks.
  unfoldable pub verify_chunk : Bytes → FileMeta → ChunkManager → ℕ → Exec World ChunkManager
  verify_chunk out meta cm i = do
    mapped ← map_range out (offset_of i) (chunk_len meta.file_size i)
    cm' ← lift (settle sha256 meta cm i mapped)
    file_hash ← lift (hash_at meta.chunk_hashes 0)
    save out file_hash cm'
    pure cm'

  -- What follows the receipt of a message that should announce chunk `i`.
  unfoldable pub on_chunk_hdr :
      Bytes → FileMeta → ChunkManager → ℕ → Message → Exec World ChunkManager
  on_chunk_hdr out meta cm i hdr_msg = do
    require (is_type hdr_msg.type chunk_hdr) unexpected_message
    hdr ← lift (parse_chunk_hdr hdr_msg)
    require (hdr.chunk_index == i) index_mismatch
    recv_file out (offset_of i) (chunk_len meta.file_size i)
    verify_chunk out meta cm i

  unfoldable pub recv_chunk : Bytes → FileMeta → ChunkManager → ℕ → Exec World ChunkManager
  recv_chunk out meta cm i = recv_msg >>= on_chunk_hdr out meta cm i

  unfoldable pub recv_chunks : Bytes → FileMeta → ChunkManager → List ℕ → Exec World ChunkManager
  recv_chunks out meta cm [] = pure cm
  recv_chunks out meta cm (i ∷ is) = do cm' ← recv_chunk out meta cm i; recv_chunks out meta cm' is

  -- The requests, the chunks, and the end.
  unfoldable pub fetch : Bytes → FileMeta → ChunkManager → Exec World (Unit {0})
  fetch out meta cm = do
    send_requests (needed_chunks cm)
    send_msg make_complete
    cm' ← recv_chunks out meta cm (needed_chunks cm)
    if all_done cm' then remove out else pure tt

  -- What follows FILE_META, with the path of the output settled.
  unfoldable pub receive : Bytes → FileMeta → Exec World (Unit {0})
  receive out meta = do
    file_hash ← lift (hash_at meta.chunk_hashes 0)
    cm ← prepare out meta file_hash
    fetch out meta cm

  unfoldable pub run_pull : Bytes → Exec World (Unit {0})
  run_pull output_path = do
    hs ← lift (make_handshake (record { token = [] }))
    send_msg hs
    meta_msg ← recv_msg
    require (is_type meta_msg.type file_meta) unexpected_message
    meta ← lift (parse_filemeta meta_msg)
    receive (output_for output_path meta) meta
