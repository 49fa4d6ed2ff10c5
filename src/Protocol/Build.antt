-- ===== src/Protocol/Build.antt =====
-- The make_ functions of src/core/protocol.cpp.
use embr.Base.{Result, [], guard, hash_count, length, ok, ◌%◌, ◌*◌, ◌+◌, ◌==◌, ◌>>=◌, ◌>>◌}
use embr.Protocol.{
  Bytes, ChunkHdr, ChunkReq, FileMeta, HandshakePayload, Message, chunk_hdr, chunk_req, complete,
  error, file_meta, file_size_bytes, handshake, hash_size, len_prefix_bytes, u64_mod,
}
use embr.Protocol.Writer.{new_writer, put_bytes, put_hashes, put_str, put_u32, put_u64}

unfoldable pub make_filemeta : FileMeta → Result Message
make_filemeta m = do
  guard (length m.chunk_hashes == m.chunk_count) hash_count
  let payload_size =
      (file_size_bytes + len_prefix_bytes + length m.file_name + 4 + 4 + m.chunk_count * hash_size)
      % u64_mod
  w₁ ← put_u64 (new_writer payload_size) m.file_size
  w₂ ← put_str w₁ m.file_name
  w₃ ← put_u32 w₂ m.chunk_size
  w₄ ← put_u32 w₃ m.chunk_count
  w₅ ← put_hashes w₄ m.chunk_hashes
  ok (record { type = file_meta; payload = w₅.buf })

unfoldable pub make_complete : Message
make_complete = record { type = complete; payload = [] }

unfoldable pub make_error : Bytes → Result Message
make_error reason = do
  w ← put_bytes (new_writer (length reason)) reason
  ok (record { type = error; payload = w.buf })

unfoldable pub make_handshake : HandshakePayload → Result Message
make_handshake p = do
  w ← put_str (new_writer ((len_prefix_bytes + length p.token) % u64_mod)) p.token
  ok (record { type = handshake; payload = w.buf })

unfoldable pub make_chunk_req : ChunkReq → Result Message
make_chunk_req req = do
  w ← put_u32 (new_writer 4) req.chunk_index
  ok (record { type = chunk_req; payload = w.buf })

unfoldable pub make_chunk_hdr : ChunkHdr → Result Message
make_chunk_hdr hdr = do
  w ← put_u32 (new_writer 4) hdr.chunk_index
  ok (record { type = chunk_hdr; payload = w.buf })
