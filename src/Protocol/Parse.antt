-- ===== src/Protocol/Parse.antt =====
-- The parse_ functions of src/core/protocol.cpp.
use embr.Base.{
  List, Result, [], err, guard, if◌then◌else◌, length, ok, suc, wrong_type, zero, ℕ, ◌*◌, ◌>>=◌,
  ◌>>◌, ◌∷◌,
}
use embr.Protocol.{
  Bytes, ChunkHdr, ChunkReq, FileMeta, HandshakePayload, Message, chunk_hdr, chunk_req, error,
  file_meta, handshake, hash_size, is_type,
}
use embr.Protocol.Reader.{Reader, ensure, get_bytes, get_str, get_u32, get_u64}

abbrev pub reader : Message → Reader
reader msg = record { bytes = msg.payload; pos = 0; len = length msg.payload }

-- The loop over the resized vector of hashes.
unfoldable pub get_hashes : ℕ → Reader → Result (List Bytes × Reader)
get_hashes zero r = ok ([], r)
get_hashes (suc n) r = do
  (hash, r') ← get_bytes hash_size r
  (hashes, r'') ← get_hashes n r'
  ok (hash ∷ hashes, r'')

unfoldable pub parse_filemeta : Message → Result FileMeta
parse_filemeta msg = do
  guard (is_type msg.type file_meta) wrong_type
  (file_size, r₁) ← get_u64 (reader msg)
  (file_name, r₂) ← get_str r₁
  (chunk_size, r₃) ← get_u32 r₂
  (chunk_count, r₄) ← get_u32 r₃
  ensure r₄ (chunk_count * hash_size)
  (chunk_hashes, r₅) ← get_hashes chunk_count r₄
  ok (record {
    file_name = file_name;
    file_size = file_size;
    chunk_size = chunk_size;
    chunk_count = chunk_count;
    chunk_hashes = chunk_hashes;
  })

unfoldable pub parse_error : Message → Result Bytes
parse_error msg = if is_type msg.type error then ok msg.payload else err wrong_type

unfoldable pub parse_handshake : Message → Result HandshakePayload
parse_handshake msg = do
  guard (is_type msg.type handshake) wrong_type
  (token, r) ← get_str (reader msg)
  ok (record { token = token })

unfoldable pub parse_chunk_req : Message → Result ChunkReq
parse_chunk_req msg = do
  guard (is_type msg.type chunk_req) wrong_type
  (chunk_index, r) ← get_u32 (reader msg)
  ok (record { chunk_index = chunk_index })

unfoldable pub parse_chunk_hdr : Message → Result ChunkHdr
parse_chunk_hdr msg = do
  guard (is_type msg.type chunk_hdr) wrong_type
  (chunk_index, r) ← get_u32 (reader msg)
  ok (record { chunk_index = chunk_index })
