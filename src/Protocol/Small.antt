-- ===== src/Protocol/Small.antt =====
-- The messages with one field: built payloads are read back (src/core/protocol.cpp).
use embr.Base.{
  [], ap, append-nil, arith, length, mod-eq_of_lt, ok, refl, sym, ℕ, ◌++◌, ◌+◌, ◌<◌, ◌≡◌,
}
use embr.Protocol.{
  Bytes, ChunkHdr, ChunkReq, HandshakePayload, Message, chunk_hdr, chunk_req, handshake,
  len_prefix_bytes, u32_mod, u64_mod,
}
use embr.Protocol.Build.{make_chunk_hdr, make_chunk_req, make_handshake}
use embr.Protocol.Parse.{parse_chunk_hdr, parse_chunk_req, parse_handshake, reader}
use embr.Protocol.Reader.{Left, get_str-Left, get_u32-Left}
use embr.Protocol.Words.{be32}
use embr.Protocol.Writer.{put_str-written, put_u32-written, str_bytes}

abbrev pub req_message : ℕ → Message
req_message index = record { type = chunk_req; payload = be32 index }

abbrev pub hdr_message : ℕ → Message
hdr_message index = record { type = chunk_hdr; payload = be32 index }

abbrev pub handshake_message : Bytes → Message
handshake_message token = record { type = handshake; payload = str_bytes token }

pub make_chunk_req_lem : (req : ChunkReq) → make_chunk_req req ≡ ok (req_message req.chunk_index)
unfolding make_chunk_req
make_chunk_req_lem req = rw (put_u32-written [] req.chunk_index 4 0 refl) refl

pub make_chunk_hdr_lem : (hdr : ChunkHdr) → make_chunk_hdr hdr ≡ ok (hdr_message hdr.chunk_index)
unfolding make_chunk_hdr
make_chunk_hdr_lem hdr = rw (put_u32-written [] hdr.chunk_index 4 0 refl) refl

pub make_handshake_lem :
    (p : HandshakePayload)
    → length p.token < u32_mod
    → make_handshake p ≡ ok (handshake_message p.token)
unfolding make_handshake
make_handshake_lem p h =
    rw
      (
        mod-eq_of_lt {n = len_prefix_bytes + length p.token} {m = u64_mod} (omega arith),
        put_str-written [] p.token (len_prefix_bytes + length p.token) 0 (omega arith),
      )
      (ap (λ (b : Bytes). ok (record { type = handshake; payload = b }))
        (append-nil (str_bytes p.token)))

reader-Left : (msg : Message) → Left (reader msg) (msg.payload ++ [])
reader-Left msg = record { at = sym (append-nil msg.payload); fits = omega arith; whole = refl }

pub parse_chunk_req_lem :
    (index : ℕ)
    → index < u32_mod
    → parse_chunk_req (req_message index) ≡ ok (record { chunk_index = index })
unfolding parse_chunk_req
parse_chunk_req_lem index h = rw (get_u32-Left index [] (reader-Left (req_message index)) h) refl

pub parse_chunk_hdr_lem :
    (index : ℕ)
    → index < u32_mod
    → parse_chunk_hdr (hdr_message index) ≡ ok (record { chunk_index = index })
unfolding parse_chunk_hdr
parse_chunk_hdr_lem index h = rw (get_u32-Left index [] (reader-Left (hdr_message index)) h) refl

pub parse_handshake_lem :
    (token : Bytes)
    → length token < u32_mod
    → parse_handshake (handshake_message token) ≡ ok (record { token = token })
unfolding parse_handshake
parse_handshake_lem token h =
    rw (get_str-Left token [] (reader-Left (handshake_message token)) h) refl
