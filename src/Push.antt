-- ===== src/Push.antt =====
-- run_push of src/core/push.cpp, over TCP. The messages that it prints are left out.
pub mod Serve
pub mod Meta
pub mod Cached
pub mod Twice
use embr.Base.{
  if◌then◌else◌, leb, not, out_of_fuel, out_of_range, suc, unexpected_message, zero, ℕ, ◌%◌, ◌+◌,
}
use embr.Chunks.{chunk_count}
use embr.Exec.{Exec, lift, pure, require, throw, ◌>>=◌, ◌>>◌}
use embr.Geometry.{chunk_len, offset_of}
use embr.Protocol.{Bytes, FileMeta, Message, chunk_req, complete, handshake, is_type, u32_mod}
use embr.Protocol.Build.{make_chunk_hdr, make_filemeta}
use embr.Protocol.Parse.{parse_chunk_req, parse_handshake}
use embr.Tcp.{send_file}
use embr.Wire.{recv_msg, send_msg}
use embr.World.{World}

-- What the loop does with one message that is not COMPLETE. `file` is the content of the file that
-- is sent.
unfoldable pub answer : Bytes → FileMeta → Message → Exec World (Unit {0})
answer file meta msg = do
  require (is_type msg.type chunk_req) unexpected_message
  req ← lift (parse_chunk_req msg)
  require (not (leb meta.chunk_count req.chunk_index)) out_of_range
  hdr ← lift (make_chunk_hdr (record { chunk_index = req.chunk_index }))
  send_msg hdr
  send_file file (offset_of req.chunk_index) (chunk_len meta.file_size req.chunk_index)

-- The loop: it ends by COMPLETE, and returns how many chunks were sent. Each round receives a
-- message, so the bytes that the peer delivers bound the rounds.
unfoldable pub serve : ℕ → Bytes → FileMeta → ℕ → Exec World ℕ
serve zero file meta chunks_sent = throw out_of_fuel
serve (suc fuel) file meta chunks_sent = do
  msg ← recv_msg
  let rest = answer file meta msg >> serve fuel file meta ((chunks_sent + 1) % u32_mod)
  if is_type msg.type complete then pure chunks_sent else rest

unfoldable pub run_push : ℕ → Bytes → FileMeta → Exec World ℕ
run_push fuel file meta = do
  hs_msg ← recv_msg
  require (is_type hs_msg.type handshake) unexpected_message
  hs ← lift (parse_handshake hs_msg)
  meta_msg ← lift (make_filemeta meta)
  send_msg meta_msg
  serve fuel file meta 0
