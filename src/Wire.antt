-- ===== src/Wire.antt =====
-- send_msg and recv_msg of src/core/protocol.cpp.
pub mod Header
pub mod Frames
use mathlib.Core.Bool.{◌||◌}
use embr.Base.{[], get_or, if◌then◌else◌, length, ltb, ℕ}
use embr.Exec.{Exec, lift, pure, ◌>>=◌, ◌>>◌}
use embr.Protocol.{Bytes, Message, header_size, of_code}
use embr.Wire.Header.{check_header, header}
use embr.World.{World, recv_exact, send_exact}

unfoldable pub send_msg : Message → Exec World (Unit {0})
send_msg msg = do
  send_exact (header msg)
  if ltb 0 (length msg.payload) then send_exact msg.payload else pure tt

-- The payload is received only if it is not empty.
unfoldable pub recv_payload : ℕ → Exec World Bytes
recv_payload payload_len = if ltb 0 payload_len then recv_exact payload_len else pure []

unfoldable pub recv_msg : Exec World Message
recv_msg = do
  hdr ← recv_exact header_size
  payload_len ← lift (check_header hdr)
  payload ← recv_payload payload_len
  pure (record { type = of_code (get_or hdr 1 0); payload = payload })
