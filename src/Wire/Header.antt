-- ===== src/Wire/Header.antt =====
-- The checks that recv_msg of src/core/protocol.cpp makes on the six bytes of a header.
use embr.Base.{
  Result, arith, bad_version, drop, get_or, guard, length, le→ltb, ltb, mod-eq_of_lt, not, ok, refl,
  too_long, true, unknown_type, ℕ, ◌%◌, ◌==◌, ◌>>◌, ◌||◌, ◌∷◌, ◌≡◌, ◌≢◌, ◌≤◌,
}
use embr.Protocol.{
  Bytes, Message, MsgType, cancel, code, handshake, invalid, max_payload_size, of_code,
  protocol_version, u32_mod,
}
use embr.Protocol.Words.{be32, of_be32, of_be32-be32}

-- Returns the length of the payload, or throws.
unfoldable pub check_header : Bytes → Result ℕ
check_header hdr = do
  let type_byte = get_or hdr 1 0
  guard (get_or hdr 0 0 == protocol_version) (bad_version (get_or hdr 0 0))
  guard (not (ltb type_byte (code handshake) || ltb (code cancel) type_byte))
      (unknown_type type_byte)
  let payload_len = of_be32 (drop 2 hdr)
  guard (not (ltb max_payload_size payload_len)) (too_long payload_len)
  ok payload_len

-- A header that passes names a type that may be sent, and a length within the limit.
pub check_header-bounds :
    (hdr : Bytes) {n : ℕ}
    → check_header hdr ≡ ok n
    → (of_code (get_or hdr 1 0) ≢ invalid) × (n ≤ max_payload_size)
unfolding check_header
check_header-bounds hdr e = ground arith

-- The header that send_msg writes.
abbrev pub header : Message → Bytes
header msg = protocol_version ∷ (code msg.type % 256) ∷ be32 (length msg.payload % u32_mod)

type_in_range :
    (t : MsgType)
    → t ≢ invalid
    → not (ltb (code t % 256) (code handshake) || ltb (code cancel) (code t % 256)) ≡ true
type_in_range invalid h = absurd (h refl)
type_in_range _ h = refl

pub check_header-header :
    (msg : Message)
    → msg.type ≢ invalid
    → length msg.payload ≤ max_payload_size
    → check_header (header msg) ≡ ok (length msg.payload)
unfolding check_header
check_header-header msg typed short =
    rw
      (
        of_be32-be32 (length msg.payload % u32_mod) (omega arith),
        mod-eq_of_lt {n = length msg.payload} {m = u32_mod} (omega arith),
        type_in_range msg.type typed,
        le→ltb max_payload_size (length msg.payload) short,
      )
      refl
