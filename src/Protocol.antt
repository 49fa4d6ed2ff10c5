-- ===== src/Protocol.antt =====
-- src/core/protocol.hpp: the constants, the message types and the typed payloads.
-- A byte is a number below 256, a byte array a list of them; std::string is a byte list too.
pub mod Words
pub mod Writer
pub mod Reader
pub mod Build
pub mod Parse
pub mod RoundTrip
pub mod Small
use embr.Base.{Bool, List, if◌then◌else◌, ℕ, ◌*◌, ◌<◌, ◌==◌, ◌^◌}

abbrev pub Bytes : Type 0
Bytes = List ℕ

abbrev pub IsByte : ℕ → Type 0
IsByte b = b < 256

abbrev pub protocol_version : ℕ
protocol_version = 0x02

abbrev pub header_size : ℕ
header_size = 6

abbrev pub file_size_bytes : ℕ
file_size_bytes = 8

abbrev pub len_prefix_bytes : ℕ
len_prefix_bytes = 4

abbrev pub max_payload_size : ℕ
max_payload_size = 64 * 1024 * 1024

abbrev pub hash_size : ℕ
hash_size = 32

abbrev pub chunk_size_const : ℕ
chunk_size_const = 1 * 1024 * 1024

-- The moduli of uint32_t, and of uint64_t and size_t.
abbrev pub u32_mod : ℕ
u32_mod = 2 ^ 32

abbrev pub u64_mod : ℕ
u64_mod = 2 ^ 64

pub data MsgType : Type 0 where
  invalid handshake file_meta chunk_req chunk_hdr reserved complete error cancel : MsgType

-- The underlying value of the enumerator.
abbrev pub code : MsgType → ℕ
code invalid = 0x00
code handshake = 0x01
code file_meta = 0x02
code chunk_req = 0x03
code chunk_hdr = 0x04
code reserved = 0x05
code complete = 0x06
code error = 0x07
code cancel = 0x08

-- Enumerators are compared by their values.
abbrev pub is_type : MsgType → MsgType → Bool
is_type s t = code s == code t

-- static_cast<MsgType>, for the values that an enumerator has; `recv_msg` rules out the others.
abbrev pub of_code : ℕ → MsgType
of_code n =
    if n == 1
    then handshake
    else if n == 2
    then file_meta
    else if n == 3
    then chunk_req
    else if n == 4
    then chunk_hdr
    else if n == 5
    then reserved
    else if n == 6
    then complete
    else if n == 7
    then error
    else if n == 8
    then cancel
    else invalid

pub record Message : Type 0 where
  pub type : MsgType
  pub payload : Bytes

pub record FileMeta : Type 0 where
  pub file_name : Bytes
  pub file_size : ℕ
  pub chunk_size : ℕ
  pub chunk_count : ℕ
  pub chunk_hashes : List Bytes

pub record HandshakePayload : Type 0 where
  pub token : Bytes

pub record ChunkReq : Type 0 where
  pub chunk_index : ℕ

pub record ChunkHdr : Type 0 where
  pub chunk_index : ℕ
