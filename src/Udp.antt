-- ===== src/Udp.antt =====
-- src/transport/udp_transport.cpp: the tags of the completions, the fragment header, and how a
-- chunk is cut into fragments.
pub mod Header
pub mod Recv
pub mod Receiving
pub mod Rounds
pub mod Writes
pub mod Handling
pub mod Rebuild
pub mod Collect
pub mod Send
pub mod Sends
pub mod Drains
pub mod Fragments
use embr.Base.{
  Bool, [], bit_and, bit_or, drop, get_or, if◌then◌else◌, ltb, ℕ, ◌%◌, ◌*◌, ◌++◌, ◌+◌, ◌-◌, ◌/◌,
  ◌==◌, ◌^◌, ◌∷◌,
}
use embr.Protocol.{Bytes, chunk_size_const, u64_mod}
use embr.Protocol.Words.{be32, of_be32}

abbrev pub udp_mtu : ℕ
udp_mtu = 65000

abbrev pub frag_hdr_size : ℕ
frag_hdr_size = 10

abbrev pub udp_payload_size : ℕ
udp_payload_size = udp_mtu - frag_hdr_size

abbrev pub max_frags_per_chunk : ℕ
max_frags_per_chunk = (chunk_size_const + udp_payload_size - 1) / udp_payload_size

abbrev pub udp_chunk_bufs : ℕ
udp_chunk_bufs = 2

abbrev pub udp_frag_bufs : ℕ
udp_frag_bufs = 32

pub data SqeTag : Type 0 where
  tag_read tag_send tag_recv tag_write : SqeTag

abbrev pub tag_value : SqeTag → ℕ
tag_value tag_read = 1
tag_value tag_send = 2
tag_value tag_recv = 3
tag_value tag_write = 4

abbrev pub tag_shift : ℕ
tag_shift = 56

abbrev pub idx_mask : ℕ
idx_mask = 0x00FFFFFFFFFFFFFF

unfoldable pub make_user_data : SqeTag → ℕ → ℕ
make_user_data tag idx = bit_or (tag_value tag * 2 ^ tag_shift % u64_mod) (idx % u64_mod)

-- The value that the enumeration is made of.
unfoldable pub get_tag : ℕ → ℕ
get_tag user_data = user_data / 2 ^ tag_shift % 256

unfoldable pub get_index : ℕ → ℕ
get_index user_data = bit_and user_data idx_mask

abbrev pub has_tag : SqeTag → ℕ → Bool
has_tag tag user_data = get_tag user_data == tag_value tag

pub record FragHdr : Type 0 where
  pub hdr_chunk : ℕ
  pub frag_index : ℕ
  pub frag_len : ℕ

-- htons, and ntohs of the first two bytes.
abbrev pub be16 : ℕ → Bytes
be16 v = v / 2 ^ 8 % 256 ∷ v % 256 ∷ []

abbrev pub of_be16 : Bytes → ℕ
of_be16 bs = get_or bs 0 0 * 2 ^ 8 + get_or bs 1 0

unfoldable pub parse_frag_hdr : Bytes → FragHdr
parse_frag_hdr buf = record {
  hdr_chunk = of_be32 buf;
  frag_index = of_be32 (drop 4 buf);
  frag_len = of_be16 (drop 8 buf);
}

unfoldable pub write_frag_hdr : ℕ → ℕ → ℕ → Bytes
write_frag_hdr chunk_index frag_index frag_len =
    be32 chunk_index ++ (be32 frag_index ++ be16 frag_len)

-- How many fragments a chunk has, and the length of each.
abbrev pub frag_count_of : ℕ → ℕ
frag_count_of len = (len + udp_payload_size - 1) / udp_payload_size

abbrev pub frag_len_of : ℕ → ℕ → ℕ
frag_len_of len i =
    if ltb (i + 1) (frag_count_of len) then udp_payload_size else len - i * udp_payload_size
