-- ===== src/Quic.antt =====
-- src/transport/quic_transport.cpp: a transport over one QUIC stream. What ngtcp2 answers and calls
-- back, and what the kernel returns, are arguments.
pub mod Packets
pub mod Pump
pub mod Stream
pub mod Grows
pub mod Cycle
pub mod Receive
pub mod Fetching
pub mod Acked
pub mod Sending
pub mod Ending
use embr.Base.{
  Bool, List, Option, [], drop, if◌then◌else◌, leb, length, min, none, some, take, ℕ, ◌%◌, ◌++◌,
  ◌+◌, ◌-◌, ◌||◌, ◌∷◌,
}
use embr.Egress.{ZcEgress}
use embr.Protocol.{Bytes, u64_mod}

-- A block that is kept until the peer has acknowledged it.
pub record Unacked : Type 0 where
  pub end_offset : ℕ
  pub block : Bytes

-- Where recv_file has the stream's bytes put: the mapping's length, and the bytes put there, of
-- which recv_dest_got_ is the count.
pub record Dest : Type 0 where
  pub dest_len : ℕ
  pub landed : Bytes

-- `delivered` and `accepted` are ngtcp2's account of the stream: the bytes that it has handed over
-- and those that it has taken. `closes` counts the CONNECTION_CLOSE packets that were sent.
pub record QuicTransport : Type 0 where
  pub stream_id : Option ℕ
  pub stream_fin_received : Bool
  pub fin_sent : Bool
  pub closed_ : Bool
  pub recv_buf : Bytes
  pub recv_dest : Option Dest
  pub zc : Option ZcEgress
  pub egress_init : Bool
  pub unacked : List Unacked
  pub stream_offset : ℕ
  pub delivered : Bytes
  pub accepted_bytes : Bytes
  pub closes : ℕ

abbrev pub quic_max_pktlen : ℕ
quic_max_pktlen = 1350

abbrev pub quic_max_burst : ℕ
quic_max_burst = 10

abbrev pub quic_zc_slots : ℕ
quic_zc_slots = 64

-- A call of ngtcp2's, with what it is about.
pub data Callback : Type 0 where
  stream_opened : ℕ → Callback
  stream_data : (fin : Bool) → Bytes → Callback
  data_acked : (offset datalen : ℕ) → Callback

-- How many of n bytes go into the mapping.
abbrev pub taken_by : Option Dest → Bytes → ℕ → ℕ
taken_by (some d) [] n = min n ((d.dest_len + u64_mod - length d.landed) % u64_mod)
taken_by _ _ n = 0

abbrev pub land : ℕ → Bytes → Option Dest → Option Dest
land n bytes none = none
land n bytes (some d) = some (record d { landed = d.landed ++ take n bytes })

unfoldable pub on_recv_stream_data : Bool → Bytes → QuicTransport → QuicTransport
on_recv_stream_data fin bytes q =
    let n = taken_by q.recv_dest q.recv_buf (length bytes) in
    record q {
      recv_dest = land n bytes q.recv_dest;
      recv_buf = q.recv_buf ++ drop n bytes;
      stream_fin_received = fin || q.stream_fin_received;
      delivered = q.delivered ++ bytes;
    }

unfoldable pub pop_acked : ℕ → List Unacked → List Unacked
pop_acked acked_end [] = []
pop_acked acked_end (u ∷ us) =
    let rest = pop_acked acked_end us in if leb u.end_offset acked_end then rest else u ∷ us

unfoldable pub on_acked : ℕ → ℕ → QuicTransport → QuicTransport
on_acked offset datalen q = record q {
  unacked = pop_acked ((offset + datalen) % u64_mod) q.unacked;
}

unfoldable pub unacked_bytes : List Unacked → ℕ
unacked_bytes [] = 0
unacked_bytes (u ∷ us) = (length u.block + unacked_bytes us) % u64_mod

abbrev pub call_back : Callback → QuicTransport → QuicTransport
call_back (stream_opened id) q = record q { stream_id = some id }
call_back (stream_data fin bytes) q = on_recv_stream_data fin bytes q
call_back (data_acked offset datalen) q = on_acked offset datalen q

unfoldable pub call_all : List Callback → QuicTransport → QuicTransport
call_all [] q = q
call_all (c ∷ cs) q = call_all cs (call_back c q)
