-- ===== src/Quic/Pump.antt =====
-- drain_packets, close_connection and pump_once of src/transport/quic_transport.cpp. An action that
-- returns an int returns whether it is 0.
use embr.Base.{Bool, List, [], false, if◌then◌else◌, ok, suc, true, zero, ℕ, ◌+◌, ◌||◌, ◌∷◌}
use embr.Egress.{Flushed}
use embr.Exec.{Exec, pure, ◌>>=◌, ◌>>◌}
use embr.Quic.{Callback, QuicTransport, Unacked, call_all, quic_max_burst}
use embr.Quic.Packets.{
  Passage, SendResult, begin_packet, blocked, flush_packets, send_failed, send_packet, sent_ok,
}

-- What ngtcp2_conn_writev_stream returns without stream data.
pub data PacketMade : Type 0 where
  nothing_left : PacketMade
  write_refused : PacketMade
  packet_of : ℕ → PacketMade

pub record Burst : Type 0 where
  pub passage : Passage
  pub made : PacketMade

abbrev pub end_burst : Flushed → Exec QuicTransport Bool
end_burst f q = (ok true, flush_packets f q)

abbrev pub burst_sent : SendResult → Flushed → Exec QuicTransport Bool → Exec QuicTransport Bool
burst_sent sent_ok f more = more
burst_sent blocked f more = end_burst f
burst_sent send_failed f more = pure false

abbrev pub burst_round : Burst → Flushed → Exec QuicTransport Bool → Exec QuicTransport Bool
burst_round b f more = elim b.made [
  | nothing_left ↦ end_burst f
  | write_refused ↦ pure false
  | packet_of size ↦ send_packet size b.passage >>= λ r. burst_sent r f more
]

-- The loop of drain_packets, with `n` rounds to go; a list that is used up is a packet that is
-- not there.
unfoldable pub drain_loop_quic : ℕ → Flushed → List Burst → Exec QuicTransport Bool
drain_loop_quic zero f bs = end_burst f
drain_loop_quic (suc n) f [] = end_burst f
drain_loop_quic (suc n) f (b ∷ bs) =
    begin_packet b.passage >> burst_round b f (drain_loop_quic n f bs)

unfoldable pub drain_packets : Flushed → List Burst → Exec QuicTransport Bool
drain_packets f bs q = if q.closed_ then (ok true, q) else drain_loop_quic quic_max_burst f bs q

-- Whether ngtcp2 is in its closing or draining period, and whether it writes a packet.
pub record Closing : Type 0 where
  pub in_period : Bool
  pub writes_close : Bool

abbrev pub send_close : Closing → QuicTransport → QuicTransport
send_close c q = record q {
  closed_ = true;
  closes = if c.writes_close then q.closes + 1 else q.closes;
}

-- close_connection with an error.
unfoldable pub close_with_error : Closing → QuicTransport → QuicTransport
close_with_error c q =
    if q.closed_ || c.in_period then record q { closed_ = true } else send_close c q

-- What one cycle of pump_once meets.
pub data Fed : Type 0 where
  fed_fine peer_gone feed_error : Fed

pub data Selected : Type 0 where
  no_packet select_error recv_error cut_packet : Selected
  fed : List Callback → Fed → Selected

pub data Expiry : Type 0 where
  not_due expired idle_close expiry_error : Expiry

pub record Pump : Type 0 where
  pub selected : Selected
  pub expiry : Expiry
  pub bursts : List Burst
  pub last_flush : Flushed
  pub closing : Closing

abbrev pub pump_timer : Pump → Exec QuicTransport Bool
pump_timer p q = elim p.expiry [
  | not_due ↦ drain_packets p.last_flush p.bursts q
  | expired ↦ drain_packets p.last_flush p.bursts q
  | idle_close ↦ (ok false, record q { closed_ = true })
  | expiry_error ↦ (ok false, close_with_error p.closing q)
]

abbrev pub pump_fed : Fed → Pump → Exec QuicTransport Bool
pump_fed fed_fine p q = pump_timer p q
pump_fed peer_gone p q = (ok false, record q { closed_ = true })
pump_fed feed_error p q = (ok false, close_with_error p.closing q)

abbrev pub pump_selected : Selected → Pump → Exec QuicTransport Bool
pump_selected no_packet p q = pump_timer p q
pump_selected select_error p q = (ok false, q)
pump_selected recv_error p q = (ok false, q)
pump_selected cut_packet p q = (ok false, q)
pump_selected (fed cs r) p q = pump_fed r p (call_all cs q)

unfoldable pub pump_once : Pump → Exec QuicTransport Bool
pump_once p q = if q.closed_ then (ok false, q) else pump_selected p.selected p q

abbrev pub none_kept : List Unacked → Bool
none_kept [] = true
none_kept (u ∷ us) = false

-- The pumps of a close without an error, until nothing is kept or the deadline passes.
unfoldable pub linger : List Pump → Exec QuicTransport (Unit {0})
linger [] q = (ok tt, q)
linger (p ∷ ps) q =
    let more = (pump_once p >>= λ b. if b then linger ps else pure tt) q in
    if none_kept q.unacked || q.closed_ then (ok tt, q) else more

-- close_connection without an error.
unfoldable pub close_gracefully : Closing → List Pump → Exec QuicTransport (Unit {0})
close_gracefully c ps q =
    let lingering = (linger ps >> λ q'. (ok tt, if q'.closed_ then q' else send_close c q')) q in
    if q.closed_ || c.in_period then (ok tt, record q { closed_ = true }) else lingering
