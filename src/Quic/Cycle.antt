-- ===== src/Quic/Cycle.antt =====
-- A cycle of pump_once of src/transport/quic_transport.cpp keeps the order of the stream.
use embr.Base.{
  Bool, List, Option, Result, [], arith, err, false, none, ok, some, suc, true, zero, ℕ, ◌∷◌,
}
use embr.Egress.{Flushed, ZcEgress}
use embr.Egress.Calls.{Turn, commit, reserve}
use embr.Exec.{Exec}
use embr.Quic.{
  Callback, QuicTransport, call_all, call_back, data_acked, on_acked, quic_max_burst, stream_data,
  stream_opened,
}
use embr.Quic.Grows.{
  Always, Always-bind, Always-if, Grows, Grows-refl, Grows-trans, SameStream, SameStream-Grows,
  on_recv_stream_data-Grows,
}
use embr.Quic.Packets.{
  Passage, SendResult, Setup, begin_packet, blocked, commit_in, committed, flush_packets,
  init_egress, keep_slot, reserve_in, send_failed, send_packet, sent_ok,
}
use embr.Quic.Pump.{
  Burst, Closing, Expiry, Fed, PacketMade, Pump, Selected, burst_round, burst_sent,
  close_with_error, cut_packet, drain_loop_quic, drain_packets, end_burst, expired, expiry_error,
  fed, fed_fine, feed_error, idle_close, no_packet, not_due, nothing_left, packet_of, peer_gone,
  pump_fed, pump_once, pump_selected, pump_timer, recv_error, select_error, write_refused,
}

call_back-Grows : (c : Callback) (q : QuicTransport) → Grows q (call_back c q)
unfolding on_acked
call_back-Grows (stream_opened id) q = SameStream-Grows (ground arith)
call_back-Grows (stream_data fin bytes) q = on_recv_stream_data-Grows fin bytes q
call_back-Grows (data_acked offset datalen) q = SameStream-Grows (ground arith)

call_all-Grows : (cs : List Callback) (q : QuicTransport) → Grows q (call_all cs q)
unfolding call_all
call_all-Grows [] q = Grows-refl q
call_all-Grows (c ∷ cs) q = Grows-trans (call_back-Grows c q) (call_all-Grows cs (call_back c q))

init_egress-SameStream : (s : Setup) (q : QuicTransport) → SameStream q (init_egress s q)
unfolding init_egress
init_egress-SameStream s q = ground arith

keep_slot-SameStream :
    (r : Result (Option ℕ) × ZcEgress) (q : QuicTransport) → SameStream q (keep_slot r q).1
keep_slot-SameStream (ok (some i), e) q = ground arith
keep_slot-SameStream (ok none, e) q = ground arith
keep_slot-SameStream (err x, e) q = ground arith

reserve_in-Grows : (z : Option ZcEgress) (turns : List Turn) → Always (reserve_in z turns)
reserve_in-Grows none turns q = Grows-refl q
reserve_in-Grows (some e) turns q = SameStream-Grows (keep_slot-SameStream (reserve turns e) q)

pub begin_packet-Grows : (p : Passage) → Always (begin_packet p)
unfolding begin_packet
begin_packet-Grows p q =
    let q' = init_egress p.setup q in
    Grows-trans (SameStream-Grows (init_egress-SameStream p.setup q))
      (reserve_in-Grows q'.zc p.turns q')

committed-SameStream :
    (r : Result Bool × ZcEgress) (q : QuicTransport) → SameStream q (committed r q).1
committed-SameStream (ok b, e) q = ground arith
committed-SameStream (err x, e) q = ground arith

commit_in-Grows : (z : Option ZcEgress) (n : ℕ) (p : Passage) → Always (commit_in z n p)
commit_in-Grows none n p q = Grows-refl q
commit_in-Grows (some e) n p q = SameStream-Grows (committed-SameStream (commit n p.entry e) q)

pub send_packet-Grows : (n : ℕ) (p : Passage) → Always (send_packet n p)
unfolding send_packet
send_packet-Grows n p q = commit_in-Grows q.zc n p q

pub flush_packets-Grows : (f : Flushed) (q : QuicTransport) → Grows q (flush_packets f q)
unfolding flush_packets
flush_packets-Grows f q = SameStream-Grows (ground arith)

end_burst-Grows : (f : Flushed) → Always (end_burst f)
end_burst-Grows f q = flush_packets-Grows f q

burst_sent-Grows :
    (r : SendResult) (f : Flushed) (more : Exec QuicTransport Bool)
    → Always more
    → Always (burst_sent r f more)
burst_sent-Grows sent_ok f more g = g
burst_sent-Grows blocked f more g = end_burst-Grows f
burst_sent-Grows send_failed f more g = Grows-refl

burst_round-Grows :
    (b : Burst) (f : Flushed) (more : Exec QuicTransport Bool)
    → Always more
    → Always (burst_round b f more)
burst_round-Grows b f more g = made b.made
  where
    made : (w : PacketMade) → Always (burst_round (record b { made = w }) f more)
    made nothing_left = end_burst-Grows f
    made write_refused = Grows-refl
    made (packet_of size) =
        Always-bind (send_packet size b.passage) (λ r. burst_sent r f more)
          (send_packet-Grows size b.passage) (λ r. burst_sent-Grows r f more g)

drain_loop_quic-Grows : (n : ℕ) (f : Flushed) (bs : List Burst) → Always (drain_loop_quic n f bs)
unfolding drain_loop_quic
drain_loop_quic-Grows zero f bs = end_burst-Grows f
drain_loop_quic-Grows (suc n) f [] = end_burst-Grows f
drain_loop_quic-Grows (suc n) f (b ∷ bs) =
    Always-bind (begin_packet b.passage) (λ _. burst_round b f (drain_loop_quic n f bs))
      (begin_packet-Grows b.passage)
      (λ _. burst_round-Grows b f (drain_loop_quic n f bs) (drain_loop_quic-Grows n f bs))

drain_packets-Grows : (f : Flushed) (bs : List Burst) → Always (drain_packets f bs)
unfolding drain_packets
drain_packets-Grows f bs q =
    Always-if q.closed_ (λ s. (ok true, s)) (drain_loop_quic quic_max_burst f bs)
      (λ s. Grows-refl s) (drain_loop_quic-Grows quic_max_burst f bs) q

pub close_with_error-Grows : (c : Closing) (q : QuicTransport) → Grows q (close_with_error c q)
unfolding close_with_error
close_with_error-Grows c q = SameStream-Grows (ground arith)

gone-Grows : (q : QuicTransport) → Grows q (record q { closed_ = true })
gone-Grows q = SameStream-Grows (ground arith)

pump_timer-Grows : (p : Pump) → Always (pump_timer p)
pump_timer-Grows p q = timer p.expiry
  where
    timer : (x : Expiry) → Grows q (pump_timer (record p { expiry = x }) q).1
    timer not_due = drain_packets-Grows p.last_flush p.bursts q
    timer expired = drain_packets-Grows p.last_flush p.bursts q
    timer idle_close = gone-Grows q
    timer expiry_error = close_with_error-Grows p.closing q

pump_fed-Grows : (r : Fed) (p : Pump) → Always (pump_fed r p)
pump_fed-Grows fed_fine p q = pump_timer-Grows p q
pump_fed-Grows peer_gone p q = gone-Grows q
pump_fed-Grows feed_error p q = close_with_error-Grows p.closing q

pump_selected-Grows : (s : Selected) (p : Pump) → Always (pump_selected s p)
pump_selected-Grows no_packet p q = pump_timer-Grows p q
pump_selected-Grows select_error p q = Grows-refl q
pump_selected-Grows recv_error p q = Grows-refl q
pump_selected-Grows cut_packet p q = Grows-refl q
pump_selected-Grows (fed cs r) p q =
    Grows-trans (call_all-Grows cs q) (pump_fed-Grows r p (call_all cs q))

pub pump_once-Grows : (p : Pump) → Always (pump_once p)
unfolding pump_once
pump_once-Grows p q =
    Always-if q.closed_ (λ s. (ok false, s)) (pump_selected p.selected p) (λ s. Grows-refl s)
      (pump_selected-Grows p.selected p) q
