-- ===== src/Tests/Sessions.antt =====
-- Examples for src/transport/quic_transport.cpp: a transport that has its stream and uses sendmsg.
use embr.Base.{[], arith, false, none, refl, some, true, ◌∷◌, ◌≡◌}
use embr.Egress.{Flushed}
use embr.Egress.Calls.{at_once}
use embr.Quic.{QuicTransport, on_acked, stream_data}
use embr.Quic.Acked.{ending_after, on_acked-ending_after}
use embr.Quic.Ending.{IsClosed, close_gracefully-IsClosed}
use embr.Quic.Fetching.{FileInOrder, quic_recv_file-FileInOrder}
use embr.Quic.Packets.{Passage, sent_ok}
use embr.Quic.Pump.{Closing, Pump, close_gracefully, fed, fed_fine, linger, not_due, packet_of}
use embr.Quic.Receive.{InOrder, quic_recv-InOrder}
use embr.Quic.Sending.{Sent, quic_send-Sent}
use embr.Quic.Stream.{Round, quic_recv, quic_recv_file, quic_send, stream_packet}

abbrev ready_transport : QuicTransport
ready_transport = record {
  stream_id = some 0;
  stream_fin_received = false;
  fin_sent = false;
  closed_ = false;
  recv_buf = 4 ∷ [];
  recv_dest = none;
  zc = none;
  egress_init = true;
  unacked = [];
  stream_offset = 0;
  delivered = 4 ∷ [];
  accepted_bytes = [];
  closes = 0;
}

abbrev no_flush : Flushed
no_flush = record { submits = []; found = [] }

abbrev by_kernel : Passage
by_kernel = record {
  setup = record { asks_sendmsg = true; ring_registers = none };
  turns = [];
  entry = at_once;
  by_sendmsg = sent_ok;
}

abbrev open_period : Closing
open_period = record { in_period = false; writes_close = true }

abbrev two_bytes_come : Pump
two_bytes_come = record {
  selected = fed (stream_data false (5 ∷ 6 ∷ []) ∷ []) fed_fine;
  expiry = not_due;
  bursts = record { passage = by_kernel; made = packet_of 40 } ∷ [];
  last_flush = no_flush;
  closing = open_period;
}

quic_recv-InOrder_example :
    InOrder 8 ready_transport
      (quic_recv (two_bytes_come ∷ []) 8 ready_transport).0
      (quic_recv (two_bytes_come ∷ []) 8 ready_transport).1
quic_recv-InOrder_example = quic_recv-InOrder (two_bytes_come ∷ []) 8 ready_transport refl

quic_recv_file-FileInOrder_example :
    FileInOrder 2 ready_transport
      (quic_recv_file true (two_bytes_come ∷ []) 2 ready_transport).0
      (quic_recv_file true (two_bytes_come ∷ []) 2 ready_transport).1.0
      (quic_recv_file true (two_bytes_come ∷ []) 2 ready_transport).1.1
quic_recv_file-FileInOrder_example =
    quic_recv_file-FileInOrder (two_bytes_come ∷ []) 2 ready_transport (omega arith)

abbrev one_byte_goes : Round
one_byte_goes = record {
  passage = by_kernel;
  made = stream_packet 90 (some 1);
  pump = two_bytes_come;
  closing = open_period;
}

quic_send-Sent_example :
    Sent
      (9 ∷ 8 ∷ [])
      ready_transport
      (quic_send no_flush (one_byte_goes ∷ one_byte_goes ∷ []) (9 ∷ 8 ∷ []) ready_transport).0
      (quic_send no_flush (one_byte_goes ∷ one_byte_goes ∷ []) (9 ∷ 8 ∷ []) ready_transport).1
quic_send-Sent_example =
    quic_send-Sent no_flush (one_byte_goes ∷ one_byte_goes ∷ []) (9 ∷ 8 ∷ []) ready_transport

abbrev two_kept : QuicTransport
two_kept = record ready_transport {
  unacked =
      record { end_offset = 3; block = 1 ∷ 2 ∷ 3 ∷ [] }
      ∷ record { end_offset = 4; block = 7 ∷ [] }
      ∷ [];
  stream_offset = 4;
}

on_acked-ending_after_example : (on_acked 1 2 two_kept).unacked ≡ ending_after 3 two_kept.unacked
on_acked-ending_after_example = on_acked-ending_after 1 2 two_kept (omega arith) (omega arith)

abbrev closed_transport : QuicTransport
closed_transport = record ready_transport { closed_ = true; closes = 1 }

close_gracefully-IsClosed_example : IsClosed ready_transport closed_transport
unfolding close_gracefully linger
close_gracefully-IsClosed_example =
    close_gracefully-IsClosed open_period [] ready_transport closed_transport refl
