-- ===== src/Tests/Datagrams.antt =====
-- Examples for src/transport/udp_transport.cpp: a chunk of three bytes, in one fragment.
use embr.Base.{List, [], arith, false, none, refl, total, ◌∷◌}
use embr.Protocol.{Bytes}
use embr.Udp.{get_index, get_tag, make_user_data, parse_frag_hdr, tag_send, write_frag_hdr}
use embr.Udp.Collect.{Collected, IsIdle, begin_chunk-Collected}
use embr.Udp.Drains.{all_sent, one_sent}
use embr.Udp.Handling.{recv_cqe, write_cqe}
use embr.Udp.Rebuild.{Serves, fragment, repeats, write_ended}
use embr.Udp.Recv.{
  Receiver, Wakeup, after_fragment, begin_chunk, done, get_sqe, on_cqe, on_recv, prep_write,
  process_fragment, recv_submitted, woken_by,
}
use embr.Udp.Send.{Sender}
use embr.Udp.Sends.{SentChunk, send_chunk-SentChunk}

abbrev three_bytes : Bytes
three_bytes = 7 ∷ 8 ∷ 9 ∷ []

-- All buffers wait for a fragment.
abbrev armed_ring : Receiver
armed_ring = record {
  file = λ p. 0;
  bufs = λ i. [];
  slots = λ i. recv_submitted;
  pending_recvs = 32;
  pending_writes = 0;
  chunk_offset = 0;
  frag_count = 0;
  received = λ i. false;
  frag_remaining = 0;
}

armed_ring-IsIdle : IsIdle armed_ring
unfolding total
armed_ring-IsIdle = record { recvs_are = refl; no_writes = λ i i_in. refl }

-- The fragment comes in buffer 5, and then its write ends.
abbrev served_once : List Wakeup
served_once = woken_by (recv_cqe three_bytes 0 5 0) ∷ woken_by (write_cqe 5 3) ∷ []

served_once-Serves : Serves three_bytes 0 served_once (begin_chunk 100 3 0 armed_ring)
unfolding Serves on_cqe on_recv process_fragment get_sqe prep_write after_fragment make_user_data
    get_tag get_index parse_frag_hdr write_frag_hdr total
served_once-Serves = λ _. (
  fragment 5 0 (omega arith) (omega arith) refl,
  λ _. (write_ended 5 100 3 (omega arith) refl, tt),
)

begin_chunk-Collected_example :
    Collected three_bytes 100 armed_ring.file served_once (begin_chunk 100 3 0 armed_ring)
unfolding repeats make_user_data get_tag
begin_chunk-Collected_example =
    begin_chunk-Collected three_bytes 100 3 0 served_once armed_ring armed_ring-IsIdle refl
      (omega arith) (omega arith) served_once-Serves (omega arith)

abbrev read_chunk : Sender
read_chunk = record {
  source = three_bytes;
  chunk_bufs = λ i. three_bytes;
  reading = none;
  read_completed = false;
  read_result = done 0;
  pending_frags = 0;
  messages = λ i. [];
  prepared = [];
  sent = [];
  send_waits =
      woken_by (record { user_data = make_user_data tag_send 0; res = done 13; datagram = [] })
      ∷ [];
}

send_chunk-SentChunk_example : SentChunk 0 4 3 read_chunk
send_chunk-SentChunk_example =
    send_chunk-SentChunk 0 4 3 read_chunk (omega arith) (omega arith) refl
      (one_sent 0 0 13 [] [] (omega arith) (all_sent []))
