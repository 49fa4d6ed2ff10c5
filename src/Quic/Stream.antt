-- ===== src/Quic/Stream.antt =====
-- send, recv and send_fin of src/transport/quic_transport.cpp, and its data plane. A negative
-- ssize_t is `none`, and an action that returns an int returns whether it is 0.
use embr.Base.{
  Bool, List, Option, Result, [], closed, drop, err, false, if◌then◌else◌, io_error, leb, length,
  map_failed, no_stream, none, not, ok, out_of_fuel, pump_failed, some, take, true, ℕ, ◌%◌, ◌&&◌,
  ◌++◌, ◌+◌, ◌==◌, ◌||◌, ◌∷◌,
}
use embr.Egress.{Flushed}
use embr.Exec.{Exec, pure, require, throw, ◌>>=◌, ◌>>◌}
use embr.Protocol.{Bytes, u64_mod}
use embr.Quic.{Dest, QuicTransport}
use embr.Quic.Packets.{
  Passage, SendResult, begin_packet, blocked, flush_packets, send_failed, send_packet, sent_ok,
}
use embr.Quic.Pump.{Burst, Closing, Pump, close_with_error, drain_packets, pump_once}

-- What ngtcp2_conn_writev_stream returns for stream data: how large the packet is, and how many of
-- the bytes it takes, if any.
pub data StreamWrite : Type 0 where
  window_closed : StreamWrite
  stream_refused : StreamWrite
  congested : StreamWrite
  stream_packet : (size : ℕ) → (taken : Option ℕ) → StreamWrite

-- One round of the loops of write_stream and send_fin: what it meets, as far as it comes to it.
pub record Round : Type 0 where
  pub passage : Passage
  pub made : StreamWrite
  pub pump : Pump
  pub closing : Closing

abbrev pub taken_count : Option ℕ → ℕ
taken_count none = 0
taken_count (some n) = n

-- ngtcp2 takes the first bytes of those offered.
abbrev pub take_bytes : ℕ → Bytes → QuicTransport → QuicTransport
take_bytes n left q = record q {
  stream_offset = (q.stream_offset + length (take n left)) % u64_mod;
  accepted_bytes = q.accepted_bytes ++ take n left;
}

abbrev pub pump_then : Pump → Exec QuicTransport Bool → Exec QuicTransport Bool
pump_then p next = pump_once p >>= λ b. if b then next else pure false

abbrev pub after_send : SendResult → Pump → Exec QuicTransport Bool → Exec QuicTransport Bool
after_send sent_ok p next = next
after_send blocked p next = pump_then p next
after_send send_failed p next = pure false

-- One round of write_stream with `left` to go; `more` are the further rounds.
abbrev pub write_round : Round → Bytes → (Bytes → Exec QuicTransport Bool) → Exec QuicTransport Bool
write_round r left more = elim r.made [
  | window_closed ↦ pump_then r.pump (more left)
  | stream_refused ↦ λ q. (ok false, close_with_error r.closing q)
  | congested ↦ pump_then r.pump (more left)
  | stream_packet size taken ↦
      let n = taken_count taken in
      (λ q. (ok tt, take_bytes n left q)) >> send_packet size r.passage >>= λ s.
      after_send s r.pump (more (drop n left))
]

-- write_stream: whether all of `left` has been taken.
unfoldable pub write_stream : Flushed → List Round → Bytes → Exec QuicTransport Bool
write_stream f rs [] q = (ok true, flush_packets f q)
write_stream f [] (b ∷ left) q = (err out_of_fuel, q)
write_stream f (r ∷ rs) (b ∷ left) q =
    (begin_packet r.passage >> write_round r (b ∷ left) (λ rest. write_stream f rs rest)) q

abbrev pub retain : Bytes → QuicTransport → QuicTransport
retain bytes q = record q {
  unacked =
      q.unacked
      ++ (record { end_offset = (q.stream_offset + length bytes) % u64_mod; block = bytes }) ∷ [];
}

abbrev pub all_or_none : ℕ → Bool → Option ℕ
all_or_none n true = some n
all_or_none n false = none

-- stream_id_ is negative.
abbrev pub stream_missing : Option ℕ → Bool
stream_missing none = true
stream_missing (some id) = false

unfoldable pub quic_send : Flushed → List Round → Bytes → Exec QuicTransport (Option ℕ)
quic_send f rs bytes q =
    let sending =
      ((λ s. (ok tt, retain bytes s)) >> write_stream f rs bytes >>= λ b.
      pure (all_or_none (length bytes) b))
        q in
    if q.closed_
    then (ok none, q)
    else if stream_missing q.stream_id
    then (err no_stream, q)
    else if length bytes == 0
    then (ok (some 0), q)
    else sending

-- send_file, with the bytes of the mapping.
unfoldable pub quic_send_file : Bool → Flushed → List Round → Bytes → Exec QuicTransport (Unit {0})
quic_send_file maps f rs bytes q =
    let sending =
      ((λ s. (ok tt, retain bytes s)) >> write_stream f rs bytes >>= λ b. require b (io_error 0))
        q in
    if length bytes == 0
    then (ok tt, q)
    else if q.closed_
    then (err closed, q)
    else if stream_missing q.stream_id
    then (err no_stream, q)
    else if maps
    then sending
    else (err map_failed, q)

-- The FIN has gone out once a packet took it.
abbrev pub fin_sent_if :
    SendResult → Option ℕ → Flushed → Exec QuicTransport Bool → Exec QuicTransport Bool
fin_sent_if send_failed taken f more q = (ok false, q)
fin_sent_if s none f more q = more q
fin_sent_if s (some n) f more q = (ok true, flush_packets f (record q { fin_sent = true }))

abbrev pub fin_round : Round → Flushed → Exec QuicTransport Bool → Exec QuicTransport Bool
fin_round r f more = elim r.made [
  | window_closed ↦ pump_then r.pump more
  | stream_refused ↦ λ q. (ok false, close_with_error r.closing q)
  | congested ↦ pump_then r.pump more
  | stream_packet size taken ↦ send_packet size r.passage >>= λ s. fin_sent_if s taken f more
]

-- The loop of send_fin.
unfoldable pub fin_loop : Flushed → List Round → Exec QuicTransport Bool
fin_loop f [] q = if q.closed_ then (ok false, q) else (err out_of_fuel, q)
fin_loop f (r ∷ rs) q =
    let round = (begin_packet r.passage >> fin_round r f (fin_loop f rs)) q in
    if q.closed_ then (ok false, q) else round

unfoldable pub send_fin : Flushed → List Round → Exec QuicTransport Bool
send_fin f rs q =
    let loop = fin_loop f rs q in
    if stream_missing q.stream_id then (ok false, q) else if q.fin_sent then (ok true, q) else loop

abbrev pub is_empty : Bytes → Bool
is_empty [] = true
is_empty (b ∷ bs) = false

abbrev pub may_wait : QuicTransport → Bool
may_wait q = is_empty q.recv_buf && (not q.stream_fin_received && not q.closed_)

-- The wait of recv.
unfoldable pub recv_wait : List Pump → Exec QuicTransport (Unit {0})
recv_wait [] q = if may_wait q then (err out_of_fuel, q) else (ok tt, q)
recv_wait (p ∷ ps) q =
    let more = (pump_once p >>= λ b. if b then recv_wait ps else pure tt) q in
    if may_wait q then more else (ok tt, q)

-- What recv returns then: bytes, none of them at the end of the stream, or -1.
abbrev pub taken_from : Bytes → ℕ → Exec QuicTransport (Option Bytes)
taken_from (b ∷ bs) len q =
    (ok (some (take len (b ∷ bs))), record q { recv_buf = drop len (b ∷ bs) })
taken_from [] len q = (ok (if q.stream_fin_received then some [] else none), q)

abbrev pub take_received : ℕ → Exec QuicTransport (Option Bytes)
take_received len q = taken_from q.recv_buf len q

unfoldable pub quic_recv : List Pump → ℕ → Exec QuicTransport (Option Bytes)
quic_recv ps len = do recv_wait ps; take_received len

abbrev pub got_of : Option Dest → ℕ
got_of none = 0
got_of (some d) = length d.landed

-- The loop of recv_file.
unfoldable pub dest_loop : List Pump → ℕ → Exec QuicTransport (Unit {0})
dest_loop [] len q =
    if leb len (got_of q.recv_dest)
    then (ok tt, q)
    else if q.stream_fin_received || q.closed_
    then (err closed, q)
    else (err out_of_fuel, q)
dest_loop (p ∷ ps) len q =
    let more = (pump_once p >>= λ b. if b then dest_loop ps len else throw pump_failed) q in
    if leb len (got_of q.recv_dest)
    then (ok tt, q)
    else if q.stream_fin_received || q.closed_
    then (err closed, q)
    else more

-- The bytes that are buffered already go first.
abbrev pub begin_dest : ℕ → QuicTransport → QuicTransport
begin_dest len q = record q {
  recv_dest = some (record { dest_len = len; landed = take len q.recv_buf });
  recv_buf = drop len q.recv_buf;
}

abbrev pub landed_in : Option Dest → Bytes
landed_in none = []
landed_in (some d) = d.landed

-- The mapping goes with the call, whether it returns or throws; its bytes are in the file.
abbrev pub end_dest :
    ℕ → Result (Unit {0}) × QuicTransport → Result (Unit {0}) × (Bytes × QuicTransport)
end_dest len (r, q) = (r, (landed_in q.recv_dest, record q { recv_dest = none }))

-- recv_file: the bytes that it has put into the file from its offset on.
unfoldable pub quic_recv_file :
    Bool → List Pump → ℕ → QuicTransport → Result (Unit {0}) × (Bytes × QuicTransport)
quic_recv_file maps ps len q =
    let run = end_dest len (dest_loop ps len (begin_dest len q)) in
    if len == 0 then (ok tt, ([], q)) else if maps then run else (err map_failed, ([], q))

-- run_handshake: each round asks whether the handshake is complete.
unfoldable pub handshake_loop : List (Bool × Pump) → Exec QuicTransport Bool
handshake_loop [] q = (err out_of_fuel, q)
handshake_loop ((is_done, p) ∷ ps) q =
    let more = pump_then p (handshake_loop ps) q in if is_done then (ok true, q) else more

unfoldable pub run_handshake : Flushed → List Burst → List (Bool × Pump) → Exec QuicTransport Bool
run_handshake f bs ps = do b ← drain_packets f bs; if b then handshake_loop ps else pure false
