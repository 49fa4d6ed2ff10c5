-- ===== src/Udp/Send.antt =====
-- UdpTransport::send_file of src/transport/udp_transport.cpp. What io_uring_wait_cqe hands over is
-- a script, as on the other side.
use embr.Base.{
  Bool, List, Option, Result, [], ack_mismatch, drop, err, false, if◌then◌else◌, io_error, leb,
  length, ltb, map, min, none, ok, out_of_fuel, ring_full, some, suc, take, true, unexpected_tag,
  wait_failed, zero, ℕ, ◌%◌, ◌*◌, ◌++◌, ◌+◌, ◌==◌, ◌^◌, ◌∷◌,
}
use embr.Exec.{Exec, pure, require, ◌>>=◌, ◌>>◌}
use embr.Geometry.{chunk_len, count_for}
use embr.Protocol.{Bytes, chunk_size_const, u64_mod}
use embr.Protocol.Words.{of_be32}
use embr.Udp.{
  frag_count_of, frag_len_of, has_tag, tag_read, tag_send, udp_payload_size, write_frag_hdr,
}
use embr.Udp.Recv.{
  Cqe, Outcome, Wakeup, count_down, done, failed_by, queue_depth, unwoken, update, woken_by,
}
use embr.World.{World, recv_exact}

-- A read that the kernel has been asked for: the buffer, the offset and the length.
pub record Read : Type 0 where
  pub read_buf : ℕ
  pub read_offset : ℕ
  pub read_len : ℕ

-- `source` is the file, `chunk_bufs` the two chunk buffers, `reading` the read under way.
-- `messages` is the array of SendSlots, `prepared` the slots whose sends are not submitted yet, and
-- `sent` what the kernel has been given to send, in order.
pub record Sender : Type 0 where
  pub source : Bytes
  pub chunk_bufs : ℕ → Bytes
  pub reading : Option Read
  pub read_completed : Bool
  pub read_result : Outcome
  pub pending_frags : ℕ
  pub messages : ℕ → Bytes
  pub prepared : List ℕ
  pub sent : List Bytes
  pub send_waits : List Wakeup

-- io_uring_submit: the kernel takes the messages from their slots.
abbrev pub submit_sends : Sender → Sender
submit_sends s = record s { sent = s.sent ++ map s.messages s.prepared; prepared = [] }

unfoldable pub send_sqe : Exec Sender (Unit {0})
send_sqe s = if ltb (length s.prepared) queue_depth then (ok tt, s) else (err ring_full, s)

-- The read is submitted at once, and with it what was prepared before.
unfoldable pub submit_read : ℕ → ℕ → ℕ → Exec Sender (Unit {0})
submit_read buf_idx offset len = do
  send_sqe
  λ s. (
    ok tt,
    record (submit_sends s) {
      reading = some (record { read_buf = buf_idx; read_offset = offset; read_len = len });
    },
  )

-- What the kernel has done before it hands over a read that is complete: it has put as many bytes
-- as it says into the buffer.
abbrev pub read_in : Option Read → Outcome → Sender → Sender
read_in (some r) (done n) s = record s {
  chunk_bufs = update s.chunk_bufs r.read_buf (
      take (min n r.read_len) (drop r.read_offset s.source)
      ++ drop (min n r.read_len) (s.chunk_bufs r.read_buf));
  reading = none;
}
read_in _ _ s = record s { reading = none }

-- The stash that wait_read looks at first.
unfoldable pub take_stash : Exec Sender (Unit {0})
take_stash s =
    let s' = record s { read_completed = false } in
    elim s.read_result [ done n ↦ (ok tt, s') | failed_by e ↦ (err (io_error e), s') ]

-- A completion that wait_read has waited for.
unfoldable pub on_read_cqe : Cqe → Exec Sender (Unit {0})
on_read_cqe c s =
    let s' = read_in s.reading c.res s in
    if has_tag tag_read c.user_data
    then elim c.res [ done n ↦ (ok tt, s') | failed_by e ↦ (err (io_error e), s') ]
    else (err unexpected_tag, s)

abbrev pub next_read : List Wakeup → Exec Sender (Unit {0})
next_read [] s = (err out_of_fuel, s)
next_read (unwoken ∷ ws) s = (err wait_failed, record s { send_waits = ws })
next_read (woken_by c ∷ ws) s = on_read_cqe c (record s { send_waits = ws })

unfoldable pub wait_read : Exec Sender (Unit {0})
wait_read s = if s.read_completed then take_stash s else next_read s.send_waits s

-- A completion that send_chunk has waited for.
unfoldable pub on_send_cqe : Cqe → Exec Sender (Unit {0})
on_send_cqe c s =
    let failed_or : Result (Unit {0}) × Sender = elim c.res [
      | done n ↦ (ok tt, record s { pending_frags = count_down s.pending_frags })
      | failed_by e ↦ (err (io_error e), s)
    ] in
    if has_tag tag_read c.user_data
    then (ok tt, record (read_in s.reading c.res s) { read_completed = true; read_result = c.res })
    else if has_tag tag_send c.user_data
    then failed_or
    else (ok tt, s)

-- The loop that waits while `bound` sends or more are pending; it returns the script that is left.
unfoldable pub drain_sends : ℕ → List Wakeup → Exec Sender (List Wakeup)
drain_sends bound [] s = if ltb s.pending_frags bound then (ok [], s) else (err out_of_fuel, s)
drain_sends bound (unwoken ∷ ws) s =
    if ltb s.pending_frags bound then (ok (unwoken ∷ ws), s) else (err wait_failed, s)
drain_sends bound (woken_by c ∷ ws) s =
    let round = (on_send_cqe c >> drain_sends bound ws) s in
    if ltb s.pending_frags bound then (ok (woken_by c ∷ ws), s) else round

abbrev pub put_back : Result (List Wakeup) × Sender → Result (Unit {0}) × Sender
put_back (ok ws, s) = (ok tt, record s { send_waits = ws })
put_back (err e, s) = (err e, record s { send_waits = [] })

abbrev pub await_sends : ℕ → Exec Sender (Unit {0})
await_sends bound s = put_back (drain_sends bound s.send_waits s)

-- The header and the slice of one fragment. The length is cut to a uint16_t in the header.
abbrev pub datagram_of : Bytes → ℕ → ℕ → ℕ → Bytes
datagram_of buf chunk_index len j =
    write_frag_hdr chunk_index j (frag_len_of len j % 2 ^ 16)
    ++ take (frag_len_of len j) (drop (j * udp_payload_size) buf)

abbrev pub put_message : Bytes → Sender → Sender
put_message bytes s =
    let slot = s.pending_frags % queue_depth in
    record s {
      messages = update s.messages slot bytes;
      prepared = s.prepared ++ (slot ∷ []);
      pending_frags = s.pending_frags + 1;
    }

-- One round of the loop of send_chunk.
unfoldable pub send_frag : Bytes → Exec Sender (Unit {0})
send_frag bytes = do
  λ s.
      (if leb queue_depth s.pending_frags
        then await_sends queue_depth (submit_sends s)
        else (ok tt, s))
  send_sqe
  λ s. (ok tt, put_message bytes s)

-- `n` fragments from the index on.
unfoldable pub send_frags : (ℕ → Bytes) → ℕ → ℕ → Exec Sender (Unit {0})
send_frags bytes zero j = pure tt
send_frags bytes (suc n) j = do send_frag (bytes j); send_frags bytes n (j + 1)

unfoldable pub send_chunk : ℕ → ℕ → ℕ → Exec Sender (Unit {0})
send_chunk buf_idx chunk_index len = do
  λ s.
      (send_frags (datagram_of (s.chunk_bufs buf_idx) chunk_index len) (frag_count_of len) 0
        (record s { pending_frags = 0 }))
  λ s. (ok tt, submit_sends s)
  await_sends 1

-- The transport: the ring with the file, and the control connection.
pub record UdpSource : Type 0 where
  pub out_ring : Sender
  pub control : World

abbrev pub on_out_ring : {A : Type 0} → Exec Sender A → Exec UdpSource A
on_out_ring m u = let (a, s) = m u.out_ring in (a, record u { out_ring = s })

abbrev pub on_control : {A : Type 0} → Exec World A → Exec UdpSource A
on_control m u = let (a, w) = m u.control in (a, record u { control = w })

-- Chunk `k` of a range of `len` bytes, `k + 1` up to the count.
unfoldable pub read_ahead : ℕ → ℕ → ℕ → Exec UdpSource (Unit {0})
read_ahead offset len k =
    if ltb k (count_for len)
    then on_out_ring
        (submit_read (k % 2) ((offset + k * chunk_size_const) % u64_mod) (chunk_len len k))
    else pure tt

unfoldable pub send_one : ℕ → ℕ → ℕ → Exec UdpSource (Unit {0})
send_one offset len k = do
  read_ahead offset len (k + 1)
  on_out_ring (send_chunk (k % 2) k (chunk_len len k))
  ack ← on_control (recv_exact 4)
  require (of_be32 ack == k) ack_mismatch
  if ltb (k + 1) (count_for len) then on_out_ring wait_read else pure tt

unfoldable pub send_all : ℕ → ℕ → ℕ → ℕ → Exec UdpSource (Unit {0})
send_all offset len zero k = pure tt
send_all offset len (suc n) k = do send_one offset len k; send_all offset len n (k + 1)

unfoldable pub udp_send_file : ℕ → ℕ → Exec UdpSource (Unit {0})
udp_send_file offset len = do
  on_control (recv_exact 1)
  on_out_ring (submit_read 0 offset (min len chunk_size_const))
  on_out_ring wait_read
  send_all offset len (count_for len) 0
