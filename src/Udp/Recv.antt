-- ===== src/Udp/Recv.antt =====
-- UdpTransport::recv_file of src/transport/udp_transport.cpp. What io_uring_wait_cqe hands over is
-- a script; a script that is used up is a wait that does not end.
-- The submission entry that a fragment buffer has: prepared, or submitted to the kernel. A buffer
-- has one at most, since each is prepared where the last one has completed.
use embr.Base.{
  Bool, List, [], bad_fragment, drop, err, false, get_or, if◌then◌else◌, io_error, leb, length, ltb,
  min, ok, out_of_fuel, out_of_range, ring_full, short_datagram, suc, take, total, true,
  wait_failed, zero, ℕ, ◌%◌, ◌&&◌, ◌*◌, ◌++◌, ◌+◌, ◌-◌, ◌/◌, ◌==◌, ◌||◌, ◌∷◌,
}
use embr.Egress.{count_up}
use embr.Exec.{Exec, pure, ◌>>=◌, ◌>>◌}
use embr.Geometry.{chunk_len, count_for}
use embr.Protocol.{Bytes, chunk_size_const, u64_mod}
use embr.Protocol.Words.{be32}
use embr.Udp.{
  FragHdr, frag_count_of, frag_hdr_size, get_index, has_tag, max_frags_per_chunk, parse_frag_hdr,
  tag_recv, tag_write, udp_frag_bufs, udp_mtu, udp_payload_size,
}
use embr.World.{World, send_exact}

pub data Slot : Type 0 where
  slot_free recv_queued recv_submitted : Slot
  write_queued write_submitted : (file_offset frag_len : ℕ) → Slot

-- What a completion says, and the bytes that the kernel has put into the buffer of a RECV.
pub data Outcome : Type 0 where
  done failed_by : ℕ → Outcome

pub record Cqe : Type 0 where
  pub user_data : ℕ
  pub res : Outcome
  pub datagram : Bytes

-- `file` is the byte at each offset of the file, `slots` the entry of each fragment buffer, and
-- `bufs` their bytes. The fields from `chunk_offset` on are those of RecvState.
pub record Receiver : Type 0 where
  pub file : ℕ → ℕ
  pub bufs : ℕ → Bytes
  pub slots : ℕ → Slot
  pub pending_recvs : ℕ
  pub pending_writes : ℕ
  pub chunk_offset : ℕ
  pub frag_count : ℕ
  pub received : ℕ → Bool
  pub frag_remaining : ℕ

abbrev pub update {ℓ} : {A : Type ℓ} → (ℕ → A) → ℕ → A → ℕ → A
update f i a j = if j == i then a else f j

abbrev pub is_queued : Slot → ℕ
is_queued recv_queued = 1
is_queued (write_queued o n) = 1
is_queued _ = 0

-- ++ and -- of a size_t are modulo 2^64.
abbrev pub count_down : ℕ → ℕ
count_down n = (n + u64_mod - 1) % u64_mod

-- io_uring_get_sqe finds an entry while fewer than the 256 of the queue are prepared.
abbrev pub queue_depth : ℕ
queue_depth = 256

abbrev pub queued_count : Receiver → ℕ
queued_count r = total (λ i. is_queued (r.slots i)) udp_frag_bufs

unfoldable pub get_sqe : Exec Receiver (Unit {0})
get_sqe r = if ltb (queued_count r) queue_depth then (ok tt, r) else (err ring_full, r)

abbrev pub set_slot : ℕ → Slot → Receiver → Receiver
set_slot i e r = record r { slots = update r.slots i e }

abbrev pub submitted : Slot → Slot
submitted recv_queued = recv_submitted
submitted (write_queued o n) = write_submitted o n
submitted e = e

-- io_uring_submit.
abbrev pub submit : Receiver → Receiver
submit r = record r { slots = λ i. submitted (r.slots i) }

abbrev pub submit_if : Bool → Exec Receiver (Unit {0})
submit_if b r = (ok tt, if b then submit r else r)

unfoldable pub submit_recv : ℕ → Exec Receiver (Unit {0})
submit_recv i = do get_sqe; λ r. (ok tt, set_slot i recv_queued r)

-- The write of a fragment, and what it leaves in RecvState.
unfoldable pub prep_write : ℕ → FragHdr → Receiver → Receiver
prep_write i hdr r = record r {
  slots =
      update r.slots i (
        write_queued ((r.chunk_offset + hdr.frag_index * udp_payload_size) % u64_mod) hdr.frag_len);
  received = update r.received hdr.frag_index true;
  frag_remaining = count_down r.frag_remaining;
}

-- Whether a write has been prepared. std::bitset::test throws beyond the bits that there are.
unfoldable pub process_fragment : ℕ → ℕ → Exec Receiver Bool
process_fragment i bytes_received r =
    let hdr = parse_frag_hdr (r.bufs i) in
    if ltb bytes_received frag_hdr_size
    then (err short_datagram, r)
    else if leb r.frag_count hdr.frag_index
    then (err bad_fragment, r)
    else if leb max_frags_per_chunk hdr.frag_index
    then (err out_of_range, r)
    else if r.received hdr.frag_index
    then (ok false, r)
    else (get_sqe >> λ s. (ok true, prep_write i hdr s)) r

-- What the kernel has done before it hands a completion over: a RECV has filled its buffer, and a
-- WRITE has put as many bytes as it says into the file.
abbrev pub write_bytes : (ℕ → ℕ) → ℕ → ℕ → Bytes → ℕ → ℕ
write_bytes file offset n bytes p =
    if leb offset p && ltb p (offset + n) then get_or bytes (p - offset) 0 else file p

abbrev pub write_out : Slot → ℕ → ℕ → Receiver → Receiver
write_out (write_submitted offset len) i n r = record r {
  file = write_bytes r.file offset (min n len) (drop frag_hdr_size (r.bufs i));
}
write_out _ i n r = r

abbrev pub fill_buffer : Bytes → Bytes → Bytes
fill_buffer datagram buf = take udp_mtu datagram ++ drop (length (take udp_mtu datagram)) buf

abbrev pub flush_threshold : ℕ
flush_threshold = udp_frag_bufs / 2

-- The buffer takes the next fragment.
unfoldable pub rearm : ℕ → Exec Receiver (Unit {0})
rearm i = do
  submit_recv i
  λ r.
      (let recvs = count_up r.pending_recvs in
        submit_if (leb flush_threshold recvs) (record r { pending_recvs = recvs }))

-- A new fragment awaits its write; the buffer of one that came before takes the next.
unfoldable pub after_fragment : ℕ → Bool → Exec Receiver (Unit {0})
after_fragment i true r =
    let writes = count_up r.pending_writes in
    submit_if (leb flush_threshold writes || r.frag_remaining == 0)
      (record r { pending_writes = writes })
after_fragment i false r = rearm i r

unfoldable pub on_recv : ℕ → Outcome → Bytes → Exec Receiver (Unit {0})
on_recv i (failed_by e) datagram r = (
  err (io_error e),
  set_slot i slot_free (record r { pending_recvs = count_down r.pending_recvs }),
)
on_recv i (done n) datagram r =
    let r' = record (set_slot i slot_free r) {
      bufs = update r.bufs i (fill_buffer datagram (r.bufs i));
      pending_recvs = count_down r.pending_recvs;
    } in
    if n == 0 then (err (io_error 0), r') else (process_fragment i n >>= after_fragment i) r'

unfoldable pub on_write : ℕ → Outcome → Exec Receiver (Unit {0})
on_write i (failed_by e) r = (err (io_error e), set_slot i slot_free r)
on_write i (done n) r =
    let r' = set_slot i slot_free (write_out (r.slots i) i n r) in
    rearm i (record r' { pending_writes = count_down r.pending_writes })

-- One round of the loop, after the wait.
unfoldable pub on_cqe : Cqe → Exec Receiver (Unit {0})
on_cqe c =
    let i = get_index c.user_data in
    if has_tag tag_recv c.user_data
    then on_recv i c.res c.datagram
    else if has_tag tag_write c.user_data
    then on_write i c.res
    else pure tt

abbrev pub is_finished : Receiver → Bool
is_finished r = r.frag_remaining == 0 && r.pending_writes == 0

-- What io_uring_wait_cqe does.
pub data Wakeup : Type 0 where
  woken_by : Cqe → Wakeup
  unwoken : Wakeup

-- The loop of one chunk; it returns the script that is left.
unfoldable pub cqe_loop : List Wakeup → Exec Receiver (List Wakeup)
cqe_loop [] r = if is_finished r then (ok [], r) else (err out_of_fuel, r)
cqe_loop (unwoken ∷ ws) r = if is_finished r then (ok (unwoken ∷ ws), r) else (err wait_failed, r)
cqe_loop (woken_by c ∷ ws) r =
    let round = (on_cqe c >> cqe_loop ws) r in
    if is_finished r then (ok (woken_by c ∷ ws), r) else round

-- RecvState as a chunk begins.
abbrev pub begin_chunk : ℕ → ℕ → ℕ → Receiver → Receiver
begin_chunk offset len chunk_idx r = record r {
  pending_writes = 0;
  chunk_offset = (offset + chunk_idx * chunk_size_const) % u64_mod;
  frag_count = frag_count_of (chunk_len len chunk_idx);
  received = λ i. false;
  frag_remaining = frag_count_of (chunk_len len chunk_idx);
}

-- The transport: the ring with the file, the control connection, and the completions to come.
pub record UdpSide : Type 0 where
  pub ring : Receiver
  pub tcp : World
  pub waits : List Wakeup

abbrev pub on_ring : {A : Type 0} → Exec Receiver A → Exec UdpSide A
on_ring m u = let (a, r) = m u.ring in (a, record u { ring = r })

abbrev pub on_tcp : {A : Type 0} → Exec World A → Exec UdpSide A
on_tcp m u = let (a, w) = m u.tcp in (a, record u { tcp = w })

abbrev pub run_loop : Exec UdpSide (Unit {0})
run_loop u =
    let (left, r) = cqe_loop u.waits u.ring in
    elim left [
      | ok ws ↦ (ok tt, record u { ring = r; waits = ws })
      | err e ↦ (err e, record u { ring = r; waits = [] })
    ]

unfoldable pub recv_chunk : ℕ → ℕ → ℕ → Exec UdpSide (Unit {0})
recv_chunk offset len chunk_idx = do
  on_ring (λ r. (ok tt, begin_chunk offset len chunk_idx r))
  run_loop
  on_tcp (send_exact (be32 chunk_idx))

-- `n` chunks from the index on.
unfoldable pub recv_chunks : ℕ → ℕ → ℕ → ℕ → Exec UdpSide (Unit {0})
recv_chunks offset len zero chunk_idx = pure tt
recv_chunks offset len (suc n) chunk_idx = do
  recv_chunk offset len chunk_idx
  recv_chunks offset len n (chunk_idx + 1)

unfoldable pub arm_all : ℕ → ℕ → Exec Receiver (Unit {0})
arm_all zero i = pure tt
arm_all (suc n) i = do submit_recv i; arm_all n (i + 1)

unfoldable pub udp_recv_file : ℕ → ℕ → Exec UdpSide (Unit {0})
udp_recv_file offset len = do
  on_ring (arm_all udp_frag_bufs 0)
  on_ring (λ r. (ok tt, record (submit r) { pending_recvs = udp_frag_bufs }))
  on_tcp (send_exact (1 ∷ []))
  recv_chunks offset len (count_for len) 0
