-- ===== src/Udp/Handling.antt =====
-- What the loop of recv_file (src/transport/udp_transport.cpp) does on each completion that the
-- kernel may hand over, as an equation.
use embr.Base.{
  Bool, [], ap, arith, drop, false, if◌then◌else◌, leb, length, le→ltb, lt→leb, lt→ltb, min, ok,
  refl, total-le, true, ℕ, ◌%◌, ◌*◌, ◌+◌, ◌<◌, ◌==◌, ◌||◌, ◌∙◌, ◌≡◌, ◌≤◌,
}
use embr.Egress.{count_up}
use embr.Exec.{◌>>=◌}
use embr.Protocol.{Bytes, chunk_size_const, u32_mod, u64_mod}
use embr.Udp.{
  FragHdr, frag_count_of, frag_hdr_size, frag_len_of, make_user_data, max_frags_per_chunk,
  parse_frag_hdr, tag_recv, tag_write, udp_frag_bufs, udp_payload_size,
}
use embr.Udp.Fragments.{frag_inside, length-packet, packet, parse_frag_hdr-packet}
use embr.Udp.Header.{get_tag-make_user_data}
use embr.Udp.Recv.{
  Cqe, Receiver, Slot, after_fragment, count_down, done, fill_buffer, flush_threshold, get_sqe,
  is_queued, on_cqe, on_recv, on_write, prep_write, process_fragment, queue_depth, queued_count,
  rearm, recv_queued, set_slot, slot_free, submit, submit_recv, update, write_bytes, write_out,
  write_submitted,
}
use embr.Udp.Rounds.{fresh_state, repeat_state, write_state}

abbrev pub recv_cqe : Bytes → ℕ → ℕ → ℕ → Cqe
recv_cqe chunk k i j = record {
  user_data = make_user_data tag_recv i;
  res = done (length (packet chunk k j));
  datagram = packet chunk k j;
}

abbrev pub write_cqe : ℕ → ℕ → Cqe
write_cqe i n = record { user_data = make_user_data tag_write i; res = done n; datagram = [] }

abbrev pub submit_when : Bool → Receiver → Receiver
submit_when b r = if b then submit r else r

get_sqe-ok : (r : Receiver) → get_sqe r ≡ (ok tt, r)
unfolding get_sqe
get_sqe-ok r =
    rw
      (lt→ltb (queued_count r) queue_depth
        (omega (arith, total-le (λ i. is_queued (r.slots i)) udp_frag_bufs (λ i. ground arith))))
      refl

rearm-ok :
    (i : ℕ) (r : Receiver)
    → rearm i r ≡ (
      ok tt,
      submit_when (leb flush_threshold (count_up r.pending_recvs)) (record r {
        slots = update r.slots i recv_queued;
        pending_recvs = count_up r.pending_recvs;
      }),
    )
unfolding rearm submit_recv
rearm-ok i r = rw (get_sqe-ok r) refl

pub on_cqe-write :
    (i o n : ℕ) (r : Receiver)
    → i < udp_frag_bufs
    → r.slots i ≡ write_submitted o n
    → on_cqe (write_cqe i n) r
      ≡ (ok tt, submit_when (leb flush_threshold (count_up r.pending_recvs)) (write_state i o n r))
unfolding on_cqe on_write
on_cqe-write i o n r i_in writing =
    let (tag, idx) = get_tag-make_user_data tag_write i (omega arith) in
    rw (tag, idx, written_out) (rearm-ok i _)
  where
    written_out :
        write_out (r.slots i) i n r
        ≡ record r { file = write_bytes r.file o n (drop frag_hdr_size (r.bufs i)) }
    written_out =
        ap (λ (s : Slot). write_out s i n r) writing
        ∙ ap (λ (k : ℕ). record r { file = write_bytes r.file o k (drop frag_hdr_size (r.bufs i)) })
            {x = min n n} (omega arith)

pub process_fragment-fresh :
    (i n : ℕ) (hdr : FragHdr) (r : Receiver)
    → parse_frag_hdr (r.bufs i) ≡ hdr
    → frag_hdr_size ≤ n
    → hdr.frag_index < r.frag_count
    → r.frag_count ≤ max_frags_per_chunk
    → r.received hdr.frag_index ≡ false
    → process_fragment i n r ≡ (ok true, prep_write i hdr r)
unfolding process_fragment
process_fragment-fresh i n hdr r parsed long inside few new =
    rw
      (
        parsed,
        le→ltb n frag_hdr_size long,
        lt→leb r.frag_count hdr.frag_index inside,
        lt→leb max_frags_per_chunk hdr.frag_index (omega arith),
        new,
        get_sqe-ok r,
      )
      refl

pub process_fragment-repeat :
    (i n : ℕ) (hdr : FragHdr) (r : Receiver)
    → parse_frag_hdr (r.bufs i) ≡ hdr
    → frag_hdr_size ≤ n
    → hdr.frag_index < r.frag_count
    → r.frag_count ≤ max_frags_per_chunk
    → r.received hdr.frag_index ≡ true
    → process_fragment i n r ≡ (ok false, r)
unfolding process_fragment
process_fragment-repeat i n hdr r parsed long inside few seen =
    rw
      (
        parsed,
        le→ltb n frag_hdr_size long,
        lt→leb r.frag_count hdr.frag_index inside,
        lt→leb max_frags_per_chunk hdr.frag_index (omega arith),
        seen,
      )
      refl

-- The datagram of a fragment, as the kernel hands it over in buffer i.
module _ (chunk : Bytes) (off k i j : ℕ) (r : Receiver) (i_in : i < udp_frag_bufs)
    (offset_is : r.chunk_offset ≡ off) (count_is : r.frag_count ≡ frag_count_of (length chunk))
    (short : length chunk ≤ chunk_size_const) (small : k < u32_mod)
    (ends : off + length chunk < u64_mod) (j_in : j < frag_count_of (length chunk)) where
  abbrev filled : Bytes
  filled = fill_buffer (packet chunk k j) (r.bufs i)

  abbrev arrived_state : Receiver
  arrived_state = record (set_slot i slot_free r) {
    bufs = update r.bufs i filled;
    pending_recvs = count_down r.pending_recvs;
  }

  abbrev hdr : FragHdr
  hdr = record { hdr_chunk = k; frag_index = j; frag_len = frag_len_of (length chunk) j }

  parsed : parse_frag_hdr (arrived_state.bufs i) ≡ hdr
  parsed =
      ap parse_frag_hdr {x = arrived_state.bufs i} {y = filled} (ground arith)
      ∙ parse_frag_hdr-packet chunk k j j_in (r.bufs i) short small

  long : frag_hdr_size ≤ length (packet chunk k j)
  long = omega (arith, length-packet chunk k j j_in)

  on_recv-process :
      on_recv i (done (length (packet chunk k j))) (packet chunk k j) r
      ≡ (process_fragment i (length (packet chunk k j)) >>= after_fragment i) arrived_state
  unfolding on_recv
  on_recv-process =
      let some_bytes : (length (packet chunk k j) == 0) ≡ false = ground (arith, long) in
      rw some_bytes refl

  on_cqe-on_recv :
      on_cqe (recv_cqe chunk k i j) r
      ≡ on_recv i (done (length (packet chunk k j))) (packet chunk k j) r
  unfolding on_cqe
  on_cqe-on_recv =
      let (tag, idx) = get_tag-make_user_data tag_recv i (omega arith) in rw (tag, idx) refl

  few : r.frag_count ≤ max_frags_per_chunk
  few = omega (arith, count_is)

  inside_count : j < r.frag_count
  inside_count = omega (arith, count_is)

  pub on_cqe-repeat :
      r.received j ≡ true
      → on_cqe (recv_cqe chunk k i j) r ≡ (
        ok tt,
        submit_when
            (leb flush_threshold (count_up (count_down r.pending_recvs)))
            (repeat_state i filled r),
      )
  unfolding after_fragment
  on_cqe-repeat seen =
      on_cqe-on_recv
      ∙ on_recv-process
      ∙ rw
          (process_fragment-repeat i (length (packet chunk k j)) hdr arrived_state parsed long
            inside_count few seen)
          (rearm-ok i arrived_state)

  starts : (r.chunk_offset + j * udp_payload_size) % u64_mod ≡ off + j * udp_payload_size
  starts = omega (arith, offset_is, (frag_inside (length chunk) j j_in).0)

  pub on_cqe-fresh :
      r.received j ≡ false
      → on_cqe (recv_cqe chunk k i j) r ≡ (
        ok tt,
        submit_when
            (leb flush_threshold (count_up r.pending_writes) || count_down r.frag_remaining == 0)
            (fresh_state i j (off + j * udp_payload_size) (frag_len_of (length chunk) j) filled r),
      )
  unfolding after_fragment prep_write
  on_cqe-fresh new =
      on_cqe-on_recv
      ∙ on_recv-process
      ∙ rw
          (process_fragment-fresh i (length (packet chunk k j)) hdr arrived_state parsed long
            inside_count few new)
          (rw starts refl)
