-- ===== src/Udp/Rounds.antt =====
-- The rounds of the loop of recv_file (src/transport/udp_transport.cpp) keep `Receiving`.
use embr.Base.{
  ==_iff, Bool-cases, ap, arith, drop, false, inl, inr, length, not, one_if, subst, total,
  total-change, total-le, true, ℕ, ◌*◌, ◌+◌, ◌<◌, ◌==◌, ◌≡◌, ◌≤◌, ◌⊎◌,
}
use embr.Egress.{count_up}
use embr.Protocol.{Bytes, chunk_size_const}
use embr.Udp.{frag_count_of, frag_hdr_size, frag_len_of, udp_frag_bufs, udp_payload_size}
use embr.Udp.Receiving.{At, Carries, IsPart, Landed, Receiving, is_recv, is_write}
use embr.Udp.Recv.{
  Receiver, Slot, count_down, recv_queued, recv_submitted, slot_free, update, write_bytes,
  write_queued,
}

abbrev pub new_slot : ℕ → Slot → Receiver → ℕ → Slot
new_slot i s r = update (update r.slots i slot_free) i s

-- A fragment that had not come before, before the submission that may follow.
abbrev pub fresh_state : ℕ → ℕ → ℕ → ℕ → Bytes → Receiver → Receiver
fresh_state i j o n buf r = record r {
  bufs = update r.bufs i buf;
  slots = new_slot i (write_queued o n) r;
  pending_recvs = count_down r.pending_recvs;
  pending_writes = count_up r.pending_writes;
  received = update r.received j true;
  frag_remaining = count_down r.frag_remaining;
}

-- One that had.
abbrev pub repeat_state : ℕ → Bytes → Receiver → Receiver
repeat_state i buf r = record r {
  bufs = update r.bufs i buf;
  slots = new_slot i recv_queued r;
  pending_recvs = count_up (count_down r.pending_recvs);
}

-- A write that is complete.
abbrev pub write_state : ℕ → ℕ → ℕ → Receiver → Receiver
write_state i o n r = record r {
  file = write_bytes r.file o n (drop frag_hdr_size (r.bufs i));
  slots = new_slot i recv_queued r;
  pending_recvs = count_up r.pending_recvs;
  pending_writes = count_down r.pending_writes;
}

pub total-new_slot :
    (f : Slot → ℕ) (i : ℕ) (s : Slot) (r : Receiver)
    → i < udp_frag_bufs
    → total (λ k. f (new_slot i s r k)) udp_frag_bufs + f (r.slots i)
      ≡ total (λ k. f (r.slots k)) udp_frag_bufs + f s
total-new_slot f i s r inside = omega (
  arith,
  total-change (λ k. f (new_slot i s r k)) (λ k. f (r.slots k)) i udp_frag_bufs
      (λ k ne. ground arith) inside,
  ap f {x = new_slot i s r i} {y = s} (ground arith),
)

-- What holds of each slot and its buffer holds after both change at one number.
pub new_slot_all :
    (P : Slot → Bytes → Type 0) (i : ℕ) (s : Slot) (buf : Bytes) (r : Receiver)
    → P s buf
    → ((k : ℕ) → k < udp_frag_bufs → P (r.slots k) (r.bufs k))
    → (k : ℕ) → k < udp_frag_bufs
    → P (new_slot i s r k) (update r.bufs i buf k)
new_slot_all P i s buf r h all k k_in = elim (Bool-cases (k == i)) [
  | inl same ↦ rw same h
  | inr other ↦ rw other (all k k_in)
]

-- A slot that does not write fragment j may change.
pub new_slot-At :
    (chunk : Bytes) (off i : ℕ) (s : Slot) (r : Receiver) (j k : ℕ)
    → (At chunk off (r.slots i) j → ⊥)
    → At chunk off (r.slots k) j
    → At chunk off (new_slot i s r k) j
new_slot-At chunk off i s r j k apart at = elim (Bool-cases (k == i)) [
  | inl same ↦
      absurd (apart (subst (λ (x : ℕ). At chunk off (r.slots x) j) ((==_iff k i).0 same) at))
  | inr other ↦ rw other at
]

pub recvs-le : (r : Receiver) → total (λ k. is_recv (r.slots k)) udp_frag_bufs ≤ udp_frag_bufs
recvs-le r = total-le (λ k. is_recv (r.slots k)) udp_frag_bufs (λ k. ground arith)

pub writes-le : (r : Receiver) → total (λ k. is_write (r.slots k)) udp_frag_bufs ≤ udp_frag_bufs
writes-le r = total-le (λ k. is_write (r.slots k)) udp_frag_bufs (λ k. ground arith)

module _ (chunk : Bytes) (off : ℕ) {before : ℕ → ℕ} (r : Receiver)
    (g : Receiving chunk off before r) (i : ℕ) (i_in : i < udp_frag_bufs) where
  module _ (armed : r.slots i ≡ recv_submitted) where
    repeat-recvs :
        count_up (count_down r.pending_recvs)
        ≡ total (λ k. is_recv (new_slot i recv_queued r k)) udp_frag_bufs
    repeat-recvs = omega (
      arith,
      total-new_slot is_recv i recv_queued r i_in,
      ap is_recv armed,
      g.recvs_are,
      recvs-le r,
    )

    repeat-writes :
        r.pending_writes ≡ total (λ k. is_write (new_slot i recv_queued r k)) udp_frag_bufs
    repeat-writes =
        omega (arith, total-new_slot is_write i recv_queued r i_in, ap is_write armed, g.writes_are)

    not_writing : (j : ℕ) → At chunk off (r.slots i) j → ⊥
    not_writing j at = subst (λ (s : Slot). At chunk off s j) armed at

    pub repeat-Receiving : (buf : Bytes) → Receiving chunk off before (repeat_state i buf r)
    repeat-Receiving buf = record {
      offset_is = g.offset_is;
      count_is = g.count_is;
      recvs_are = repeat-recvs;
      writes_are = repeat-writes;
      remaining_are = g.remaining_are;
      carries = new_slot_all (Carries chunk off) i recv_queued buf r tt g.carries;
      collected = λ j j_in got. elim (g.collected j j_in got) [
        | inl landed ↦ inl landed
        | inr (k, k_in, at) ↦
            inr (k, k_in, new_slot-At chunk off i recv_queued r j k (not_writing j) at)
      ];
      elsewhere = g.elsewhere;
    }

    module _ (j : ℕ) (j_in : j < frag_count_of (length chunk)) (new : r.received j ≡ false)
        (short : length chunk ≤ chunk_size_const) (buf : Bytes)
        (part : IsPart chunk off
          (off + j * udp_payload_size)
          (frag_len_of (length chunk) j)
          buf) where
      frag_slot : Slot
      frag_slot = write_queued (off + j * udp_payload_size) (frag_len_of (length chunk) j)

      fresh-recvs :
          count_down r.pending_recvs ≡ total (λ k. is_recv (new_slot i frag_slot r k)) udp_frag_bufs
      unfolding frag_slot
      fresh-recvs = omega (
        arith,
        total-new_slot is_recv i frag_slot r i_in,
        ap is_recv armed,
        g.recvs_are,
        recvs-le r,
      )

      fresh-writes :
          count_up r.pending_writes ≡ total (λ k. is_write (new_slot i frag_slot r k)) udp_frag_bufs
      unfolding frag_slot
      fresh-writes = omega (
        arith,
        total-new_slot is_write i frag_slot r i_in,
        ap is_write armed,
        g.writes_are,
        writes-le r,
      )

      fresh-remaining :
          count_down r.frag_remaining
          ≡ total (λ m. one_if (not (update r.received j true m))) (frag_count_of (length chunk))
      fresh-remaining = omega (
        arith,
        total-change (λ m. one_if (not (update r.received j true m)))
            (λ m. one_if (not (r.received m))) j (frag_count_of (length chunk))
            (λ m ne. ground arith) j_in,
        ap (λ b. one_if (not b)) {x = update r.received j true j} {y = true} (ground arith),
        ap (λ b. one_if (not b)) new,
        g.remaining_are,
        total-le (λ m. one_if (not (r.received m))) (frag_count_of (length chunk))
            (λ m. ground arith),
      )

      fresh-collected :
          (m : ℕ)
          → m < frag_count_of (length chunk)
          → update r.received j true m ≡ true
          → Landed chunk off r.file m
            ⊎ ((k : ℕ) × (k < udp_frag_bufs) × At chunk off (new_slot i frag_slot r k) m)
      unfolding frag_slot
      fresh-collected m m_in got = elim (Bool-cases (m == j)) [
        | inl same ↦
            let e = (==_iff m j).0 same in
            inr (
              i,
              i_in,
              subst (λ (s : Slot). At chunk off s m) {x = frag_slot} {y = new_slot i frag_slot r i}
                  (ground arith) (ground arith),
            )
        | inr other ↦ elim (g.collected m m_in (ground arith)) [
          | inl landed ↦ inl landed
          | inr (k, k_in, at) ↦
              inr (k, k_in, new_slot-At chunk off i frag_slot r m k (not_writing m) at)
        ]
      ]

      pub fresh-Receiving :
          Receiving chunk off before
            (fresh_state i j (off + j * udp_payload_size) (frag_len_of (length chunk) j) buf r)
      unfolding frag_slot
      fresh-Receiving = record {
        offset_is = g.offset_is;
        count_is = g.count_is;
        recvs_are = fresh-recvs;
        writes_are = fresh-writes;
        remaining_are = fresh-remaining;
        carries = new_slot_all (Carries chunk off) i frag_slot buf r part g.carries;
        collected = fresh-collected;
        elsewhere = g.elsewhere;
      }
