-- ===== src/Udp/Writes.antt =====
-- A write of src/transport/udp_transport.cpp that is complete keeps `Receiving`.
use embr.Base.{
  ==_iff, Bool-cases, ap, arith, drop, false, get_or, inl, inr, leb, length, ltb, subst, total,
  true, ℕ, ◌&&◌, ◌*◌, ◌+◌, ◌-◌, ◌<◌, ◌==◌, ◌∙◌, ◌≡◌, ◌≤◌, ◌⊎◌,
}
use embr.Egress.{count_up}
use embr.Protocol.{Bytes}
use embr.Udp.{frag_count_of, frag_hdr_size, udp_frag_bufs, udp_payload_size}
use embr.Udp.Receiving.{At, Carries, IsFragment, IsPart, Landed, Receiving, is_recv, is_write}
use embr.Udp.Recv.{Receiver, Slot, count_down, recv_queued, write_bytes, write_submitted}
use embr.Udp.Rounds.{new_slot, recvs-le, total-new_slot, write_state, writes-le}

module _ (chunk : Bytes) (off : ℕ) {before : ℕ → ℕ} (r : Receiver)
    (g : Receiving chunk off before r) (i : ℕ) (i_in : i < udp_frag_bufs) where
  module _ (o n : ℕ) (writing : r.slots i ≡ write_submitted o n) where
    write-recvs :
        count_up r.pending_recvs ≡ total (λ k. is_recv (new_slot i recv_queued r k)) udp_frag_bufs
    write-recvs = omega (
      arith,
      total-new_slot is_recv i recv_queued r i_in,
      ap is_recv writing,
      g.recvs_are,
      recvs-le r,
    )

    write-writes :
        count_down r.pending_writes
        ≡ total (λ k. is_write (new_slot i recv_queued r k)) udp_frag_bufs
    write-writes = omega (
      arith,
      total-new_slot is_write i recv_queued r i_in,
      ap is_write writing,
      g.writes_are,
      writes-le r,
    )

    part : IsPart chunk off o n (r.bufs i)
    part = subst (λ (s : Slot). Carries chunk off s (r.bufs i)) writing (g.carries i i_in)

    abbrev after : ℕ → ℕ
    after = write_bytes r.file o n (drop frag_hdr_size (r.bufs i))

    wrote_byte : (x p : ℕ) → x ≡ off + p → o ≤ x → x < o + n → after x ≡ get_or chunk p 0
    wrote_byte x p e lo hi =
        let (above, below, same) = part in
        let bytes = drop frag_hdr_size (r.bufs i) in
        let inside : (leb o x && ltb x (o + n)) ≡ true = ground arith in
        rw inside (
          same (x - o) (omega arith)
          ∙ ap (λ (q : ℕ). get_or chunk q 0) {x = o - off + (x - o)} {y = p} (omega arith))

    -- A byte of the chunk is not lost, whoever wrote it.
    kept_byte : (x p : ℕ) → x ≡ off + p → r.file x ≡ get_or chunk p 0 → after x ≡ get_or chunk p 0
    kept_byte x p e h = elim (Bool-cases (leb o x && ltb x (o + n))) [
      | inl inside ↦ wrote_byte x p e (ground arith) (ground arith)
      | inr outside ↦ rw outside h
    ]

    write-elsewhere : (p : ℕ) → (p < off) ⊎ (off + length chunk ≤ p) → after p ≡ before p
    write-elsewhere p out =
        let (above, below, same) = part in
        let outside : (leb o p && ltb p (o + n)) ≡ false = ground arith in
        rw outside (g.elsewhere p out)

    write-collected :
        (j : ℕ)
        → j < frag_count_of (length chunk)
        → r.received j ≡ true
        → Landed chunk off after j
          ⊎ ((k : ℕ) × (k < udp_frag_bufs) × At chunk off (new_slot i recv_queued r k) j)
    write-collected j j_in got = elim (g.collected j j_in got) [
      | inl landed ↦ inl (λ q lt.
          kept_byte (off + j * udp_payload_size + q) (j * udp_payload_size + q) (omega arith)
            (landed q lt))
      | inr (k, k_in, at) ↦ elim (Bool-cases (k == i)) [
        | inl same ↦
            let (starts, sized) : IsFragment chunk off o n j =
              subst (λ (s : Slot). At chunk off s j) (ap r.slots ((==_iff k i).0 same) ∙ writing)
                at in
            inl (λ q lt.
              wrote_byte (off + j * udp_payload_size + q) (j * udp_payload_size + q) (omega arith)
                (omega arith) (omega arith))
        | inr other ↦ inr (k, k_in, rw other at)
      ]
    ]

    pub write-Receiving : Receiving chunk off before (write_state i o n r)
    write-Receiving = record {
      offset_is = g.offset_is;
      count_is = g.count_is;
      recvs_are = write-recvs;
      writes_are = write-writes;
      remaining_are = g.remaining_are;
      carries = λ k k_in. elim (Bool-cases (k == i)) [
        | inl same ↦ rw same tt
        | inr other ↦ rw other (g.carries k k_in)
      ];
      collected = write-collected;
      elsewhere = write-elsewhere;
    }
