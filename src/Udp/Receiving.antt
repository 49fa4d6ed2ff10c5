-- ===== src/Udp/Receiving.antt =====
-- What holds while recv_file of src/transport/udp_transport.cpp collects a chunk.
use embr.Base.{
  arith, drop, get_or, inl, inr, length, not, one_if, total, total-same, true, ℕ, ◌*◌, ◌+◌, ◌-◌,
  ◌<◌, ◌∙◌, ◌≡◌, ◌≤◌, ◌⊎◌,
}
use embr.Protocol.{Bytes}
use embr.Udp.{frag_count_of, frag_hdr_size, frag_len_of, udp_frag_bufs, udp_payload_size}
use embr.Udp.Recv.{
  Receiver, Slot, recv_queued, recv_submitted, slot_free, submit, submitted, write_queued,
  write_submitted,
}

abbrev pub is_recv : Slot → ℕ
is_recv recv_queued = 1
is_recv recv_submitted = 1
is_recv _ = 0

abbrev pub is_write : Slot → ℕ
is_write (write_queued o n) = 1
is_write (write_submitted o n) = 1
is_write _ = 0

module _ (chunk : Bytes) (off : ℕ) where
  -- The bytes that a write would put into the file are those of the chunk at its offset.
  abbrev pub IsPart : ℕ → ℕ → Bytes → Type 0
  IsPart o n buf =
      (off ≤ o)
      × (o + n ≤ off + length chunk)
      × ((q : ℕ) → q < n → get_or (drop frag_hdr_size buf) q 0 ≡ get_or chunk (o - off + q) 0)

  abbrev pub Carries : Slot → Bytes → Type 0
  Carries (write_queued o n) buf = IsPart o n buf
  Carries (write_submitted o n) buf = IsPart o n buf
  Carries _ buf = Unit {0}

  abbrev pub IsFragment : ℕ → ℕ → ℕ → Type 0
  IsFragment o n j = (o ≡ off + j * udp_payload_size) × (n ≡ frag_len_of (length chunk) j)

  -- The slot is to write fragment j.
  abbrev pub At : Slot → ℕ → Type 0
  At (write_queued o n) j = IsFragment o n j
  At (write_submitted o n) j = IsFragment o n j
  At _ j = ⊥

  -- Fragment j is in the file.
  abbrev pub Landed : (ℕ → ℕ) → ℕ → Type 0
  Landed file j =
      (q : ℕ)
      → q < frag_len_of (length chunk) j
      → file (off + j * udp_payload_size + q) ≡ get_or chunk (j * udp_payload_size + q) 0

  pub record Receiving (before : ℕ → ℕ) (r : Receiver) : Type 0 where
    pub offset_is : r.chunk_offset ≡ off
    pub count_is : r.frag_count ≡ frag_count_of (length chunk)
    pub recvs_are : r.pending_recvs ≡ total (λ i. is_recv (r.slots i)) udp_frag_bufs
    pub writes_are : r.pending_writes ≡ total (λ i. is_write (r.slots i)) udp_frag_bufs
    pub remaining_are :
        r.frag_remaining ≡ total (λ j. one_if (not (r.received j))) (frag_count_of (length chunk))
    pub carries : (i : ℕ) → i < udp_frag_bufs → Carries (r.slots i) (r.bufs i)
    pub collected :
        (j : ℕ)
        → j < frag_count_of (length chunk)
        → r.received j ≡ true
        → Landed r.file j ⊎ ((i : ℕ) × (i < udp_frag_bufs) × At (r.slots i) j)
    pub elsewhere : (p : ℕ) → (p < off) ⊎ (off + length chunk ≤ p) → r.file p ≡ before p

  submitted-Carries : (s : Slot) (buf : Bytes) → Carries s buf → Carries (submitted s) buf
  submitted-Carries slot_free buf c = c
  submitted-Carries recv_queued buf c = c
  submitted-Carries recv_submitted buf c = c
  submitted-Carries (write_queued o n) buf c = c
  submitted-Carries (write_submitted o n) buf c = c

  submitted-At : (s : Slot) (j : ℕ) → At s j → At (submitted s) j
  submitted-At slot_free j a = a
  submitted-At recv_queued j a = a
  submitted-At recv_submitted j a = a
  submitted-At (write_queued o n) j a = a
  submitted-At (write_submitted o n) j a = a

  module _ {before : ℕ → ℕ} {r : Receiver} (g : Receiving before r) where
    pub Receiving-submit : Receiving before (submit r)
    Receiving-submit = record {
      offset_is = g.offset_is;
      count_is = g.count_is;
      recvs_are =
          g.recvs_are
          ∙ total-same (λ i. is_recv (r.slots i)) (λ i. is_recv (submitted (r.slots i)))
              udp_frag_bufs (λ i _. ground arith);
      writes_are =
          g.writes_are
          ∙ total-same (λ i. is_write (r.slots i)) (λ i. is_write (submitted (r.slots i)))
              udp_frag_bufs (λ i _. ground arith);
      remaining_are = g.remaining_are;
      carries = λ i i_in. submitted-Carries (r.slots i) (r.bufs i) (g.carries i i_in);
      collected = λ j inside got. elim (g.collected j inside got) [
        | inl landed ↦ inl landed
        | inr (i, i_in, at) ↦ inr (i, i_in, submitted-At (r.slots i) j at)
      ];
      elsewhere = g.elsewhere;
    }
