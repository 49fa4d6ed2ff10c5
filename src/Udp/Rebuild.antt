-- ===== src/Udp/Rebuild.antt =====
-- The loop of recv_file (src/transport/udp_transport.cpp) puts a chunk together, in whatever order
-- its fragments come, and comes to an end.
-- What may be handed over while the chunk k is collected: a fragment of it, in a buffer that waits
-- for one, and the whole of a write that was submitted.
use embr.Base.{
  Bool, Bool-cases, List, [], ap, arith, false, get_or, inl, inr, leb, length, not, ok, one_if,
  refl, total-ge, total-le, true, ℕ, ◌&&◌, ◌*◌, ◌+◌, ◌-◌, ◌<◌, ◌==◌, ◌||◌, ◌∙◌, ◌∷◌, ◌≡◌, ◌≤◌,
}
use embr.Egress.{count_up}
use embr.Protocol.{Bytes, chunk_size_const, u32_mod, u64_mod}
use embr.Udp.{
  frag_count_of, frag_len_of, has_tag, parse_frag_hdr, tag_recv, tag_write, udp_frag_bufs,
  udp_payload_size,
}
use embr.Udp.Fragments.{frag_bytes, frag_inside, get_or-fill_buffer, packet}
use embr.Udp.Handling.{on_cqe-fresh, on_cqe-repeat, on_cqe-write, recv_cqe, submit_when, write_cqe}
use embr.Udp.Header.{get_tag-make_user_data, parse_frag_hdr-write}
use embr.Udp.Receiving.{IsPart, Receiving, Receiving-submit, is_write}
use embr.Udp.Recv.{
  Cqe, Receiver, Wakeup, count_down, fill_buffer, flush_threshold, is_finished, on_cqe,
  recv_submitted, unwoken, woken_by, write_submitted,
}
use embr.Udp.Rounds.{
  fresh-Receiving, fresh_state, repeat-Receiving, repeat_state, write_state, writes-le,
}
use embr.Udp.Writes.{write-Receiving}

pub data Delivers (chunk : Bytes) (k : ℕ) (r : Receiver) : Cqe → Type 0 where
  fragment :
      (i j : ℕ)
      → i < udp_frag_bufs
      → j < frag_count_of (length chunk)
      → r.slots i ≡ recv_submitted
      → Delivers chunk k r (recv_cqe chunk k i j)
  write_ended :
      (i o n : ℕ)
      → i < udp_frag_bufs
      → r.slots i ≡ write_submitted o n
      → Delivers chunk k r (write_cqe i n)

-- Each wait of the loop, until it ends, hands over such a completion.
unfoldable pub Serves : Bytes → ℕ → List Wakeup → Receiver → Type 0
Serves chunk k [] r = Unit {0}
Serves chunk k (unwoken ∷ ws) r = is_finished r ≡ true
Serves chunk k (woken_by c ∷ ws) r =
    is_finished r ≡ false → Delivers chunk k r c × Serves chunk k ws (on_cqe c r).1

-- A fragment that has come before.
abbrev pub is_repeat : Cqe → Receiver → Bool
is_repeat c r = has_tag tag_recv c.user_data && r.received (parse_frag_hdr c.datagram).frag_index

unfoldable pub repeats : List Wakeup → Receiver → ℕ
repeats [] r = 0
repeats (unwoken ∷ ws) r = 0
repeats (woken_by c ∷ ws) r = one_if (is_repeat c r) + repeats ws (on_cqe c r).1

-- How many rounds the chunk takes yet, each without a repeat.
abbrev pub rounds_left : Receiver → ℕ
rounds_left r = 2 * r.frag_remaining + r.pending_writes

-- What is known of a chunk and of the place that it has in the file.
pub record Fits (chunk : Bytes) (off k : ℕ) : Type 0 where
  pub short : length chunk ≤ chunk_size_const
  pub small : k < u32_mod
  pub ends : off + length chunk < u64_mod

submit_when-Receiving :
    (chunk : Bytes) (off : ℕ) {before : ℕ → ℕ} (b : Bool) {r : Receiver}
    → Receiving chunk off before r
    → Receiving chunk off before (submit_when b r)
submit_when-Receiving chunk off true g = Receiving-submit chunk off g
submit_when-Receiving chunk off false g = g

rounds_left-submit : (b : Bool) (r : Receiver) → rounds_left (submit_when b r) ≡ rounds_left r
rounds_left-submit true r = refl
rounds_left-submit false r = refl

module _ (chunk : Bytes) (off k : ℕ) (before : ℕ → ℕ) (fits : Fits chunk off k) where
  abbrev pub Step : Cqe → Receiver → Type 0
  Step c r =
      (s : Receiver) × (on_cqe c r ≡ (ok tt, s))
      × Receiving chunk off before s
      × (rounds_left s + 1 ≡ rounds_left r + one_if (is_repeat c r))

  fill_buffer-IsPart :
      (buf : Bytes) (j : ℕ)
      → j < frag_count_of (length chunk)
      → IsPart chunk off
          (off + j * udp_payload_size)
          (frag_len_of (length chunk) j)
          (fill_buffer (packet chunk k j) buf)
  fill_buffer-IsPart buf j j_in = (
    omega arith,
    omega (arith, (frag_inside (length chunk) j j_in).0),
    λ q lt.
        get_or-fill_buffer chunk k j j_in buf q lt
        ∙ ap (λ (x : ℕ). get_or chunk x 0) {x = j * udp_payload_size + q}
            {y = off + j * udp_payload_size - off + q} (omega arith),
  )

  module _ (r : Receiver) (g : Receiving chunk off before r) where
    remaining-le : r.frag_remaining ≤ frag_count_of (length chunk)
    remaining-le = omega (
      arith,
      g.remaining_are,
      total-le (λ m. one_if (not (r.received m))) (frag_count_of (length chunk))
          (λ m. ground arith),
    )

    remaining-ge :
        (j : ℕ) → j < frag_count_of (length chunk) → r.received j ≡ false → 1 ≤ r.frag_remaining
    remaining-ge j j_in new = omega (
      arith,
      g.remaining_are,
      total-ge (λ m. one_if (not (r.received m))) (frag_count_of (length chunk)) j j_in,
      ap (λ b. one_if (not b)) new,
    )

    pending-le : r.pending_writes ≤ udp_frag_bufs
    pending-le = omega (arith, g.writes_are, writes-le r)

    pending-ge :
        (i o n : ℕ) → i < udp_frag_bufs → r.slots i ≡ write_submitted o n → 1 ≤ r.pending_writes
    pending-ge i o n i_in writing = omega (
      arith,
      g.writes_are,
      total-ge (λ m. is_write (r.slots m)) udp_frag_bufs i i_in,
      ap is_write writing,
    )

    is_repeat-packet :
        (i j : ℕ)
        → i < udp_frag_bufs
        → j < frag_count_of (length chunk)
        → is_repeat (recv_cqe chunk k i j) r ≡ r.received j
    is_repeat-packet i j i_in j_in =
        let (tag, idx) = get_tag-make_user_data tag_recv i (omega arith) in
        rw
          (
            tag,
            parse_frag_hdr-write k j (frag_len_of (length chunk) j) (frag_bytes chunk j) fits.small
                (omega (arith, fits.short)) (omega (arith, (frag_inside (length chunk) j j_in).1)),
          )
          refl

    is_repeat-write : (i n : ℕ) → i < udp_frag_bufs → is_repeat (write_cqe i n) r ≡ false
    is_repeat-write i n i_in =
        let (tag, idx) = get_tag-make_user_data tag_write i (omega arith) in rw tag refl

    fragment-Step :
        (i j : ℕ)
        → i < udp_frag_bufs
        → j < frag_count_of (length chunk)
        → r.slots i ≡ recv_submitted
        → Step (recv_cqe chunk k i j) r
    fragment-Step i j i_in j_in armed =
        let buf = fill_buffer (packet chunk k j) (r.bufs i) in
        let twin = is_repeat-packet i j i_in j_in in
        elim (Bool-cases (r.received j)) [
          | inl seen ↦
              let b = leb flush_threshold (count_up (count_down r.pending_recvs)) in
              let s = repeat_state i buf r in
              (
                submit_when b s,
                on_cqe-repeat chunk off k i j r i_in g.offset_is g.count_is fits.short fits.small
                    fits.ends j_in seen,
                submit_when-Receiving chunk off b (repeat-Receiving chunk off r g i i_in armed buf),
                omega (arith, rounds_left-submit b s, ap one_if (twin ∙ seen)),
              )
          | inr new ↦
              let o = off + j * udp_payload_size in
              let n = frag_len_of (length chunk) j in
              let b =
                leb flush_threshold (count_up r.pending_writes)
                || count_down r.frag_remaining == 0 in
              let s = fresh_state i j o n buf r in
              (
                submit_when b s,
                on_cqe-fresh chunk off k i j r i_in g.offset_is g.count_is fits.short fits.small
                    fits.ends j_in new,
                submit_when-Receiving chunk off b (
                    fresh-Receiving chunk off r g i i_in armed j j_in new fits.short buf
                      (fill_buffer-IsPart (r.bufs i) j j_in)),
                omega (
                  arith,
                  rounds_left-submit b s,
                  ap one_if (twin ∙ new),
                  remaining-le,
                  remaining-ge j j_in new,
                  pending-le,
                  fits.short,
                ),
              )
        ]

    write-Step :
        (i o n : ℕ) → i < udp_frag_bufs → r.slots i ≡ write_submitted o n → Step (write_cqe i n) r
    write-Step i o n i_in writing =
        let b = leb flush_threshold (count_up r.pending_recvs) in
        let s = write_state i o n r in
        (
          submit_when b s,
          on_cqe-write i o n r i_in writing,
          submit_when-Receiving chunk off b (write-Receiving chunk off r g i i_in o n writing),
          omega (
            arith,
            rounds_left-submit b s,
            ap one_if (is_repeat-write i n i_in),
            pending-le,
            pending-ge i o n i_in writing,
          ),
        )

    pub delivered-Step : (c : Cqe) → Delivers chunk k r c → Step c r
    delivered-Step _ (fragment i j i_in j_in armed) = fragment-Step i j i_in j_in armed
    delivered-Step _ (write_ended i o n i_in writing) = write-Step i o n i_in writing
