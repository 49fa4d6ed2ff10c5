-- ===== src/Udp/Collect.antt =====
-- A chunk that recv_file (src/transport/udp_transport.cpp) has collected is whole in the file.
use embr.Base.{
  Bool-cases, List, Result, [], ap, arith, false, get_or, inl, inr, length, not, ok, one_if, refl,
  subst, sym, total, total-none, total-ones, total-same, total-zero, true, ℕ, ◌%◌, ◌*◌, ◌+◌, ◌/◌,
  ◌<◌, ◌∙◌, ◌∷◌, ◌≡◌, ◌≤◌, ◌⊎◌,
}
use embr.Geometry.{chunk_len}
use embr.Protocol.{Bytes, chunk_size_const, u32_mod, u64_mod}
use embr.Udp.{frag_count_of, udp_frag_bufs, udp_payload_size}
use embr.Udp.Fragments.{frag_covers}
use embr.Udp.Rebuild.{Fits, Serves, delivered-Step, repeats, rounds_left}
use embr.Udp.Receiving.{At, Carries, Receiving, is_recv, is_write}
use embr.Udp.Recv.{
  Receiver, Slot, Wakeup, begin_chunk, cqe_loop, is_finished, on_cqe, recv_queued, recv_submitted,
  slot_free, unwoken, woken_by, write_queued, write_submitted,
}

module _ (chunk : Bytes) (off : ℕ) (before : ℕ → ℕ) where
  -- The loop has returned, and the chunk is in the file, which is what it was elsewhere.
  pub record Collected (ws : List Wakeup) (r : Receiver) : Type 0 where
    pub rest : List Wakeup
    pub after : Receiver
    pub runs : cqe_loop ws r ≡ (ok rest, after)
    pub there : (p : ℕ) → p < length chunk → after.file (off + p) ≡ get_or chunk p 0
    pub is_over : is_finished after ≡ true
    pub receiving : Receiving chunk off before after
    pub elsewhere : (p : ℕ) → (p < off) ⊎ (off + length chunk ≤ p) → after.file p ≡ before p

  module _ (r : Receiver) (g : Receiving chunk off before r) (over : is_finished r ≡ true) where
    all_received : (j : ℕ) → j < frag_count_of (length chunk) → r.received j ≡ true
    all_received j j_in =
        let none_left : r.frag_remaining ≡ 0 = ground arith in
        let zero_at : one_if (not (r.received j)) ≡ 0 =
          total-zero (λ m. one_if (not (r.received m))) (frag_count_of (length chunk)) j
            (sym g.remaining_are ∙ none_left) j_in in
        elim (Bool-cases (r.received j)) [ inl got ↦ got | inr new ↦ absurd (ground arith) ]

    not_writing : (i j : ℕ) → i < udp_frag_bufs → At chunk off (r.slots i) j → ⊥
    not_writing i j i_in at =
        let none_left : r.pending_writes ≡ 0 = ground arith in
        let zero_at : is_write (r.slots i) ≡ 0 =
          total-zero (λ m. is_write (r.slots m)) udp_frag_bufs i (sym g.writes_are ∙ none_left)
            i_in in
        writes_none (r.slots i) zero_at at
      where
        writes_none : (s : Slot) → is_write s ≡ 0 → At chunk off s j → ⊥
        writes_none slot_free z a = a
        writes_none recv_queued z a = a
        writes_none recv_submitted z a = a
        writes_none (write_queued o n) z a = omega arith
        writes_none (write_submitted o n) z a = omega arith

    whole : (p : ℕ) → p < length chunk → r.file (off + p) ≡ get_or chunk p 0
    whole p p_in =
        let j = p / udp_payload_size in
        let q = p % udp_payload_size in
        let (j_in, q_in) = frag_covers (length chunk) p p_in in
        elim (g.collected j j_in (all_received j j_in)) [
          | inl landed ↦
              ap r.file {x = off + p} {y = off + j * udp_payload_size + q} (omega arith)
              ∙ landed q q_in
              ∙ ap (λ (x : ℕ). get_or chunk x 0) {x = j * udp_payload_size + q} {y = p}
                  (omega arith)
          | inr (i, i_in, at) ↦ absurd (not_writing i j i_in at)
        ]

    finished-Collected : (ws : List Wakeup) → cqe_loop ws r ≡ (ok ws, r) → Collected ws r
    finished-Collected ws runs = record {
      rest = ws;
      after = r;
      runs = runs;
      there = whole;
      is_over = over;
      receiving = g;
      elsewhere = g.elsewhere;
    }

  unfinished : (r : Receiver) → rounds_left r ≡ 0 → is_finished r ≡ true
  unfinished r h = ground arith

  pub cqe_loop-Collected :
      (k : ℕ)
      → Fits chunk off k
      → (ws : List Wakeup) (r : Receiver) → Receiving chunk off before r
      → Serves chunk k ws r
      → rounds_left r + repeats ws r ≤ length ws
      → Collected ws r
  unfolding cqe_loop Serves repeats
  cqe_loop-Collected k fits [] r g served enough =
      let over = unfinished r (omega arith) in finished-Collected r g over [] (rw over refl)
  cqe_loop-Collected k fits (unwoken ∷ ws) r g served enough =
      finished-Collected r g served (unwoken ∷ ws) (rw served refl)
  cqe_loop-Collected k fits (woken_by c ∷ ws) r g served enough =
      elim (Bool-cases (is_finished r)) [
        | inl over ↦ finished-Collected r g over (woken_by c ∷ ws) (rw over refl)
        | inr more ↦
            let (now, later) = served more in
            let (s, ran, g', fewer) = delivered-Step chunk off k before fits r g c now in
            let e : (on_cqe c r).1 ≡ s = ap (λ (x : Result (Unit {0}) × Receiver). x.1) ran in
            let rest =
              cqe_loop-Collected k fits ws s g' (subst (Serves chunk k ws) e later)
                (omega (arith, fewer, ap (repeats ws) e)) in
            record {
              rest = rest.rest;
              after = rest.after;
              runs = rw more (rw ran rest.runs);
              there = rest.there;
              is_over = rest.is_over;
              receiving = rest.receiving;
              elsewhere = rest.elsewhere;
            }
      ]

-- No buffer holds a fragment that is not in the file yet, as between two chunks.
pub record IsIdle (r : Receiver) : Type 0 where
  pub recvs_are : r.pending_recvs ≡ total (λ i. is_recv (r.slots i)) udp_frag_bufs
  pub no_writes : (i : ℕ) → i < udp_frag_bufs → is_write (r.slots i) ≡ 0

no_write-Carries :
    (chunk : Bytes) (off : ℕ) (s : Slot) (buf : Bytes) → is_write s ≡ 0 → Carries chunk off s buf
no_write-Carries chunk off slot_free buf z = tt
no_write-Carries chunk off recv_queued buf z = tt
no_write-Carries chunk off recv_submitted buf z = tt
no_write-Carries chunk off (write_queued o n) buf z = absurd (omega arith)
no_write-Carries chunk off (write_submitted o n) buf z = absurd (omega arith)

begin_chunk-Receiving :
    (chunk : Bytes) (offset len k : ℕ) (r : Receiver)
    → IsIdle r
    → length chunk ≡ chunk_len len k
    → offset + k * chunk_size_const < u64_mod
    → Receiving chunk (offset + k * chunk_size_const) r.file (begin_chunk offset len k r)
begin_chunk-Receiving chunk offset len k r idle sized ends = record {
  offset_is = omega arith;
  count_is = ap frag_count_of (sym sized);
  recvs_are = idle.recvs_are;
  writes_are = sym (
      total-same (λ i. is_write (r.slots i)) (λ i. 0) udp_frag_bufs idle.no_writes
      ∙ total-none udp_frag_bufs);
  remaining_are =
      ap frag_count_of (sym sized)
      ∙ sym (total-ones (λ i. one_if (not false)) (frag_count_of (length chunk)) (λ i lt. refl));
  carries = λ i i_in.
      no_write-Carries chunk (offset + k * chunk_size_const) (r.slots i) (r.bufs i)
        (idle.no_writes i i_in);
  collected = λ j j_in got. absurd (ground arith);
  elsewhere = λ p out. refl;
}

-- From a state in which no buffer holds a fragment, for a chunk of the length that its index has,
-- of which the completions hand over only fragments, in any order and with repeats, and whole
-- writes: if the script holds two completions for each fragment and one for each repeat, the loop
-- of recv_file for this chunk returns, the bytes of the chunk are in the file at their offset, and
-- all others are as before.
pub begin_chunk-Collected :
    (chunk : Bytes) (offset len k : ℕ) (ws : List Wakeup) (r : Receiver)
    → IsIdle r
    → length chunk ≡ chunk_len len k
    → k < u32_mod
    → offset + k * chunk_size_const + length chunk < u64_mod
    → Serves chunk k ws (begin_chunk offset len k r)
    → 2 * frag_count_of (length chunk) + repeats ws (begin_chunk offset len k r) ≤ length ws
    → Collected chunk (offset + k * chunk_size_const) r.file ws (begin_chunk offset len k r)
begin_chunk-Collected chunk offset len k ws r idle sized small ends served enough =
    let off = offset + k * chunk_size_const in
    let fits : Fits chunk off k = record { short = omega arith; small = small; ends = ends } in
    cqe_loop-Collected chunk off r.file k fits ws (begin_chunk offset len k r)
      (begin_chunk-Receiving chunk offset len k r idle sized (omega arith)) served
      (omega (arith, ap frag_count_of sized))

-- Then the next chunk can begin.
pub Collected-IsIdle :
    {chunk : Bytes} {off : ℕ} {before : ℕ → ℕ} {ws : List Wakeup} {r : Receiver}
    (c : Collected chunk off before ws r)
    → IsIdle c.after
Collected-IsIdle {chunk} {off} c = record {
  recvs_are = c.receiving.recvs_are;
  no_writes = λ i i_in.
      total-zero (λ m. is_write (c.after.slots m)) udp_frag_bufs i
        (sym c.receiving.writes_are ∙ ground arith) i_in;
}
