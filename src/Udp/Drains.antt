-- ===== src/Udp/Drains.antt =====
-- The waits of send_chunk (src/transport/udp_transport.cpp) for the completions of its sends.
use embr.Base.{
  List, Option, [], arith, le→ltb, ok, refl, suc, true, zero, ℕ, ◌<◌, ◌^◌, ◌∙◌, ◌∷◌, ◌≡◌, ◌≤◌,
}
use embr.Protocol.{Bytes}
use embr.Udp.{make_user_data, tag_read, tag_send, tag_shift}
use embr.Udp.Header.{get_tag-make_user_data}
use embr.Udp.Recv.{Cqe, Outcome, Wakeup, count_down, done, queue_depth, unwoken, woken_by}
use embr.Udp.Send.{Read, Sender, drain_sends, on_send_cqe, read_in}

-- At least n completions of sends without an error, and in between any of reads.
pub data SendsEnd : ℕ → List Wakeup → Type 0 where
  all_sent : (ws : List Wakeup) → SendsEnd 0 ws
  one_sent :
      (n j m : ℕ) (bytes : Bytes) (ws : List Wakeup)
      → j < 2 ^ tag_shift
      → SendsEnd n ws
      → SendsEnd (suc n) (
          woken_by
            (record { user_data = make_user_data tag_send j; res = done m; datagram = bytes })
          ∷ ws)
  one_read :
      (n i : ℕ) (outcome : Outcome) (bytes : Bytes) (ws : List Wakeup)
      → i < 2 ^ tag_shift
      → SendsEnd n ws
      → SendsEnd n (
          woken_by
            (record { user_data = make_user_data tag_read i; res = outcome; datagram = bytes })
          ∷ ws)

pub record Drained (ws : List Wakeup) (s : Sender) : Type 0 where
  pub rest : List Wakeup
  pub after : Sender
  pub runs : drain_sends 1 ws s ≡ (ok rest, after)
  pub sent_same : after.sent ≡ s.sent

empty-Drained : (ws : List Wakeup) (s : Sender) → s.pending_frags ≡ 0 → Drained ws s
unfolding drain_sends
empty-Drained [] s z = record { rest = []; after = s; runs = rw z refl; sent_same = refl }
empty-Drained (unwoken ∷ ws) s z = record {
  rest = unwoken ∷ ws;
  after = s;
  runs = rw z refl;
  sent_same = refl;
}
empty-Drained (woken_by c ∷ ws) s z = record {
  rest = woken_by c ∷ ws;
  after = s;
  runs = rw z refl;
  sent_same = refl;
}

cqe-Drained :
    (c : Cqe) (ws : List Wakeup) (s t : Sender)
    → on_send_cqe c s ≡ (ok tt, t)
    → t.sent ≡ s.sent
    → 1 ≤ s.pending_frags
    → Drained ws t
    → Drained (woken_by c ∷ ws) s
unfolding drain_sends
cqe-Drained c ws s t now same some_left d = record {
  rest = d.rest;
  after = d.after;
  runs = rw (le→ltb s.pending_frags 1 some_left) (rw now d.runs);
  sent_same = d.sent_same ∙ same;
}

read_in-sent : (r : Option Read) (o : Outcome) (s : Sender) → (read_in r o s).sent ≡ s.sent
read_in-sent r o s = ground arith

read_in-pending :
    (r : Option Read) (o : Outcome) (s : Sender) → (read_in r o s).pending_frags ≡ s.pending_frags
read_in-pending r o s = ground arith

pub drain_sends-Drained :
    (n : ℕ) (ws : List Wakeup) (s : Sender)
    → SendsEnd n ws
    → s.pending_frags ≡ n
    → n ≤ queue_depth
    → Drained ws s
unfolding on_send_cqe
drain_sends-Drained zero ws s c z le = empty-Drained ws s z
drain_sends-Drained (suc n) _ s (one_sent _ j m bytes ws j_in c) e le =
    let (tag, idx) = get_tag-make_user_data tag_send j j_in in
    cqe-Drained _ ws s (record s { pending_frags = count_down s.pending_frags }) (rw (tag) refl)
      refl (omega arith)
      (drain_sends-Drained n ws (record s { pending_frags = count_down s.pending_frags }) c
        (omega (arith, e)) (omega arith))
drain_sends-Drained (suc n) _ s (one_read _ i outcome bytes ws i_in c) e le =
    let (tag, idx) = get_tag-make_user_data tag_read i i_in in
    let t = record (read_in s.reading outcome s) { read_completed = true; read_result = outcome } in
    cqe-Drained _ ws s t (rw (tag) refl) (read_in-sent s.reading outcome s) (omega arith)
      (drain_sends-Drained (suc n) ws t c (read_in-pending s.reading outcome s ∙ e) le)
