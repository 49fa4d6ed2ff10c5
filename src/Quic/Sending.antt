-- ===== src/Quic/Sending.antt =====
-- What write_stream and send of src/transport/quic_transport.cpp hand to ngtcp2.
use embr.Base.{
  Bool, List, Option, Result, [], ap, append-nil, append_assoc, arith, drop, err, false, if_split,
  if◌then◌else◌, length, length-append, no_stream, none, ok, out_of_fuel, refl, some, sym, take,
  take-append-drop, true, ℕ, ◌%◌, ◌++◌, ◌+◌, ◌==◌, ◌∙◌, ◌∷◌, ◌≡◌,
}
use embr.Egress.{Flushed}
use embr.Exec.{Exec, continue, pure, ◌>>=◌}
use embr.Protocol.{Bytes, u64_mod}
use embr.Quic.{QuicTransport}
use embr.Quic.Cycle.{
  begin_packet-Grows, close_with_error-Grows, flush_packets-Grows, pump_once-Grows,
  send_packet-Grows,
}
use embr.Quic.Grows.{Always, Grows, Grows-refl}
use embr.Quic.Packets.{SendResult, begin_packet, blocked, send_failed, send_packet, sent_ok}
use embr.Quic.Pump.{Pump, pump_once}
use embr.Quic.Stream.{
  Round, StreamWrite, after_send, all_or_none, congested, pump_then, quic_send, retain,
  stream_missing, stream_packet, stream_refused, take_bytes, taken_count, window_closed,
  write_round, write_stream,
}

-- A prefix of the bytes has been taken, and all of them if the call succeeded.
pub record Wrote (bytes : Bytes) (q : QuicTransport) (r : Result Bool) (q' : QuicTransport)
    : Type 0 where
  pub taken : Bytes
  pub untaken : Bytes
  pub is_prefix : taken ++ untaken ≡ bytes
  pub accepted_is : q'.accepted_bytes ≡ q.accepted_bytes ++ taken
  pub offset_is : q'.stream_offset % u64_mod ≡ (q.stream_offset + length taken) % u64_mod
  pub all_if_true : r ≡ ok true → untaken ≡ []

Wrote-nothing :
    (bytes : Bytes) {q q' : QuicTransport} (r : Result Bool)
    → Grows q q'
    → (r ≡ ok true → bytes ≡ [])
    → Wrote bytes q r q'
Wrote-nothing bytes {q} r g h = record {
  taken = [];
  untaken = bytes;
  is_prefix = refl;
  accepted_is = g.accepted_same ∙ sym (append-nil q.accepted_bytes);
  offset_is = omega (arith, g.offset_same);
  all_if_true = h;
}

Wrote-after :
    {bytes : Bytes} {q s q' : QuicTransport} {r : Result Bool}
    → Grows q s
    → Wrote bytes s r q'
    → Wrote bytes q r q'
Wrote-after g w = record {
  taken = w.taken;
  untaken = w.untaken;
  is_prefix = w.is_prefix;
  accepted_is = w.accepted_is ∙ ap (λ (x : Bytes). x ++ w.taken) g.accepted_same;
  offset_is = w.offset_is ∙ omega (arith, g.offset_same);
  all_if_true = w.all_if_true;
}

Wrote-taken :
    {bytes : Bytes} (n : ℕ) {q q' : QuicTransport} {r : Result Bool}
    → Wrote (drop n bytes) (take_bytes n bytes q) r q'
    → Wrote bytes q r q'
Wrote-taken {bytes} n {q} w = record {
  taken = take n bytes ++ w.taken;
  untaken = w.untaken;
  is_prefix =
      append_assoc (take n bytes) w.taken w.untaken
      ∙ ap (λ (x : Bytes). take n bytes ++ x) w.is_prefix
      ∙ take-append-drop n bytes;
  accepted_is = w.accepted_is ∙ append_assoc q.accepted_bytes (take n bytes) w.taken;
  offset_is = w.offset_is ∙ omega (arith, length-append (take n bytes) w.taken);
  all_if_true = w.all_if_true;
}

-- An action whatever it is begun at.
abbrev Writes : Bytes → Exec QuicTransport Bool → Type 0
Writes bytes m = (q : QuicTransport) → Wrote bytes q (m q).0 (m q).1

Wrote-continue :
    {A : Type 0} (bytes : Bytes) {q : QuicTransport} (r : Result A × QuicTransport)
    (f : A → Exec QuicTransport Bool)
    → Grows q r.1
    → ((a : A) → Writes bytes (f a))
    → Wrote bytes q (continue r f).0 (continue r f).1
Wrote-continue bytes (ok a, s) f g h = Wrote-after g (h a s)
Wrote-continue bytes (err x, s) f g h = Wrote-nothing bytes (err x) g (λ e. absurd (cc))

Writes-bind :
    {A : Type 0} (bytes : Bytes) (m : Exec QuicTransport A) (f : A → Exec QuicTransport Bool)
    → Always m
    → ((a : A) → Writes bytes (f a))
    → Writes bytes (m >>= f)
Writes-bind bytes m f g h q = Wrote-continue bytes (m q) f (g q) h

failed-Writes : (bytes : Bytes) → Writes bytes (pure false)
failed-Writes bytes q = Wrote-nothing bytes (ok false) (Grows-refl q) (λ e. absurd (cc))

pump_then-Writes :
    (bytes : Bytes) (p : Pump) (next : Exec QuicTransport Bool)
    → Writes bytes next
    → Writes bytes (pump_then p next)
pump_then-Writes bytes p next w =
    Writes-bind bytes (pump_once p) (λ b. if b then next else pure false) (pump_once-Grows p) pumped
  where
    pumped : (b : Bool) → Writes bytes (if b then next else pure false)
    pumped true = w
    pumped false = failed-Writes bytes

after_send-Writes :
    (bytes : Bytes) (s : SendResult) (p : Pump) (next : Exec QuicTransport Bool)
    → Writes bytes next
    → Writes bytes (after_send s p next)
after_send-Writes bytes sent_ok p next w = w
after_send-Writes bytes blocked p next w = pump_then-Writes bytes p next w
after_send-Writes bytes send_failed p next w = failed-Writes bytes

write_round-Writes :
    (r : Round) (bytes : Bytes) (more : Bytes → Exec QuicTransport Bool)
    → ((rest : Bytes) → Writes rest (more rest))
    → Writes bytes (write_round r bytes more)
write_round-Writes r bytes more w = made r.made
  where
    made : (x : StreamWrite) → Writes bytes (write_round (record r { made = x }) bytes more)
    made window_closed = pump_then-Writes bytes r.pump (more bytes) (w bytes)
    made stream_refused =
        λ q. Wrote-nothing bytes (ok false) (close_with_error-Grows r.closing q) (λ e. absurd (cc))
    made congested = pump_then-Writes bytes r.pump (more bytes) (w bytes)
    made (stream_packet size taken) = λ q.
        let n = taken_count taken in
        Wrote-taken n (
          Writes-bind (drop n bytes) (send_packet size r.passage)
            (λ s. after_send s r.pump (more (drop n bytes))) (send_packet-Grows size r.passage)
            (λ s.
              after_send-Writes (drop n bytes) s r.pump (more (drop n bytes)) (w (drop n bytes)))
            (take_bytes n bytes q))

-- write.
pub write_stream-Wrote :
    (f : Flushed) (rs : List Round) (bytes : Bytes) (q : QuicTransport)
    → Wrote bytes q (write_stream f rs bytes q).0 (write_stream f rs bytes q).1
unfolding write_stream
write_stream-Wrote f rs [] q = Wrote-nothing [] (ok true) (flush_packets-Grows f q) (λ _. refl)
write_stream-Wrote f [] (b ∷ left) q =
    Wrote-nothing (b ∷ left) (err out_of_fuel) (Grows-refl q) (λ e. absurd (cc))
write_stream-Wrote f (r ∷ rs) (b ∷ left) q =
    Writes-bind (b ∷ left) (begin_packet r.passage)
      (λ _. write_round r (b ∷ left) (λ rest. write_stream f rs rest))
      (begin_packet-Grows r.passage)
      (λ _.
        write_round-Writes r (b ∷ left) (λ rest. write_stream f rs rest)
          (λ rest. write_stream-Wrote f rs rest))
      q

-- What send returns: the length of the bytes if all of them have been taken, and never less.
pub record Sent (bytes : Bytes) (q : QuicTransport) (r : Result (Option ℕ)) (q' : QuicTransport)
    : Type 0 where
  pub taken : Bytes
  pub untaken : Bytes
  pub is_prefix : taken ++ untaken ≡ bytes
  pub accepted_is : q'.accepted_bytes ≡ q.accepted_bytes ++ taken
  pub all_if_some : (n : ℕ) → r ≡ ok (some n) → (n ≡ length bytes) × (untaken ≡ [])

nothing-Sent :
    (bytes : Bytes) (q : QuicTransport) (r : Result (Option ℕ))
    → ((n : ℕ) → r ≡ ok (some n) → (n ≡ length bytes) × (bytes ≡ []))
    → Sent bytes q r q
nothing-Sent bytes q r h = record {
  taken = [];
  untaken = bytes;
  is_prefix = refl;
  accepted_is = sym (append-nil q.accepted_bytes);
  all_if_some = h;
}

nothing_sent :
    (bytes : Bytes) (n : ℕ) → (length bytes == 0) ≡ true → n ≡ 0 → (n ≡ length bytes) × (bytes ≡ [])
nothing_sent [] n z e = (e, refl)
nothing_sent (b ∷ bs) n z e = absurd (ground arith)

Wrote-Sent :
    (bytes : Bytes) (q : QuicTransport) (w : Result Bool × QuicTransport)
    → Wrote bytes (retain bytes q) w.0 w.1
    → (let (r, q') = continue w (λ b. pure (all_or_none (length bytes) b)) in Sent bytes q r q')
Wrote-Sent bytes q (ok true, s) w = record {
  taken = w.taken;
  untaken = w.untaken;
  is_prefix = w.is_prefix;
  accepted_is = w.accepted_is;
  all_if_some = λ n e. (cc, w.all_if_true refl);
}
Wrote-Sent bytes q (ok false, s) w = record {
  taken = w.taken;
  untaken = w.untaken;
  is_prefix = w.is_prefix;
  accepted_is = w.accepted_is;
  all_if_some = λ n e. absurd (cc);
}
Wrote-Sent bytes q (err x, s) w = record {
  taken = w.taken;
  untaken = w.untaken;
  is_prefix = w.is_prefix;
  accepted_is = w.accepted_is;
  all_if_some = λ n e. absurd (cc);
}

-- Whatever the rounds meet, send has had ngtcp2 take a prefix of its bytes behind those taken
-- before; if it returns a count, that is the length of the bytes, and all of them have been taken.
pub quic_send-Sent :
    (f : Flushed) (rs : List Round) (bytes : Bytes) (q : QuicTransport)
    → Sent bytes q (quic_send f rs bytes q).0 (quic_send f rs bytes q).1
unfolding quic_send
quic_send-Sent f rs bytes q =
    let Q : Result (Option ℕ) × QuicTransport → Type 0 = λ x. Sent bytes q x.0 x.1 in
    if_split Q q.closed_ _ _ (λ _. nothing-Sent bytes q (ok none) (λ n e. absurd (cc)))
      (λ _.
        if_split Q (stream_missing q.stream_id) _ _
          (λ _. nothing-Sent bytes q (err no_stream) (λ n e. absurd (cc)))
          (λ _.
            if_split Q (length bytes == 0) _ _
              (λ z. nothing-Sent bytes q (ok (some 0)) (λ n e. nothing_sent bytes n z (cc)))
              (λ _.
                Wrote-Sent bytes q (write_stream f rs bytes (retain bytes q))
                  (write_stream-Wrote f rs bytes (retain bytes q)))))
