-- ===== src/Quic/Receive.antt =====
-- recv and recv_file of src/transport/quic_transport.cpp return the bytes of the stream in order.
use embr.Base.{
  Bool, List, Option, Result, [], ap, arith, err, false, if◌then◌else◌, length, length-take, none,
  ok, out_of_fuel, refl, some, suc, sym, take, take-append-drop, true, zero, ℕ, ◌++◌, ◌<◌, ◌∙◌, ◌∷◌,
  ◌≡◌, ◌≤◌,
}
use embr.Exec.{continue, pure, ◌>>=◌}
use embr.Protocol.{Bytes}
use embr.Quic.{Dest, QuicTransport}
use embr.Quic.Cycle.{pump_once-Grows}
use embr.Quic.Grows.{Always, Always-bind, Always-choose, Always-if, Grows, Grows-refl, len_of}
use embr.Quic.Pump.{Pump, pump_once}
use embr.Quic.Stream.{landed_in, may_wait, quic_recv, recv_wait, take_received, taken_from}

recv_wait-Grows : (ps : List Pump) → Always (recv_wait ps)
unfolding recv_wait
recv_wait-Grows [] q =
    Always-if (may_wait q) (λ s. (err out_of_fuel, s)) (λ s. (ok tt, s)) Grows-refl Grows-refl q
recv_wait-Grows (p ∷ ps) q =
    Always-if (may_wait q) (pump_once p >>= λ b. if b then recv_wait ps else pure tt)
      (λ s. (ok tt, s))
      (Always-bind (pump_once p) (λ b. if b then recv_wait ps else pure tt) (pump_once-Grows p)
        (Always-choose (recv_wait ps) (pure tt) (recv_wait-Grows ps) Grows-refl))
      Grows-refl q

abbrev pub returned_bytes : Result (Option Bytes) → Bytes
returned_bytes (ok (some bytes)) = bytes
returned_bytes _ = []

-- What a call returns and what it leaves are what was there and what has come meanwhile.
pub record InOrder (len : ℕ) (q : QuicTransport) (r : Result (Option Bytes)) (q' : QuicTransport)
    : Type 0 where
  pub more : Bytes
  pub delivered_is : q'.delivered ≡ q.delivered ++ more
  pub split : returned_bytes r ++ q'.recv_buf ≡ q.recv_buf ++ more
  pub at_most : length (returned_bytes r) ≤ len
  pub at_end : r ≡ ok (some []) → 0 < len → (q'.recv_buf ≡ []) × (q'.stream_fin_received ≡ true)
  pub none_left : r ≡ ok none → (q'.recv_buf ≡ []) × (q'.stream_fin_received ≡ false)

no_dest : (d : Option Dest) → len_of d ≡ none → landed_in d ≡ []
no_dest none h = refl
no_dest (some d) h = absurd (cc)

module _ (len : ℕ) (q s : QuicTransport) (g : Grows q s) (h : q.recv_dest ≡ none) where
  buf_grows : s.recv_buf ≡ q.recv_buf ++ g.more
  buf_grows =
      sym (ap (λ (x : Bytes). x ++ s.recv_buf) (no_dest s.recv_dest (g.dest_same ∙ ap len_of h)))
      ∙ g.waiting_is
      ∙ ap (λ (x : Bytes). (x ++ q.recv_buf) ++ g.more) (no_dest q.recv_dest (ap len_of h))

  nothing-InOrder :
      (r : Result (Option Bytes))
      → returned_bytes r ≡ []
      → (r ≡ ok (some []) → 0 < len → (s.recv_buf ≡ []) × (s.stream_fin_received ≡ true))
      → (r ≡ ok none → (s.recv_buf ≡ []) × (s.stream_fin_received ≡ false))
      → InOrder len q r s
  nothing-InOrder r e over gone = record {
    more = g.more;
    delivered_is = g.delivered_is;
    split = ap (λ (x : Bytes). x ++ s.recv_buf) e ∙ buf_grows;
    at_most = omega (arith, ap length e);
    at_end = over;
    none_left = gone;
  }

  ended-InOrder :
      s.recv_buf ≡ []
      → (b : Bool) → s.stream_fin_received ≡ b
      → InOrder len q (ok (if b then some [] else none)) s
  ended-InOrder e true fin =
      nothing-InOrder (ok (some [])) refl (λ _ _. (e, fin)) (λ same. absurd (cc))
  ended-InOrder e false unended =
      nothing-InOrder (ok none) refl (λ same _. absurd (cc)) (λ _. (e, unended))

  taken_from-InOrder :
      (buf : Bytes)
      → s.recv_buf ≡ buf
      → InOrder len q (taken_from buf len s).0 (taken_from buf len s).1
  taken_from-InOrder (b ∷ bs) e = record {
    more = g.more;
    delivered_is = g.delivered_is;
    split = take-append-drop len (b ∷ bs) ∙ sym e ∙ buf_grows;
    at_most = omega (arith, length-take len (b ∷ bs));
    at_end = λ same pos. absurd (taken_some len same pos);
    none_left = λ same. absurd (cc);
  }
    where
      taken_some : (n : ℕ) → ok (some (take n (b ∷ bs))) ≡ ok (some []) → 0 < n → ⊥
      taken_some zero same pos = omega arith
      taken_some (suc n) same pos = cc
  taken_from-InOrder [] e = ended-InOrder e s.stream_fin_received refl

waited-InOrder :
    (len : ℕ) (q : QuicTransport) (r : Result (Unit {0}) × QuicTransport)
    → Grows q r.1
    → q.recv_dest ≡ none
    → (let (a, s) = continue r (λ _. take_received len) in InOrder len q a s)
waited-InOrder len q (ok _, s) g h = taken_from-InOrder len q s g h s.recv_buf refl
waited-InOrder len q (err x, s) g h =
    nothing-InOrder len q s g h (err x) refl (λ same _. absurd (cc)) (λ same. absurd (cc))

-- Outside recv_file, whatever the pumps meet: the bytes that recv returns, at most as many as
-- asked for, followed by the buffered ones that it leaves, are the bytes that were buffered
-- followed by those delivered meanwhile; it reports a failure only when nothing is buffered, and,
-- asked for at least one byte, the end of the stream only when nothing is buffered and the FIN has
-- come.
pub quic_recv-InOrder :
    (ps : List Pump) (len : ℕ) (q : QuicTransport)
    → q.recv_dest ≡ none
    → InOrder len q (quic_recv ps len q).0 (quic_recv ps len q).1
unfolding quic_recv
quic_recv-InOrder ps len q h = waited-InOrder len q (recv_wait ps q) (recv_wait-Grows ps q) h
