-- ===== src/Quic/Ending.antt =====
-- How src/transport/quic_transport.cpp ends its side of the stream, and the connection.
use embr.Base.{
  Bool, List, Option, Result, [], ap, arith, err, false, if_split, if◌then◌else◌, none, not, ok,
  one_if, out_of_fuel, refl, some, subst, true, ℕ, ◌+◌, ◌||◌, ◌∷◌, ◌≡◌, ◌≤◌,
}
use embr.Egress.{Flushed}
use embr.Exec.{Exec, bind-eq-ok, continue, pure, ◌>>=◌, ◌>>◌}
use embr.Quic.{QuicTransport}
use embr.Quic.Cycle.{
  begin_packet-Grows, close_with_error-Grows, flush_packets-Grows, pump_once-Grows,
  send_packet-Grows,
}
use embr.Quic.Grows.{
  Always, Always-bind, Always-choose, Always-if, Grows, Grows-refl, Grows-trans, SameStream-Grows,
}
use embr.Quic.Packets.{
  SendResult, begin_packet, blocked, flush_packets, send_failed, send_packet, sent_ok,
}
use embr.Quic.Pump.{Closing, Pump, close_gracefully, linger, none_kept, pump_once, send_close}
use embr.Quic.Stream.{
  Round, StreamWrite, congested, fin_loop, fin_round, fin_sent_if, pump_then, send_fin,
  stream_missing, stream_packet, stream_refused, window_closed,
}

-- An action that succeeds only with the FIN sent.
abbrev EndsSent : Exec QuicTransport Bool → Type 0
EndsSent m = (q q' : QuicTransport) → m q ≡ (ok true, q') → q'.fin_sent ≡ true

EndsSent-bind :
    {A : Type 0} (m : Exec QuicTransport A) (f : A → Exec QuicTransport Bool)
    → ((a : A) → EndsSent (f a))
    → EndsSent (m >>= f)
EndsSent-bind m f h q q' e = let (a, u, d, rest) = bind-eq-ok m f q e in h a u q' rest

false-EndsSent : EndsSent (pure false)
false-EndsSent q q' e = absurd (cc)

pump_then-EndsSent :
    (p : Pump) (next : Exec QuicTransport Bool) → EndsSent next → EndsSent (pump_then p next)
pump_then-EndsSent p next g =
    EndsSent-bind (pump_once p) (λ b. if b then next else pure false)
      (λ b. if_split EndsSent b next (pure false) (λ _. g) (λ _. false-EndsSent))

fin_sent_if-EndsSent :
    (s : SendResult) (taken : Option ℕ) (f : Flushed) (more : Exec QuicTransport Bool)
    → EndsSent more
    → EndsSent (fin_sent_if s taken f more)
unfolding flush_packets
fin_sent_if-EndsSent sent_ok none f more g q q' e = g q q' e
fin_sent_if-EndsSent sent_ok (some n) f more g q q' e = ground arith
fin_sent_if-EndsSent blocked none f more g q q' e = g q q' e
fin_sent_if-EndsSent blocked (some n) f more g q q' e = ground arith
fin_sent_if-EndsSent send_failed taken f more g q q' e = absurd (cc)

fin_round-EndsSent :
    (r : Round) (f : Flushed) (more : Exec QuicTransport Bool)
    → EndsSent more
    → EndsSent (fin_round r f more)
fin_round-EndsSent r f more g = made r.made
  where
    made : (x : StreamWrite) → EndsSent (fin_round (record r { made = x }) f more)
    made window_closed = pump_then-EndsSent r.pump more g
    made stream_refused = λ q q' e. absurd (cc)
    made congested = pump_then-EndsSent r.pump more g
    made (stream_packet size taken) =
        EndsSent-bind (send_packet size r.passage) (λ s. fin_sent_if s taken f more)
          (λ s. fin_sent_if-EndsSent s taken f more g)

fin_loop-EndsSent : (f : Flushed) (rs : List Round) → EndsSent (fin_loop f rs)
unfolding fin_loop
fin_loop-EndsSent f [] q q' e = absurd (ground arith)
fin_loop-EndsSent f (r ∷ rs) q q' e =
    if_split (λ (x : Result Bool × QuicTransport). x ≡ (ok true, q') → q'.fin_sent ≡ true) q.closed_
      (ok false, q) ((begin_packet r.passage >> fin_round r f (fin_loop f rs)) q)
      (λ _ d. absurd (cc))
      (λ _ d.
        EndsSent-bind (begin_packet r.passage) (λ _. fin_round r f (fin_loop f rs))
          (λ _. fin_round-EndsSent r f (fin_loop f rs) (fin_loop-EndsSent f rs)) q q' d)
      e

pump_then-Grows :
    (p : Pump) (next : Exec QuicTransport Bool) → Always next → Always (pump_then p next)
pump_then-Grows p next g =
    Always-bind (pump_once p) (λ b. if b then next else pure false) (pump_once-Grows p)
      (Always-choose next (pure false) g Grows-refl)

fin_sent_if-Grows :
    (s : SendResult) (taken : Option ℕ) (f : Flushed) (more : Exec QuicTransport Bool)
    → Always more
    → Always (fin_sent_if s taken f more)
fin_sent_if-Grows sent_ok none f more g q = g q
fin_sent_if-Grows sent_ok (some n) f more g q =
    Grows-trans (SameStream-Grows (ground arith))
      (flush_packets-Grows f (record q { fin_sent = true }))
fin_sent_if-Grows blocked none f more g q = g q
fin_sent_if-Grows blocked (some n) f more g q =
    Grows-trans (SameStream-Grows (ground arith))
      (flush_packets-Grows f (record q { fin_sent = true }))
fin_sent_if-Grows send_failed taken f more g q = Grows-refl q

fin_round-Grows :
    (r : Round) (f : Flushed) (more : Exec QuicTransport Bool)
    → Always more
    → Always (fin_round r f more)
fin_round-Grows r f more g = made r.made
  where
    made : (x : StreamWrite) → Always (fin_round (record r { made = x }) f more)
    made window_closed = pump_then-Grows r.pump more g
    made stream_refused = close_with_error-Grows r.closing
    made congested = pump_then-Grows r.pump more g
    made (stream_packet size taken) =
        Always-bind (send_packet size r.passage) (λ s. fin_sent_if s taken f more)
          (send_packet-Grows size r.passage) (λ s. fin_sent_if-Grows s taken f more g)

fin_loop-Grows : (f : Flushed) (rs : List Round) → Always (fin_loop f rs)
unfolding fin_loop
fin_loop-Grows f [] q =
    Always-if q.closed_ (λ s. (ok false, s)) (λ s. (err out_of_fuel, s)) Grows-refl Grows-refl q
fin_loop-Grows f (r ∷ rs) q =
    Always-if q.closed_ (λ s. (ok false, s))
      (begin_packet r.passage >> fin_round r f (fin_loop f rs)) Grows-refl
      (Always-bind (begin_packet r.passage) (λ _. fin_round r f (fin_loop f rs))
        (begin_packet-Grows r.passage)
        (λ _. fin_round-Grows r f (fin_loop f rs) (fin_loop-Grows f rs)))
      q

-- A stream that is there and whose FIN has been sent.
abbrev IsEnded : QuicTransport → Type 0
IsEnded q = (stream_missing q.stream_id ≡ false) × (q.fin_sent ≡ true)

send_fin-IsEnded :
    (f : Flushed) (rs : List Round) (q q' : QuicTransport)
    → send_fin f rs q ≡ (ok true, q')
    → IsEnded q'
unfolding send_fin
send_fin-IsEnded f rs q q' =
    let P : Result Bool × QuicTransport → Type 0 = λ x. x ≡ (ok true, q') → IsEnded q' in
    if_split P (stream_missing q.stream_id) (ok false, q) _ (λ _ d. absurd (cc))
      (λ there.
        if_split P q.fin_sent (ok true, q) (fin_loop f rs q)
          (λ fin d.
            let e = ap (λ (x : Result Bool × QuicTransport). x.1) d in subst IsEnded e (there, fin))
          (λ _ d.
            let e = ap (λ (x : Result Bool × QuicTransport). x.1) d in
            (
              subst (λ (s : QuicTransport). stream_missing s.stream_id ≡ false) e
                  ((fin_loop-Grows f rs q).stream_stays there),
              fin_loop-EndsSent f rs q q' d,
            )))

-- After send_fin has succeeded, a further call succeeds and changes nothing, whatever it meets.
pub send_fin_again :
    (f f' : Flushed) (rs rs' : List Round) (q q' : QuicTransport)
    → send_fin f rs q ≡ (ok true, q')
    → send_fin f' rs' q' ≡ (ok true, q')
unfolding send_fin
send_fin_again f f' rs rs' q q' e =
    let (there, fin) = send_fin-IsEnded f rs q q' e in
    if_split (λ x. x ≡ (ok true, q')) (stream_missing q'.stream_id) _ _ (λ missing. absurd (cc))
      (λ _. if_split (λ x. x ≡ (ok true, q')) q'.fin_sent _ _ (λ _. refl) (λ unsent. absurd (cc)))

linger-Grows : (ps : List Pump) → Always (linger ps)
unfolding linger
linger-Grows [] q = Grows-refl q
linger-Grows (p ∷ ps) q =
    let next : Bool → Exec QuicTransport (Unit {0}) = λ b. if b then linger ps else pure tt in
    Always-if (none_kept q.unacked || q.closed_) (λ s. (ok tt, s)) (pump_once p >>= next) Grows-refl
      (Always-bind (pump_once p) next (pump_once-Grows p)
        (Always-choose (linger ps) (pure tt) (linger-Grows ps) Grows-refl))
      q

-- The connection is closed, and no more than one CLOSE has been sent for that.
pub record IsClosed (q : QuicTransport) (q' : QuicTransport) : Type 0 where
  pub is_closed : q'.closed_ ≡ true
  pub one_close : q'.closes ≤ q.closes + one_if (not q.closed_)

lingered-IsClosed :
    (c : Closing) (q q' : QuicTransport) (r : Result (Unit {0}) × QuicTransport)
    → Grows q r.1
    → continue r (λ _ s. (ok tt, if s.closed_ then s else send_close c s)) ≡ (ok tt, q')
    → IsClosed q q'
lingered-IsClosed c q q' (err x, s) g e = absurd (cc)
lingered-IsClosed c q q' (ok _, s) g e =
    subst (IsClosed q) (ap (λ (x : Result (Unit {0}) × QuicTransport). x.1) e) (
      if_split (IsClosed q) s.closed_ s (send_close c s)
        (λ over. record { is_closed = over; one_close = ground (arith, g.closes_once) })
        (λ open_yet. record { is_closed = refl; one_close = ground (arith, g.closes_once) }))

-- A close without an error that returns leaves the connection closed, with at most one
-- CONNECTION_CLOSE more than before, and none more if it was closed before.
pub close_gracefully-IsClosed :
    (c : Closing) (ps : List Pump) (q q' : QuicTransport)
    → close_gracefully c ps q ≡ (ok tt, q')
    → IsClosed q q'
unfolding close_gracefully
close_gracefully-IsClosed c ps q q' =
    if_split (λ x. x ≡ (ok tt, q') → IsClosed q q') (q.closed_ || c.in_period)
      (ok tt, record q { closed_ = true }) _
      (λ _ e.
        subst (IsClosed q) (ap (λ (x : Result (Unit {0}) × QuicTransport). x.1) e)
          (record { is_closed = refl; one_close = omega arith }))
      (λ _ e. lingered-IsClosed c q q' (linger ps q) (linger-Grows ps q) e)
