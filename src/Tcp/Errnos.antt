-- ===== src/Tcp/Errnos.antt =====
-- What src/transport/tcp_transport.cpp makes of errno, against the loops of
-- src/transport/transport.hpp: recv_file and send_file try again on EINTR and throw on EAGAIN,
-- recv_exact and send_exact the other way round.
use embr.Base.{
  Bool-cases, List, Result, [], ap, arith, drop, false, if◌then◌else◌, inl, inr, leb, length, map,
  refl, suc, sym, take, zero, ℕ, ◌++◌, ◌-◌, ◌==◌, ◌∙◌, ◌∷◌, ◌≡◌, ◌≢◌, ◌≤◌,
}
use embr.Errno.{errno_again, errno_intr}
use embr.Protocol.{Bytes}
use embr.Tcp.{Splicing, sendfile_loop, splice_loop}
use embr.Tcp.Moves.{as_received, recv_loop-splice_loop, sendfile_loop-eq-send_loop}
use embr.Transport.{Acceptance, Arrival, Sending, accepted, arrived, recv_loop, send_loop}
use embr.Transport.Errnos.{
  CallResult, HasNoEagain, call_errno, call_result, seen_by_recv_exact, seen_by_send_exact,
  without_eintr,
}

abbrev pub seen_by_recv_file : CallResult Bytes → Arrival
seen_by_recv_file (call_result bs) = arrived bs
seen_by_recv_file (call_errno e) = if e == errno_intr then Arrival.again else Arrival.failed e

abbrev pub seen_by_send_file : CallResult ℕ → Acceptance
seen_by_send_file (call_result k) = accepted k
seen_by_send_file (call_errno e) = if e == errno_intr then Acceptance.again else Acceptance.failed e

pub lasting_arrivals : List Arrival → List Arrival
lasting_arrivals [] = []
lasting_arrivals (arrived bs ∷ es) = arrived bs ∷ lasting_arrivals es
lasting_arrivals (Arrival.again ∷ es) = lasting_arrivals es
lasting_arrivals (Arrival.failed e ∷ es) = Arrival.failed e ∷ lasting_arrivals es

pub lasting_acceptances : List Acceptance → List Acceptance
lasting_acceptances [] = []
lasting_acceptances (accepted k ∷ es) = accepted k ∷ lasting_acceptances es
lasting_acceptances (Acceptance.again ∷ es) = lasting_acceptances es
lasting_acceptances (Acceptance.failed e ∷ es) = Acceptance.failed e ∷ lasting_acceptances es

recv_loop-lasting :
    (es : List Arrival) (got : Bytes) (n : ℕ)
    → recv_loop got n (lasting_arrivals es)
      ≡ ((recv_loop got n es).0, lasting_arrivals (recv_loop got n es).1)
unfolding recv_loop lasting_arrivals
recv_loop-lasting es got zero = refl
recv_loop-lasting [] got (suc n) = refl
recv_loop-lasting (arrived [] ∷ es) got (suc n) = refl
recv_loop-lasting (arrived (b ∷ bs) ∷ es) got (suc n) =
    let ih = recv_loop-lasting es (got ++ (b ∷ bs)) (n - length bs) in
    elim (Bool-cases (leb (length bs) n)) [ inl short ↦ rw short ih | inr long ↦ rw long ]
recv_loop-lasting (Arrival.again ∷ es) got (suc n) = recv_loop-lasting es got (suc n)
recv_loop-lasting (Arrival.failed e ∷ es) got (suc n) = refl

send_loop-lasting :
    (es : List Acceptance) (bs : Bytes)
    → send_loop bs (lasting_acceptances es)
      ≡ record (send_loop bs es) { left = lasting_acceptances (send_loop bs es).left }
unfolding send_loop lasting_acceptances
send_loop-lasting es [] = refl
send_loop-lasting [] (b ∷ bs) = refl
send_loop-lasting (accepted zero ∷ es) (b ∷ bs) = refl
send_loop-lasting (accepted (suc k) ∷ es) (b ∷ bs) =
    ap (λ (s : Sending). record s { sent = b ∷ (take k bs ++ s.sent) })
      (send_loop-lasting es (drop k bs))
send_loop-lasting (Acceptance.again ∷ es) (b ∷ bs) = send_loop-lasting es (b ∷ bs)
send_loop-lasting (Acceptance.failed e ∷ es) (b ∷ bs) = refl

other_errno : (e : ℕ) → e ≢ errno_again → (e == errno_again) ≡ false
other_errno e other = ground arith

seen_recv :
    (rs : List (CallResult Bytes))
    → HasNoEagain rs
    → map seen_by_recv_exact (without_eintr rs) ≡ lasting_arrivals (map seen_by_recv_file rs)
unfolding without_eintr lasting_arrivals
seen_recv [] h = refl
seen_recv (call_result bs ∷ rs) h = ap (λ (es : List Arrival). arrived bs ∷ es) (seen_recv rs h)
seen_recv (call_errno e ∷ rs) (other, h) = elim (Bool-cases (e == errno_intr)) [
  | inl signalled ↦ rw signalled (seen_recv rs h)
  | inr fails ↦
      rw (fails, other_errno e other)
        (ap (λ (es : List Arrival). Arrival.failed e ∷ es) (seen_recv rs h))
]

seen_send :
    (rs : List (CallResult ℕ))
    → HasNoEagain rs
    → map seen_by_send_exact (without_eintr rs) ≡ lasting_acceptances (map seen_by_send_file rs)
unfolding without_eintr lasting_acceptances
seen_send [] h = refl
seen_send (call_result k ∷ rs) h = ap (λ (es : List Acceptance). accepted k ∷ es) (seen_send rs h)
seen_send (call_errno e ∷ rs) (other, h) = elim (Bool-cases (e == errno_intr)) [
  | inl signalled ↦ rw signalled (seen_send rs h)
  | inr fails ↦
      rw (fails, other_errno e other)
        (ap (λ (es : List Acceptance). Acceptance.failed e ∷ es) (seen_send rs h))
]

as_received-rest :
    (s : Splicing)
    → ◌≡◌ {A = Result Bytes × List Arrival}
        ((as_received [] s).0, lasting_arrivals (as_received [] s).1)
        ((as_received [] s).0, lasting_arrivals s.rest)
as_received-rest s = ground arith

-- On any results of the socket without EAGAIN, on which recv_exact tries again and recv_file
-- throws: recv_file, which tries again on EINTR, moves the bytes that recv_exact, which throws on
-- EINTR, would return on the same results without the interrupted calls, fails when it would, and
-- leaves the same results but for the interrupted calls.
pub splice_loop-eq-recv_exact :
    (rs : List (CallResult Bytes)) (n : ℕ)
    → HasNoEagain rs
    → recv_loop [] n (map seen_by_recv_exact (without_eintr rs)) ≡ (
      (as_received [] (splice_loop n (map seen_by_recv_file rs))).0,
      lasting_arrivals (splice_loop n (map seen_by_recv_file rs)).rest,
    )
splice_loop-eq-recv_exact rs n h =
    let es = map seen_by_recv_file rs in
    ap (recv_loop [] n) (seen_recv rs h)
    ∙ recv_loop-lasting es [] n
    ∙ ap (λ (r : Result Bytes × List Arrival). (r.0, lasting_arrivals r.1))
        (recv_loop-splice_loop es n [])
    ∙ as_received-rest (splice_loop n es)

-- On any results of the socket without EAGAIN, on which send_exact tries again and send_file
-- throws: send_file of a range inside the file, which tries again on EINTR, sends the same bytes
-- and fails in the same way as send_exact, which throws on EINTR, of the bytes of that range on
-- the same results without the interrupted calls, and leaves the same results but for the
-- interrupted calls.
pub sendfile_loop-eq-send_exact :
    (rs : List (CallResult ℕ)) (left : Bytes) (n : ℕ)
    → n ≤ length left
    → HasNoEagain rs
    → send_loop (take n left) (map seen_by_send_exact (without_eintr rs))
      ≡ record (sendfile_loop left n (map seen_by_send_file rs)) {
        left = lasting_acceptances (sendfile_loop left n (map seen_by_send_file rs)).left;
      }
sendfile_loop-eq-send_exact rs left n inside h =
    let es = map seen_by_send_file rs in
    ap (send_loop (take n left)) (seen_send rs h)
    ∙ send_loop-lasting es (take n left)
    ∙ ap (λ (s : Sending). record s { left = lasting_acceptances s.left })
        (sym (sendfile_loop-eq-send_loop es left n inside))
