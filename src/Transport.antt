-- ===== src/Transport.antt =====
-- src/transport/transport.hpp. What a peer and a kernel decide is a script: the results that the
-- next calls of Transport::recv and Transport::send have, in order. A script that is used up
-- stands for a closed connection.
pub mod Exact
pub mod Errnos
use embr.Base.{
  List, Result, [], closed, drop, err, if◌then◌else◌, io_error, leb, length, ok, suc, take, zero, ℕ,
  ◌++◌, ◌-◌, ◌∷◌,
}
use embr.Protocol.{Bytes}

-- One result of Transport::recv: `arrived bs` has `bs` ready, of which a call takes no more than
-- it asked for; `arrived []` is the result 0 of a closed connection; `again` is a result on
-- which the loop that meets it tries again, and `failed e` one on which it throws. Which errno is
-- which differs: Transport/Errnos.antt says it of recv_exact and send_exact, Tcp/Errnos.antt of
-- recv_file and send_file.
pub data Arrival : Type 0 where
  arrived : Bytes → Arrival
  again : Arrival
  failed : ℕ → Arrival

-- One result of Transport::send: `accepted k` takes at most k bytes of those offered.
pub data Acceptance : Type 0 where
  accepted : ℕ → Acceptance
  again : Acceptance
  failed : ℕ → Acceptance

-- The loop of recv_exact, with `got` received and `need` bytes to come. It returns the script that
-- is left; bytes beyond the need stay in it.
unfoldable pub recv_loop : Bytes → ℕ → List Arrival → Result Bytes × List Arrival
recv_loop got zero es = (ok got, es)
recv_loop got (suc n) [] = (err closed, [])
recv_loop got (suc n) (arrived [] ∷ es) = (err closed, es)
recv_loop got (suc n) (arrived (b ∷ bs) ∷ es) =
    let rest = recv_loop (got ++ (b ∷ bs)) (n - length bs) es in
    if leb (length bs) n
    then rest
    else (ok (got ++ take (suc n) (b ∷ bs)), arrived (drop (suc n) (b ∷ bs)) ∷ es)
recv_loop got (suc n) (Arrival.again ∷ es) = recv_loop got (suc n) es
recv_loop got (suc n) (Arrival.failed e ∷ es) = (err (io_error e), es)

pub record Sending : Type 0 where
  pub result : Result (Unit {0})
  pub sent : Bytes
  pub left : List Acceptance

-- The loop of send_exact: the bytes that went out, and the script that is left.
unfoldable pub send_loop : Bytes → List Acceptance → Sending
send_loop [] es = record { result = ok tt; sent = []; left = es }
send_loop (b ∷ bs) [] = record { result = err closed; sent = []; left = [] }
send_loop (b ∷ bs) (accepted zero ∷ es) = record { result = err closed; sent = []; left = es }
send_loop (b ∷ bs) (accepted (suc k) ∷ es) =
    let s = send_loop (drop k bs) es in record s { sent = b ∷ (take k bs ++ s.sent) }
send_loop (b ∷ bs) (Acceptance.again ∷ es) = send_loop (b ∷ bs) es
send_loop (b ∷ bs) (Acceptance.failed e ∷ es) = record {
  result = err (io_error e);
  sent = [];
  left = es;
}
