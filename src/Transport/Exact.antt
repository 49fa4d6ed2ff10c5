-- ===== src/Transport/Exact.antt =====
-- The exact-I/O loops of src/transport/transport.hpp deliver a byte stream whole and in order,
-- however the transport splits it.
use embr.Base.{
  Bool-cases, List, [], ap, append-nil, append_assoc, arith, closed, drop, drop-append_ge,
  drop-append_le, err, inl, inr, leb, leb→le, length, length-append, length-drop, le→leb, ok, refl,
  suc, sym, take, take-append-drop, take-append_ge, take-append_le, zero, ℕ, ◌++◌, ◌+◌, ◌-◌, ◌<◌,
  ◌∙◌, ◌∷◌, ◌≡◌, ◌≤◌,
}
use embr.Protocol.{Bytes}
use embr.Transport.{Acceptance, Arrival, Sending, accepted, arrived, recv_loop, send_loop}

-- The bytes that a script delivers, in order.
abbrev pub stream : List Arrival → Bytes
stream [] = []
stream (arrived bs ∷ es) = bs ++ stream es
stream (Arrival.again ∷ es) = stream es
stream (Arrival.failed e ∷ es) = stream es

-- No call fails or reports a close before the script ends.
abbrev pub IsOpen : List Arrival → Type 0
IsOpen [] = Unit {0}
IsOpen (arrived [] ∷ es) = ⊥
IsOpen (arrived (b ∷ bs) ∷ es) = IsOpen es
IsOpen (Arrival.again ∷ es) = IsOpen es
IsOpen (Arrival.failed e ∷ es) = ⊥

-- What is received, in terms of the stream alone.
pub record Received (got : Bytes) (n : ℕ) (es : List Arrival) : Type 0 where
  pub rest : List Arrival
  pub runs : recv_loop got n es ≡ (ok (got ++ take n (stream es)), rest)
  pub behind : stream rest ≡ drop n (stream es)
  pub open_rest : IsOpen rest

IsOpen-arrived :
    (bs : Bytes) (es : List Arrival) → 0 < length bs → IsOpen es → IsOpen (arrived bs ∷ es)
IsOpen-arrived [] es h o = absurd (omega arith)
IsOpen-arrived (b ∷ bs) es h o = o

-- On an open script that delivers at least n bytes, recv_exact returns the next n bytes of its
-- stream and leaves the others.
pub recv_loop-Received :
    (es : List Arrival) (got : Bytes) (n : ℕ)
    → IsOpen es
    → n ≤ length (stream es)
    → Received got n es
unfolding recv_loop
recv_loop-Received es got zero o h = record {
  rest = es;
  runs = ap (λ (b : Bytes). (ok b, es)) (sym (append-nil got));
  behind = refl;
  open_rest = o;
}
recv_loop-Received [] got (suc n) o h = absurd (omega arith)
recv_loop-Received (arrived [] ∷ es) got (suc n) o h = absurd o
recv_loop-Received (arrived (b ∷ bs) ∷ es) got (suc n) o h =
    let more = recv_loop-Received es (got ++ (b ∷ bs)) (n - length bs) o in
    elim (Bool-cases (leb (length bs) n)) [
      | inl all ↦
          let r = more (omega (arith, length-append bs (stream es), leb→le (length bs) n all)) in
          record {
            rest = r.rest;
            runs = rw all (
                r.runs
                ∙ ap (λ (x : Bytes). (ok x, r.rest))
                    (append_assoc got (b ∷ bs) (take (n - length bs) (stream es))
                      ∙ ap (λ (x : Bytes). got ++ (b ∷ x))
                          (sym (take-append_ge n bs (stream es) (leb→le (length bs) n all)))));
            behind = r.behind ∙ sym (drop-append_ge n bs (stream es) (leb→le (length bs) n all));
            open_rest = r.open_rest;
          }
      | inr some_left ↦
          let few : n < length bs = ground arith in
          record {
            rest = arrived (drop n bs) ∷ es;
            runs = rw some_left (
                ap (λ (x : Bytes). (ok (got ++ (b ∷ x)), arrived (drop n bs) ∷ es))
                  (sym (take-append_le n bs (stream es) (omega arith))));
            behind = sym (drop-append_le n bs (stream es) (omega arith));
            open_rest = IsOpen-arrived (drop n bs) es (omega (arith, length-drop n bs, few)) o;
          }
    ]
recv_loop-Received (Arrival.again ∷ es) got (suc n) o h =
    let r = recv_loop-Received es got (suc n) o h in
    record { rest = r.rest; runs = r.runs; behind = r.behind; open_rest = r.open_rest }
recv_loop-Received (Arrival.failed e ∷ es) got (suc n) o h = absurd o

-- On an open script that delivers fewer bytes than are asked for, recv_exact throws the error of a
-- closed connection.
pub recv_loop-closed :
    (es : List Arrival) (got : Bytes) (n : ℕ)
    → IsOpen es
    → length (stream es) < n
    → (recv_loop got n es).0 ≡ err closed
unfolding recv_loop
recv_loop-closed es got zero o h = absurd (omega arith)
recv_loop-closed [] got (suc n) o h = refl
recv_loop-closed (arrived [] ∷ es) got (suc n) o h = absurd o
recv_loop-closed (arrived (b ∷ bs) ∷ es) got (suc n) o h =
    let short : length bs + length (stream es) < n = omega (arith, length-append bs (stream es)) in
    rw (le→leb (length bs) n (omega arith))
      (recv_loop-closed es (got ++ (b ∷ bs)) (n - length bs) o (omega arith))
recv_loop-closed (Arrival.again ∷ es) got (suc n) o h = recv_loop-closed es got (suc n) o h
recv_loop-closed (Arrival.failed e ∷ es) got (suc n) o h = absurd o

-- Every call of a script makes progress or is to be retried.
abbrev pub IsReady : List Acceptance → Type 0
IsReady [] = Unit {0}
IsReady (accepted k ∷ es) = (0 < k) × IsReady es
IsReady (Acceptance.again ∷ es) = IsReady es
IsReady (Acceptance.failed e ∷ es) = ⊥

-- What is sent is a prefix of what was to be sent, and all of it if the call returned.
pub record IsSent (bs : Bytes) (s : Sending) : Type 0 where
  pub unsent : Bytes
  pub is_prefix : s.sent ++ unsent ≡ bs
  pub all_if_ok : s.result ≡ ok tt → unsent ≡ []

-- Whatever a connection does, send_exact sends a prefix of its bytes, and all of them if it
-- returns.
pub send_loop-IsSent : (es : List Acceptance) (bs : Bytes) → IsSent bs (send_loop bs es)
unfolding send_loop
send_loop-IsSent es [] = record { unsent = []; is_prefix = refl; all_if_ok = λ _. refl }
send_loop-IsSent [] (b ∷ bs) = record {
  unsent = b ∷ bs;
  is_prefix = refl;
  all_if_ok = λ e. absurd (cc);
}
send_loop-IsSent (accepted zero ∷ es) (b ∷ bs) = record {
  unsent = b ∷ bs;
  is_prefix = refl;
  all_if_ok = λ e. absurd (cc);
}
send_loop-IsSent (accepted (suc k) ∷ es) (b ∷ bs) =
    let s = send_loop-IsSent es (drop k bs) in
    record {
      unsent = s.unsent;
      is_prefix =
          ap (λ (x : Bytes). b ∷ x)
            (append_assoc (take k bs) _ s.unsent
              ∙ ap (λ (x : Bytes). take k bs ++ x) s.is_prefix
              ∙ take-append-drop k bs);
      all_if_ok = s.all_if_ok;
    }
send_loop-IsSent (Acceptance.again ∷ es) (b ∷ bs) =
    let s = send_loop-IsSent es (b ∷ bs) in
    record { unsent = s.unsent; is_prefix = s.is_prefix; all_if_ok = s.all_if_ok }
send_loop-IsSent (Acceptance.failed e ∷ es) (b ∷ bs) = record {
  unsent = b ∷ bs;
  is_prefix = refl;
  all_if_ok = λ e. absurd (cc);
}

-- How many calls of the script take bytes.
abbrev pub rounds : List Acceptance → ℕ
rounds [] = 0
rounds (accepted k ∷ es) = suc (rounds es)
rounds (Acceptance.again ∷ es) = rounds es
rounds (Acceptance.failed e ∷ es) = rounds es

-- The whole of `bs` went out, and the script can take as many more bytes as it could less those.
pub record SentAll (bs : Bytes) (es : List Acceptance) : Type 0 where
  pub rest : List Acceptance
  pub runs : send_loop bs es ≡ record { result = ok tt; sent = bs; left = rest }
  pub ready_rest : IsReady rest
  pub enough_rest : rounds es ≤ rounds rest + length bs

-- On a script whose calls make progress and take as many times as there are bytes, send_exact
-- returns with all bytes sent, and uses up at most one call for each byte.
pub send_loop-SentAll :
    (es : List Acceptance) (bs : Bytes) → IsReady es → length bs ≤ rounds es → SentAll bs es
unfolding send_loop
send_loop-SentAll es [] o h = record {
  rest = es;
  runs = refl;
  ready_rest = o;
  enough_rest = omega arith;
}
send_loop-SentAll [] (b ∷ bs) o h = absurd (omega arith)
send_loop-SentAll (accepted zero ∷ es) (b ∷ bs) o h = absurd (omega arith)
send_loop-SentAll (accepted (suc k) ∷ es) (b ∷ bs) o h =
    let s = send_loop-SentAll es (drop k bs) o.1 (omega (arith, length-drop k bs)) in
    record {
      rest = s.rest;
      runs = rw s.runs (
          ap (λ (x : Bytes). record { result = ok tt; sent = b ∷ x; left = s.rest })
            (take-append-drop k bs));
      ready_rest = s.ready_rest;
      enough_rest = omega (arith, s.enough_rest, length-drop k bs);
    }
send_loop-SentAll (Acceptance.again ∷ es) (b ∷ bs) o h =
    let s = send_loop-SentAll es (b ∷ bs) o h in
    record { rest = s.rest; runs = s.runs; ready_rest = s.ready_rest; enough_rest = s.enough_rest }
send_loop-SentAll (Acceptance.failed e ∷ es) (b ∷ bs) o h = absurd o
