-- ===== src/Wire/Frames.antt =====
-- Framing: what send_msg puts on the wire is what recv_msg takes off it.
use embr.Base.{
  Bool-cases, List, [], ap, append-nil, arith, get_or, if◌then◌else◌, inl, inr, leb, leb→le, length,
  length-append, length-take, ltb, lt→ltb, ok, refl, suc, sym, take, zero, ℕ, ◌%◌, ◌++◌, ◌+◌, ◌-◌,
  ◌∷◌, ◌≡◌, ◌≢◌, ◌≤◌,
}
use embr.Exec.{Ensures, Ensures-bind, Ensures-bind-lift, Ensures-if, Ensures-pure, pure}
use embr.Protocol.{Bytes, Message, MsgType, code, header_size, invalid, max_payload_size, of_code}
use embr.Transport.{Arrival, arrived, recv_loop}
use embr.Wire.{recv_msg, recv_payload, send_msg}
use embr.Wire.Header.{check_header, check_header-bounds, check_header-header, header}
use embr.World.{World, recv_exact, send_exact}
use embr.World.Stream.{
  Incoming, Ready, Sends, Sends-Ready, Sends-then, Takes, Takes-Incoming, Takes-bind, Takes-pure,
  recv_exact-Takes, send_exact-Sends,
}
use embr.World.Talk.{Peer, Talks, Talks-Sends, Talks-Takes}

-- [version:u8][type:u8][payload_len:u32][payload]
unfoldable pub frame : Message → Bytes
frame msg = (header msg) ++ msg.payload

-- The types that a peer may send: all but the sentinel of zero-initialisation.
abbrev pub IsSendable : Message → Type 0
IsSendable msg = (msg.type ≢ invalid) × (length msg.payload ≤ max_payload_size)

type_code : (t : MsgType) → of_code (code t % 256) ≡ t
type_code invalid = refl
type_code _ = refl

send_payload-Sends :
    {w : World} (payload : Bytes) (n : ℕ)
    → Ready w (length payload + n)
    → Sends (if ltb 0 (length payload) then send_exact payload else pure tt) payload n w
send_payload-Sends {w} [] n r = record {
  after = w.acceptances;
  runs = ap (λ (x : Bytes). (ok tt, record w { wire = x })) (sym (append-nil w.wire));
  is_ready = r.is_ready;
  has_room = omega (arith, r.has_room);
}
send_payload-Sends (b ∷ bs) n r =
    rw (lt→ltb 0 (length (b ∷ bs)) (omega arith)) (send_exact-Sends (b ∷ bs) n r)

-- On a connection with room for it, send_msg returns with exactly the frame of the message sent.
pub send_msg-Sends :
    {w : World} (msg : Message) (n : ℕ)
    → Ready w (length (frame msg) + n)
    → Sends (send_msg msg) (frame msg) n w
unfolding send_msg frame
send_msg-Sends {w} msg n r =
    let s =
      send_exact-Sends {w = w} (header msg) (length msg.payload + n)
        (record { is_ready = r.is_ready; has_room = omega (arith, r.has_room) }) in
    Sends-then s (send_payload-Sends msg.payload n (Sends-Ready s))

recv_payload-Takes :
    {w : World} (payload rest : Bytes)
    → Incoming w (payload ++ rest)
    → Takes (recv_payload (length payload)) payload rest w
unfolding recv_payload
recv_payload-Takes [] rest i = Takes-pure i
recv_payload-Takes (b ∷ bs) rest i =
    rw (lt→ltb 0 (length (b ∷ bs)) (omega arith)) (recv_exact-Takes (b ∷ bs) rest i)

-- For a message of a type other than INVALID and a payload within the limit whose frame is next on
-- an open connection, recv_msg returns the message, whatever the split of the bytes, and leaves
-- exactly the bytes behind the frame.
pub recv_msg-Takes :
    {w : World} (msg : Message) (rest : Bytes)
    → IsSendable msg
    → Incoming w (frame msg ++ rest)
    → Takes recv_msg msg rest w
unfolding recv_msg frame
recv_msg-Takes {w} msg rest (typed, short) i =
    let t = recv_exact-Takes {w = w} (header msg) (msg.payload ++ rest) i in
    let p = recv_payload-Takes msg.payload rest (Takes-Incoming t) in
    Takes-bind _ t (
      rw (check_header-header msg typed short, type_code msg.type)
        (Takes-bind _ p (Takes-pure (Takes-Incoming p))))

recv_loop-length :
    (es : List Arrival) (got : Bytes) (n : ℕ) {bs : Bytes} {rest : List Arrival}
    → recv_loop got n es ≡ (ok bs, rest)
    → length bs ≡ length got + n
unfolding recv_loop
recv_loop-length es got zero e = ground arith
recv_loop-length [] got (suc n) e = absurd (cc)
recv_loop-length (arrived [] ∷ es) got (suc n) e = absurd (cc)
recv_loop-length (arrived (b ∷ bs) ∷ es) got (suc n) e = elim (Bool-cases (leb (length bs) n)) [
  | inl all ↦ omega (
    arith,
    recv_loop-length es (got ++ (b ∷ bs)) (n - length bs) (rw all at e),
    length-append got (b ∷ bs),
    leb→le (length bs) n all,
  )
  | inr some_left ↦ ground (arith, length-append got (b ∷ take n bs), length-take n bs)
]
recv_loop-length (Arrival.again ∷ es) got (suc n) e = recv_loop-length es got (suc n) e
recv_loop-length (Arrival.failed x ∷ es) got (suc n) e = absurd (cc)

recv_exact-Ensures : (n : ℕ) → Ensures (λ bs. length bs ≡ n) (recv_exact n)
unfolding recv_exact
recv_exact-Ensures n = record {
  at = λ w {t} {a} e. omega (
    arith,
    recv_loop-length w.arrivals [] n {bs = a} {rest = (recv_loop [] n w.arrivals).1} (ground arith),
  );
}

recv_payload-Ensures : (n : ℕ) → Ensures (λ bs. length bs ≡ n) (recv_payload n)
unfolding recv_payload
recv_payload-Ensures n =
    Ensures-if (ltb 0 n) (recv_exact n) (pure []) (λ _. recv_exact-Ensures n)
      (λ zero_len. Ensures-pure [] (ground arith))

-- Whatever a connection delivers, a message that recv_msg returns has a type from HANDSHAKE to
-- CANCEL and a payload of at most MAX_PAYLOAD_SIZE bytes.
pub recv_msg-Ensures : Ensures IsSendable recv_msg
unfolding recv_msg
recv_msg-Ensures =
    Ensures-bind _ (recv_exact header_size) _ (recv_exact-Ensures header_size) λ hdr _.
      Ensures-bind-lift (check_header hdr) _ λ n checked.
        Ensures-bind _ (recv_payload n) _ (recv_payload-Ensures n) λ payload sized.
          let (typed, short) = check_header-bounds hdr checked in
          Ensures-pure (record { type = of_code (get_or hdr 1 0); payload = payload })
            (typed, omega (arith, sized, short))

-- The same, as steps of a conversation.
pub recv_msg-Talks :
    {w : World} (msg : Message) (rest : Bytes) (n : ℕ)
    → IsSendable msg
    → Peer w (frame msg ++ rest) n
    → Talks recv_msg msg rest [] n w
recv_msg-Talks msg rest n s p = Talks-Takes (recv_msg-Takes msg rest s p.incoming) p.ready

pub send_msg-Talks :
    {w : World} (msg : Message) (rest : Bytes) (n : ℕ)
    → Peer w rest (length (frame msg) + n)
    → Talks (send_msg msg) tt rest (frame msg) n w
send_msg-Talks msg rest n p = Talks-Sends (send_msg-Sends msg n p.ready) p.incoming
