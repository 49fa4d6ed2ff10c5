-- ===== src/Tcp/Moves.antt =====
-- The loops of src/transport/tcp_transport.cpp move exactly the bytes asked for.
use embr.Base.{
  List, Result, [], ap, append-nil, append_assoc, ap₂, arith, drop, drop-append, err, length,
  length-append, length-drop, length-take, ok, refl, suc, sym, take, take-append, take-append-drop,
  zero, ℕ, ◌++◌, ◌+◌, ◌-◌, ◌∙◌, ◌∷◌, ◌≡◌, ◌≤◌,
}
use embr.Protocol.{Bytes}
use embr.Tcp.{Splicing, patch, recv_file, send_file, sendfile_loop, splice_loop}
use embr.Transport.{Acceptance, Arrival, accepted, arrived, recv_loop, send_loop}
use embr.Transport.Exact.{IsOpen, recv_loop-Received, send_loop-SentAll, stream}
use embr.World.{World}
use embr.World.Files.{content, put_file}
use embr.World.Stream.{Incoming, Ready, Sends}

-- On every script send_file of a range inside the file does what send_exact of the bytes of that
-- range does.
pub sendfile_loop-eq-send_loop :
    (es : List Acceptance) (left : Bytes) (n : ℕ)
    → n ≤ length left
    → sendfile_loop left n es ≡ send_loop (take n left) es
unfolding sendfile_loop send_loop
sendfile_loop-eq-send_loop es left zero h = refl
sendfile_loop-eq-send_loop [] [] (suc n) h = absurd (omega arith)
sendfile_loop-eq-send_loop [] (b ∷ bs) (suc n) h = refl
sendfile_loop-eq-send_loop (accepted k ∷ es) [] (suc n) h = absurd (omega arith)
sendfile_loop-eq-send_loop (accepted zero ∷ es) (b ∷ bs) (suc n) h = refl
sendfile_loop-eq-send_loop (accepted (suc k) ∷ es) (b ∷ bs) (suc n) h =
    let ys = take n bs in
    let t = take k ys in
    let total : length ys ≡ n = omega (arith, length-take n bs) in
    let parts : length t + length (drop k ys) ≡ n =
      omega (arith, length-append t (drop k ys), ap length (take-append-drop k ys), total) in
    let behind : drop (length t) bs ≡ drop k ys ++ drop n bs =
      ap (drop (length t)) (
        sym (take-append-drop n bs)
        ∙ ap (λ (x : Bytes). x ++ drop n bs) (sym (take-append-drop k ys))
        ∙ append_assoc t (drop k ys) (drop n bs))
      ∙ drop-append t (drop k ys ++ drop n bs) in
    let offered : take (n - length t) (drop (length t) bs) ≡ drop k ys =
      ap₂ (λ (m : ℕ) (x : Bytes). take m x) {x = n - length t} {y = length (drop k ys)}
        (omega (arith, parts)) behind
      ∙ take-append (drop k ys) (drop n bs) in
    let room : n - length t ≤ length (drop (length t) bs) =
      omega (arith, length-drop (length t) bs, parts) in
    rw (sendfile_loop-eq-send_loop es (drop (length t) bs) (n - length t) room, offered) refl
sendfile_loop-eq-send_loop (Acceptance.again ∷ es) [] (suc n) h = absurd (omega arith)
sendfile_loop-eq-send_loop (Acceptance.again ∷ es) (b ∷ bs) (suc n) h =
    sendfile_loop-eq-send_loop es (b ∷ bs) (suc n) h
sendfile_loop-eq-send_loop (Acceptance.failed e ∷ es) [] (suc n) h = absurd (omega arith)
sendfile_loop-eq-send_loop (Acceptance.failed e ∷ es) (b ∷ bs) (suc n) h = refl

-- A run of recv_exact, told from the run that moves the bytes into a file.
abbrev pub as_received : Bytes → Splicing → Result Bytes × List Arrival
as_received got s = elim s.result [ ok _ ↦ (ok (got ++ s.moved), s.rest) | err e ↦ (err e, s.rest) ]

-- On every script recv_file moves the bytes that recv_exact would return, fails when it would, and
-- leaves the same script.
pub recv_loop-splice_loop :
    (es : List Arrival) (n : ℕ) (got : Bytes)
    → recv_loop got n es ≡ as_received got (splice_loop n es)
unfolding splice_loop recv_loop
recv_loop-splice_loop es zero got = ap (λ (x : Bytes). (ok x, es)) (sym (append-nil got))
recv_loop-splice_loop [] (suc n) got = refl
recv_loop-splice_loop (arrived [] ∷ es) (suc n) got = refl
recv_loop-splice_loop (arrived (b ∷ bs) ∷ es) (suc n) got = ground (
  arith,
  recv_loop-splice_loop es (n - length bs) (got ++ (b ∷ bs)),
  append_assoc got (b ∷ bs) (splice_loop (n - length bs) es).moved,
)
recv_loop-splice_loop (Arrival.again ∷ es) (suc n) got = recv_loop-splice_loop es (suc n) got
recv_loop-splice_loop (Arrival.failed e ∷ es) (suc n) got = refl

pub splice_loop-ok :
    (es : List Arrival) (n : ℕ) {bs : Bytes} {rest : List Arrival}
    → recv_loop [] n es ≡ (ok bs, rest)
    → splice_loop n es ≡ record { result = ok tt; moved = bs; rest = rest }
splice_loop-ok es n e = ground (arith, recv_loop-splice_loop es n [])

-- A range of a file is sent whole.
pub send_file-Sends :
    {w : World} (file : Bytes) (offset len n : ℕ)
    → offset + len ≤ length file
    → Ready w (len + n)
    → Sends (send_file file offset len) (take len (drop offset file)) n w
unfolding send_file
send_file-Sends {w} file offset len n inside r =
    let left = drop offset file in
    let sized : length (take len left) ≡ len =
      omega (arith, length-take len left, length-drop offset file) in
    let s =
      send_loop-SentAll w.acceptances (take len left) r.is_ready
        (omega (arith, r.has_room, sized)) in
    record {
      after = s.rest;
      runs =
          rw
            (
              sendfile_loop-eq-send_loop w.acceptances left len
                  (omega (arith, length-drop offset file)),
              s.runs,
            )
            refl;
      is_ready = s.ready_rest;
      has_room = omega (arith, s.enough_rest, r.has_room, sized);
    }

-- What recv_file of as many bytes as are next does: it writes them at the offset.
pub record Written (path : Bytes) (offset : ℕ) (bs rest : Bytes) (w : World) : Type 0 where
  pub after : List Arrival
  pub runs :
      recv_file path offset (length bs) w
      ≡ (ok tt, put_file path (patch (content path w) offset bs) (record w { arrivals = after }))
  pub is_open : IsOpen after
  pub delivers : stream after ≡ rest

pub recv_file-Written :
    {w : World} (path : Bytes) (offset : ℕ) (bs rest : Bytes)
    → Incoming w (bs ++ rest)
    → Written path offset bs rest w
unfolding recv_file
recv_file-Written {w} path offset bs rest i =
    let r =
      recv_loop-Received w.arrivals [] (length bs) i.is_open
        (omega (arith, ap length i.delivers, length-append bs rest)) in
    let whole : take (length bs) (stream w.arrivals) ≡ bs =
      ap (take (length bs)) i.delivers ∙ take-append bs rest in
    record {
      after = r.rest;
      runs = rw (splice_loop-ok w.arrivals (length bs) r.runs, whole) refl;
      is_open = r.open_rest;
      delivers = r.behind ∙ ap (drop (length bs)) i.delivers ∙ drop-append bs rest;
    }
