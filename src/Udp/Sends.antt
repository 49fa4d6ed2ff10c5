-- ===== src/Udp/Sends.antt =====
-- send_chunk of src/transport/udp_transport.cpp sends the fragments of its chunk, each once and in
-- order, whatever order the completions come in.
use embr.Base.{
  All, All-append, List, Result, [], ap, append-nil, append_assoc, ap₂, arith, drop, length,
  length-append, length-take, lt→leb, lt→ltb, map, ok, refl, subst, suc, sym, take, zero, ℕ, ◌%◌,
  ◌*◌, ◌++◌, ◌+◌, ◌<◌, ◌∙◌, ◌∷◌, ◌≡◌, ◌≤◌,
}
use embr.Exec.{continue, ◌>>◌}
use embr.Protocol.{Bytes, chunk_size_const}
use embr.Udp.{frag_count_of, frag_len_of, udp_payload_size, write_frag_hdr}
use embr.Udp.Drains.{SendsEnd, drain_sends-Drained}
use embr.Udp.Fragments.{frag_inside, packet}
use embr.Udp.Recv.{Wakeup, queue_depth, update}
use embr.Udp.Send.{
  Sender, await_sends, datagram_of, drain_sends, put_back, put_message, send_chunk, send_frag,
  send_frags, send_sqe, submit_sends,
}

take-take : (n l : ℕ) (xs : Bytes) → n ≤ l → take n (take l xs) ≡ take n xs
take-take zero l xs h = refl
take-take (suc n) zero xs h = absurd (omega arith)
take-take (suc n) (suc l) [] h = refl
take-take (suc n) (suc l) (x ∷ xs) h = ap (λ (t : Bytes). x ∷ t) (take-take n l xs (omega arith))

take-drop-take :
    (n m l : ℕ) (xs : Bytes) → m + n ≤ l → take n (drop m (take l xs)) ≡ take n (drop m xs)
take-drop-take n zero l xs h = take-take n l xs (omega arith)
take-drop-take n (suc m) zero xs h = absurd (omega arith)
take-drop-take n (suc m) (suc l) [] h = refl
take-drop-take n (suc m) (suc l) (x ∷ xs) h = take-drop-take n m l xs (omega arith)

-- What send_chunk makes of its buffer are the fragments of the chunk that the buffer begins with.
pub datagram_of-packet :
    (buf : Bytes) (k len j : ℕ)
    → len ≤ length buf
    → j < frag_count_of len
    → datagram_of buf k len j ≡ packet (take len buf) k j
datagram_of-packet buf k len j filled j_in =
    let sized : length (take len buf) ≡ len = omega (arith, length-take len buf) in
    let (ends, small) = frag_inside len j j_in in
    rw (sized, take-drop-take (frag_len_of len j) (j * udp_payload_size) len buf ends)
      (ap
        (λ (n : ℕ).
          write_frag_hdr k j n ++ take (frag_len_of len j) (drop (j * udp_payload_size) buf))
        (omega (arith, small)))

-- The fragments from j on.
abbrev pub listing : (ℕ → Bytes) → ℕ → ℕ → List Bytes
listing bytes zero j = []
listing bytes (suc n) j = bytes j ∷ listing bytes n (j + 1)

pub listing-same :
    (f g : ℕ → Bytes) (n j : ℕ) → ((i : ℕ) → i < j + n → f i ≡ g i) → listing f n j ≡ listing g n j
listing-same f g zero j h = refl
listing-same f g (suc n) j h =
    ap₂ (λ (x : Bytes) (xs : List Bytes). x ∷ xs) (h j (omega arith))
      (listing-same f g n (j + 1) (λ i lt. h i (omega arith)))

-- The messages of the slots that are prepared.
record Prepared (s : Sender) (xs : List Bytes) : Type 0 where
  counted : length s.prepared ≡ s.pending_frags
  below : All (λ i. i < s.pending_frags) s.prepared
  messages_are : map s.messages s.prepared ≡ xs

map-put_message :
    (f : ℕ → Bytes) (n : ℕ) (b : Bytes) (is : List ℕ)
    → All (λ i. i < n) is
    → map (update f n b) (is ++ n ∷ []) ≡ map f is ++ b ∷ []
map-put_message f n b [] h = ap (λ (x : Bytes). x ∷ []) (ground arith)
map-put_message f n b (i ∷ is) (h, hs) =
    ap₂ (λ (x : Bytes) (xs : List Bytes). x ∷ xs) (ground arith) (map-put_message f n b is hs)

below_mono : (n m : ℕ) (is : List ℕ) → n ≤ m → All (λ i. i < n) is → All (λ i. i < m) is
below_mono n m [] le h = tt
below_mono n m (i ∷ is) le (h, hs) = (omega arith, below_mono n m is le hs)

put_message-Prepared :
    (b : Bytes) (s : Sender) (xs : List Bytes)
    → s.pending_frags < queue_depth
    → Prepared s xs
    → Prepared (put_message b s) (xs ++ b ∷ [])
put_message-Prepared b s xs room p =
    let slot : s.pending_frags % queue_depth ≡ s.pending_frags = omega arith in
    record {
      counted =
          omega (arith, length-append s.prepared (s.pending_frags % queue_depth ∷ []), p.counted);
      below = rw slot (
          All-append (λ i. i < s.pending_frags + 1) s.prepared (s.pending_frags ∷ [])
            (below_mono s.pending_frags (s.pending_frags + 1) s.prepared (omega arith) p.below)
            (omega arith, tt));
      messages_are = rw slot (
          map-put_message s.messages s.pending_frags b s.prepared p.below
          ∙ ap (λ (l : List Bytes). l ++ b ∷ []) p.messages_are);
    }

send_frag-ok :
    (b : Bytes) (s : Sender)
    → s.pending_frags < queue_depth
    → length s.prepared ≡ s.pending_frags
    → send_frag b s ≡ (ok tt, put_message b s)
unfolding send_frag send_sqe
send_frag-ok b s room counted =
    rw
      (
        lt→leb queue_depth s.pending_frags room,
        lt→ltb (length s.prepared) queue_depth (omega (arith, counted)),
      )
      refl

-- Fragments that have been prepared, and nothing else changed that counts.
record Loaded (bytes : ℕ → Bytes) (n j : ℕ) (xs : List Bytes) (s : Sender) : Type 0 where
  after : Sender
  runs : send_frags bytes n j s ≡ (ok tt, after)
  loaded : Prepared after (xs ++ listing bytes n j)
  pending_is : after.pending_frags ≡ s.pending_frags + n
  sent_same : after.sent ≡ s.sent
  waits_same : after.send_waits ≡ s.send_waits

send_frags-Loaded :
    (bytes : ℕ → Bytes) (n j : ℕ) (xs : List Bytes) (s : Sender)
    → s.pending_frags + n ≤ queue_depth
    → Prepared s xs
    → Loaded bytes n j xs s
unfolding send_frags
send_frags-Loaded bytes zero j xs s room p = record {
  after = s;
  runs = refl;
  loaded = subst (Prepared s) (sym (append-nil xs)) p;
  pending_is = omega arith;
  sent_same = refl;
  waits_same = refl;
}
send_frags-Loaded bytes (suc n) j xs s room p =
    let l =
      send_frags-Loaded bytes n (j + 1) (xs ++ bytes j ∷ []) (put_message (bytes j) s)
        (omega (arith, room)) (put_message-Prepared (bytes j) s xs (omega (arith, room)) p) in
    record {
      after = l.after;
      runs = rw (send_frag-ok (bytes j) s (omega (arith, room)) p.counted) l.runs;
      loaded =
          subst (Prepared l.after) (append_assoc xs (bytes j ∷ []) (listing bytes n (j + 1)))
            l.loaded;
      pending_is = omega (arith, l.pending_is);
      sent_same = l.sent_same;
      waits_same = l.waits_same;
    }

-- The fragments have been sent, each once and in order.
pub record SentChunk (buf_idx k len : ℕ) (s : Sender) : Type 0 where
  pub after : Sender
  pub runs : send_chunk buf_idx k len s ≡ (ok tt, after)
  pub packets_sent :
      after.sent
      ≡ s.sent ++ listing (packet (take len (s.chunk_bufs buf_idx)) k) (frag_count_of len) 0

awaited :
    (loaded after : Sender) (rest : List Wakeup)
    → drain_sends 1 loaded.send_waits (submit_sends loaded) ≡ (ok rest, after)
    → await_sends 1 (submit_sends loaded) ≡ (ok tt, record after { send_waits = rest })
awaited loaded after rest f = ap put_back f

send_chunk-runs :
    (buf_idx k len : ℕ) (s loaded after : Sender) (rest : List Wakeup)
    → send_frags
        (datagram_of (s.chunk_bufs buf_idx) k len)
        (frag_count_of len)
        0
        (record s { pending_frags = 0 })
      ≡ (ok tt, loaded)
    → drain_sends 1 loaded.send_waits (submit_sends loaded) ≡ (ok rest, after)
    → send_chunk buf_idx k len s ≡ (ok tt, record after { send_waits = rest })
unfolding send_chunk
send_chunk-runs buf_idx k len s loaded after rest e f =
    ap
      (λ (x : Result (Unit {0}) × Sender).
        continue x (λ _. (λ (t : Sender). (ok tt, submit_sends t)) >> await_sends 1))
      e
    ∙ awaited loaded after rest f

-- For a chunk of at most CHUNK_SIZE bytes that the buffer holds, with no send prepared: on any
-- script with a completion without an error for each fragment, in any order and with completions
-- of reads among them, send_chunk returns, having sent the packet of each fragment of the chunk,
-- once and in order.
pub send_chunk-SentChunk :
    (buf_idx k len : ℕ) (s : Sender)
    → len ≤ chunk_size_const
    → len ≤ length (s.chunk_bufs buf_idx)
    → s.prepared ≡ []
    → SendsEnd (frag_count_of len) s.send_waits
    → SentChunk buf_idx k len s
send_chunk-SentChunk buf_idx k len s short filled none_prepared completes =
    let buf = s.chunk_bufs buf_idx in
    let bytes = datagram_of buf k len in
    let n = frag_count_of len in
    let begin = record s { pending_frags = 0 } in
    let l = send_frags-Loaded bytes n 0 [] begin (omega arith) (record {
      counted = ap length none_prepared;
      below = subst (All (λ i. i < 0)) (sym none_prepared) tt;
      messages_are = ap (map s.messages) none_prepared;
    }) in
    let submitted = submit_sends l.after in
    let d =
      drain_sends-Drained n submitted.send_waits submitted
        (subst (SendsEnd n) (sym l.waits_same) completes) (omega (arith, l.pending_is))
        (omega arith) in
    record {
      after = record d.after { send_waits = d.rest };
      runs = send_chunk-runs buf_idx k len s l.after d.after d.rest l.runs d.runs;
      packets_sent =
          d.sent_same
          ∙ ap₂ (λ (x y : List Bytes). x ++ y) l.sent_same
              (l.loaded.messages_are
                ∙ listing-same bytes (packet (take len buf) k) n 0
                    (λ i lt. datagram_of-packet buf k len i filled (omega arith)));
    }
