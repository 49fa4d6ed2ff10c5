-- ===== src/Push/Serve.antt =====
-- What run_push sends, for what a receiver asks (src/core/push.cpp).
use embr.Base.{
  All, List, [], ap, arith, length, length-append, lt→leb, not, out_of_range, refl, subst, suc,
  unexpected_message, zero, ℕ, ◌%◌, ◌++◌, ◌+◌, ◌<◌, ◌^◌, ◌∷◌, ◌≡◌, ◌≤◌,
}
use embr.Geometry.{
  chunk_bytes, chunk_fits, chunk_len, count_for, index_inside, length-chunk_bytes, offset_of,
}
use embr.Protocol.{Bytes, FileMeta, Message, file_meta, max_payload_size, u32_mod}
use embr.Protocol.Build.{make_complete}
use embr.Protocol.RoundTrip.{IsFileMeta, layout, make_filemeta-layout}
use embr.Protocol.Small.{
  handshake_message, hdr_message, make_chunk_hdr_lem, parse_chunk_req_lem, parse_handshake_lem,
  req_message,
}
use embr.Push.{answer, run_push, serve}
use embr.Tcp.{send_file}
use embr.Tcp.Moves.{send_file-Sends}
use embr.Wire.Frames.{frame, recv_msg-Talks, send_msg-Sends, send_msg-Talks}
use embr.World.{World}
use embr.World.Talk.{
  Peer, Peer-mono, Peer-regroup, Talks, Talks-Peer, Talks-Sends, Talks-bind, Talks-lift, Talks-pure,
  Talks-require,
}

-- The answer to the request of a chunk: its header, and its bytes.
abbrev pub chunk_answer : Bytes → ℕ → Bytes
chunk_answer file index = frame (hdr_message index) ++ chunk_bytes file index

abbrev pub answers : Bytes → List ℕ → Bytes
answers file [] = []
answers file (i ∷ is) = chunk_answer file i ++ answers file is

-- The requests of a receiver, ended by COMPLETE.
abbrev pub requests : List ℕ → Bytes
requests [] = frame make_complete
requests (i ∷ is) = frame (req_message i) ++ requests is

abbrev pub meta_message : FileMeta → Message
meta_message meta = record { type = file_meta; payload = layout meta }

-- The metadata of a file that can be sent.
pub record Describes (meta : FileMeta) (file : Bytes) : Type 0 where
  pub size : meta.file_size ≡ length file
  pub bounded : length file < 2 ^ 52
  pub count : meta.chunk_count ≡ count_for (length file)

module _ (file : Bytes) (meta : FileMeta) (d : Describes meta file) where
  answer-Talks :
      {w : World} (i : ℕ) (rest : Bytes) (n : ℕ)
      → i < meta.chunk_count
      → Peer w rest (length (chunk_answer file i) + n)
      → Talks (answer file meta (req_message i)) tt rest (chunk_answer file i) n w
  unfolding answer
  answer-Talks {w} i rest n below p =
      let inside : offset_of i < length file =
        index_inside (length file) i d.bounded (omega (arith, d.count)) in
      let small : i < u32_mod = omega (arith, inside, d.bounded) in
      let len = chunk_len (length file) i in
      let sized = length-chunk_bytes file i (omega (arith, d.bounded)) (omega arith) in
      let head =
        Talks-Sends
          (send_msg-Sends {w = w} (hdr_message i) (len + n) (record {
            is_ready = p.ready.is_ready;
            has_room = omega (
              arith,
              p.ready.has_room,
              length-append (frame (hdr_message i)) (chunk_bytes file i),
              sized,
            );
          }))
          p.incoming in
      let body = (Talks-Peer head) in
      Talks-require _ unexpected_message _ refl (
        Talks-lift _ _ (parse_chunk_req_lem i small) (
          Talks-require _ out_of_range _ (ap not (lt→leb meta.chunk_count i below)) (
            Talks-lift _ _ (make_chunk_hdr_lem (record { chunk_index = i })) (
              rw d.size (
                Talks-bind (λ _. send_file file (offset_of i) len) head
                  (Talks-Sends
                    (send_file-Sends file (offset_of i) len n
                      (chunk_fits (length file) i (omega (arith, d.bounded)) (omega arith))
                      body.ready)
                    body.incoming))))))

  -- A peer that asks for chunks of the file and then ends with COMPLETE gets each chunk, in the
  -- order of its requests, and the loop returns how many it sent.
  pub serve-Talks :
      (is : List ℕ) (fuel sent : ℕ) (rest : Bytes) (n : ℕ) {w : World}
      → All (λ i. i < meta.chunk_count) is
      → length is < fuel
      → sent < u32_mod
      → Peer w (requests is ++ rest) (length (answers file is) + n)
      → Talks (serve fuel file meta sent) ((sent + length is) % u32_mod) rest (answers file is) n w
  unfolding serve make_complete
  serve-Talks is zero sent rest n below enough small p = absurd (omega arith)
  serve-Talks [] (suc fuel) sent rest n {w} below enough small p =
      let same : sent ≡ (sent + 0) % u32_mod = omega arith in
      let t =
        recv_msg-Talks make_complete rest n ((λ e. cc), omega arith)
          (Peer-mono (0 + n) n (omega arith) p) in
      subst (λ (k : ℕ). Talks (serve (suc fuel) file meta sent) k rest [] n w) same
        (Talks-bind _ t (Talks-pure (Talks-Peer t)))
  serve-Talks (i ∷ is) (suc fuel) sent rest n {w} below enough small p =
      let more = length (answers file is) + n in
      let t =
        recv_msg-Talks (req_message i) (requests is ++ rest) (length (chunk_answer file i) + more)
          ((λ e. cc), omega arith)
          (Peer-mono (length (answers file (i ∷ is)) + n) (length (chunk_answer file i) + more)
            (omega (arith, length-append (chunk_answer file i) (answers file is)))
            (Peer-regroup (frame (req_message i)) (requests is) rest p)) in
      let u = answer-Talks i (requests is ++ rest) more below.0 (Talks-Peer t) in
      let v =
        serve-Talks is fuel ((sent + 1) % u32_mod) rest n below.1 (omega arith) (omega arith)
          (Talks-Peer u) in
      let same : ((sent + 1) % u32_mod + length is) % u32_mod ≡ (sent + suc (length is)) % u32_mod =
        omega arith in
      subst (λ (k : ℕ). Talks (serve (suc fuel) file meta sent) k rest (answers file (i ∷ is)) n w)
        same (Talks-bind _ t (Talks-bind (λ _. serve fuel file meta ((sent + 1) % u32_mod)) u v))

  -- For metadata that describes the file and fits its frame, and a peer that sends a handshake,
  -- requests for chunks below the count, fewer than the fuel, and COMPLETE: on any open split of
  -- its bytes and any acceptances with room, run_push sends the FILE_META frame and then, for each
  -- request in order, the CHUNK_HDR frame and the bytes of that chunk, leaves what follows on the
  -- connection, and returns the number of requests.
  pub run_push-Talks :
      (token : Bytes) (is : List ℕ) (fuel : ℕ) (rest : Bytes) (n : ℕ) {w : World}
      → 4 + length token ≤ max_payload_size
      → IsFileMeta meta
      → length meta.chunk_hashes ≡ meta.chunk_count
      → All (λ i. i < meta.chunk_count) is
      → length is < fuel
      → Peer w
          (frame (handshake_message token) ++ (requests is ++ rest))
          (length (frame (meta_message meta) ++ answers file is) + n)
      → Talks
          (run_push fuel file meta)
          (length is % u32_mod)
          rest
          (frame (meta_message meta) ++ answers file is)
          n
          w
  unfolding run_push
  run_push-Talks token is fuel rest n {w} short v counted below enough p =
      let more = length (answers file is) + n in
      let t =
        recv_msg-Talks (handshake_message token) (requests is ++ rest)
          (length (frame (meta_message meta)) + more) ((λ e. cc), omega arith)
          (Peer-mono _ (length (frame (meta_message meta)) + more)
            (omega (arith, length-append (frame (meta_message meta)) (answers file is))) p) in
      let u = send_msg-Talks (meta_message meta) (requests is ++ rest) more (Talks-Peer t) in
      let v' = serve-Talks is fuel 0 rest n below enough (omega arith) (Talks-Peer u) in
      let from_zero : (0 + length is) % u32_mod ≡ length is % u32_mod = omega arith in
      subst
        (λ (k : ℕ).
          Talks (run_push fuel file meta) k rest (frame (meta_message meta) ++ answers file is) n w)
        from_zero
        (Talks-bind _ t (
          Talks-require _ unexpected_message _ refl (
            Talks-lift _ _ (parse_handshake_lem token (omega arith)) (
              Talks-lift _ _ (make_filemeta-layout meta v counted)
                (Talks-bind (λ _. serve fuel file meta 0) u v')))))
