-- ===== src/Transfer.antt =====
-- A transfer from end to end: run_push of src/core/push.cpp and run_pull of src/core/pull.cpp, each
-- receiving what the other sends.
use embr.Base.{
  All, [], append-nil, arith, false, length, length-append, none, ok, refl, replicate, subst, suc,
  sym, unexpected_message, zero, ℕ, ◌%◌, ◌++◌, ◌+◌, ◌<◌, ◌≡◌, ◌≤◌,
}
use embr.Chunks.{needed_from}
use embr.Paths.{path_for}
use embr.Protocol.{Bytes, FileMeta, file_meta, max_payload_size, u32_mod}
use embr.Protocol.Parse.{parse_filemeta}
use embr.Protocol.RoundTrip.{IsFileMeta, layout, parse_filemeta-layout}
use embr.Protocol.Small.{handshake_message, make_handshake_lem}
use embr.Pull.{output_for, run_pull}
use embr.Pull.Chunk.{Grants, Vouches}
use embr.Pull.Whole.{Completes, receive-Completes, wanted}
use embr.Push.{run_push}
use embr.Push.Serve.{answers, meta_message, requests, run_push-Talks}
use embr.Wire.Frames.{frame, recv_msg-Talks, send_msg-Talks}
use embr.World.{World}
use embr.World.Runs.{Runs-Peer, Runs-bind, Runs-lift, Runs-require, Talks-Runs}
use embr.World.Talk.{Peer, Peer-mono, Peer-regroup, Talks}

needed-bounded :
    (k r count : ℕ) → k + r ≡ count → All (λ i. i < count) (needed_from k (replicate r false))
unfolding needed_from
needed-bounded k zero count e = tt
needed-bounded k (suc r) count e =
    (omega (arith, e), needed-bounded (k + 1) r count (omega (arith, e)))

length-needed : (k r : ℕ) → length (needed_from k (replicate r false)) ≡ r
unfolding needed_from
length-needed k zero = refl
length-needed k (suc r) = omega (arith, length-needed (k + 1) r)

-- What the receiver of a file sends, and what its sender sends.
abbrev pub pull_sends : FileMeta → Bytes
pull_sends meta = frame (handshake_message []) ++ requests (wanted meta)

abbrev pub push_sends : FileMeta → Bytes → Bytes
push_sends meta file = frame (meta_message meta) ++ answers file (wanted meta)

-- Metadata that the frame of FILE_META can hold, of a file that is not empty.
pub record IsOffered (meta : FileMeta) : Type 0 where
  pub is_file_meta : IsFileMeta meta
  pub counted : length meta.chunk_hashes ≡ meta.chunk_count
  pub framed : length (layout meta) ≤ max_payload_size
  pub some_chunk : 0 < meta.chunk_count

parses : (meta : FileMeta) → IsOffered meta → parse_filemeta (meta_message meta) ≡ ok meta
parses meta o =
    subst (λ (x : Bytes). parse_filemeta (record { type = file_meta; payload = x }) ≡ ok meta)
      (append-nil (layout meta)) (parse_filemeta-layout meta o.is_file_meta o.counted [])

-- Nothing follows what is delivered.
ending : {w : World} {n : ℕ} (bs : Bytes) → Peer w bs n → Peer w (bs ++ []) n
ending {w} {n} bs p = subst (λ (x : Bytes). Peer w x n) (sym (append-nil bs)) p

whole_stream : {w : World} {n : ℕ} (a b : Bytes) → Peer w (a ++ b) n → Peer w (a ++ (b ++ [])) n
whole_stream {w} {n} a b p = subst (λ (x : Bytes). Peer w (a ++ x) n) (sym (append-nil b)) p

module _ (sha256 : Bytes → Bytes) (meta : FileMeta) (file : Bytes) (v : Vouches sha256 meta file)
    (o : IsOffered meta) where
  pub run_pull-Completes :
      (output_path rest : Bytes) (n : ℕ) {w : World}
      → Grants w.may_write w.may_resize w.may_map (output_for output_path meta)
      → w.disk (path_for (output_for output_path meta)) ≡ none
      → Peer w (push_sends meta file ++ rest) (length (pull_sends meta) + n)
      → Completes
          (run_pull sha256 output_path)
          file
          (output_for output_path meta)
          rest
          (pull_sends meta)
          n
          w
  unfolding run_pull
  run_pull-Completes output_path rest n {w} g fresh p =
      let is = wanted meta in
      let t = Talks-Runs (
        send_msg-Talks (handshake_message []) (push_sends meta file ++ rest)
          (length (requests is) + n)
          (Peer-mono (length (pull_sends meta) + n)
            (length (frame (handshake_message [])) + (length (requests is) + n))
            (omega (arith, length-append (frame (handshake_message [])) (requests is))) p)) in
      let u = Talks-Runs (
        recv_msg-Talks (meta_message meta) (answers file is ++ rest) (length (requests is) + n)
          ((λ e. cc), o.framed)
          (Peer-regroup (frame (meta_message meta)) (answers file is) rest (Runs-Peer t))) in
      let r =
        receive-Completes sha256 meta file v (output_for output_path meta) rest n o.some_chunk g
          fresh (Runs-Peer u) in
      record {
        after = r.after;
        steps = Runs-lift _ _ (make_handshake_lem (record { token = [] }) (omega arith)) (
            Runs-bind _ t (
              Runs-bind _ u (
                Runs-require _ unexpected_message _ refl (Runs-lift _ _ (parses meta o) r.steps))));
        whole = r.whole;
        no_partial = r.no_partial;
        others = r.others;
      }

  -- For a file of at least one chunk and fewer than 2^52 bytes, metadata that fits its frame and
  -- gives the digest of each chunk, and a receiver that may write, resize and map and has no
  -- partial file: if each end is delivered exactly what the other sends, in any open split and
  -- with any acceptances that have room, then run_push sends the metadata and every chunk and
  -- returns their count, and run_pull sends its requests and returns with the file in the output,
  -- no partial file and no other file changed.
  pub transfer_lem :
      (output_path : Bytes) {ws wr : World}
      → Grants wr.may_write wr.may_resize wr.may_map (output_for output_path meta)
      → wr.disk (path_for (output_for output_path meta)) ≡ none
      → Peer ws (pull_sends meta) (length (push_sends meta file))
      → Peer wr (push_sends meta file) (length (pull_sends meta))
      → Talks
          (run_push (meta.chunk_count + 1) file meta)
          meta.chunk_count
          []
          (push_sends meta file)
          0
          ws
        × Completes
            (run_pull sha256 output_path)
            file
            (output_for output_path meta)
            []
            (pull_sends meta)
            0
            wr
  transfer_lem output_path {ws} g fresh p q =
      let is = wanted meta in
      let count_back : length is % u32_mod ≡ meta.chunk_count =
        omega (arith, length-needed 0 meta.chunk_count, o.is_file_meta.count_u32) in
      (
        subst
            (λ (k : ℕ).
              Talks (run_push (meta.chunk_count + 1) file meta) k [] (push_sends meta file) 0 ws)
            count_back
            (run_push-Talks file meta v.describes [] is (meta.chunk_count + 1) [] 0 (omega arith)
              o.is_file_meta o.counted
              (needed-bounded 0 meta.chunk_count meta.chunk_count (omega arith))
              (omega (arith, length-needed 0 meta.chunk_count))
              (whole_stream (frame (handshake_message [])) (requests is)
                (Peer-mono _ (length (push_sends meta file) + 0) (omega arith) p))),
        run_pull-Completes output_path [] 0 g fresh (
            ending (push_sends meta file)
              (Peer-mono _ (length (pull_sends meta) + 0) (omega arith) q)),
      )
