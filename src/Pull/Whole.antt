-- ===== src/Pull/Whole.antt =====
-- A whole transfer by run_pull (src/core/pull.cpp), from a sender that follows the protocol.
use embr.Base.{
  List, [], ap, append-nil, arith, false, if◌then◌else◌, length, length-append, lt→ltb, none, ok,
  refl, replicate, some, subst, take, take_all, ℕ, ◌++◌, ◌+◌, ◌-◌, ◌<◌, ◌^◌, ◌∙◌, ◌≡◌, ◌≢◌,
}
use embr.Chunks.{all_done, needed_chunks, needed_from, new_manager}
use embr.Exec.{Exec, pure, ◌>>=◌}
use embr.Geometry.{chunk_bytes}
use embr.Partial.{remove}
use embr.Partial.Load.{load}
use embr.Paths.{path_for}
use embr.Paths.Names.{path_for_ne}
use embr.Protocol.{Bytes, FileMeta}
use embr.Protocol.Build.{make_complete}
use embr.Pull.{fetch, prepare, receive}
use embr.Pull.Chunk.{Grants, Vouches, marked, reach}
use embr.Pull.Fetch.{
  all_set-replicate, asks, asks-requests, recv_chunks-Extends, send_requests-Talks, without,
}
use embr.Pull.Output.{open_output, preallocate, resize}
use embr.Pull.Steps.{Disk, with_file, with_file_ne, with_file_self}
use embr.Push.Serve.{answers, requests}
use embr.Tcp.Patch.{begun, take_nil}
use embr.Wire.Frames.{frame, send_msg-Talks}
use embr.World.{World}
use embr.World.Files.{
  content, content-put_file, open_truncate, put_file, put_file-put_file, same_bytes_ne,
  same_bytes_refl, unlink,
}
use embr.World.Runs.{Runs, Runs-Peer, Runs-bind, Runs-files, Runs-lift, Talks-Runs}
use embr.World.Talk.{Peer, Peer-mono}

-- The action returns with the file in the output and no partial file, having sent `sent`; no other
-- file has changed.
pub record Completes (m : Exec World (Unit {0})) (file out rest sent : Bytes) (n : ℕ) (w : World)
    : Type 0 where
  pub after : Disk
  pub steps : Runs m tt after rest sent n w
  pub whole : after out ≡ some file
  pub no_partial : after (path_for out) ≡ none
  pub others : (p : Bytes) → p ≢ out → p ≢ path_for out → after p ≡ w.disk p

load_fresh :
    (out file_hash : Bytes) (count : ℕ) (w : World)
    → w.disk (path_for out) ≡ none
    → load out file_hash count w ≡ ok none
unfolding load
load_fresh out file_hash count w fresh = rw (fresh, load) refl

remove-Runs :
    {rest : Bytes} {n : ℕ} {w : World} (out : Bytes)
    → Peer w rest n
    → Runs (remove out) tt (without (path_for out) w.disk) rest [] n w
unfolding remove unlink
remove-Runs {w} out p = Runs-files (without (path_for out) w.disk) refl p

-- All chunks, in order.
abbrev pub wanted : FileMeta → List ℕ
wanted meta = needed_from 0 (replicate meta.chunk_count false)

module _ (sha256 : Bytes → Bytes) (meta : FileMeta) (file : Bytes) (v : Vouches sha256 meta file)
    (out : Bytes) where
  reach_all : begun file (reach file meta.chunk_count) ≡ file
  reach_all =
      ap (begun file) {x = reach file meta.chunk_count} {y = length file} (omega (arith, v.covers))
      ∙ ap (λ (x : Bytes). x ++ replicate (length file - length file) 0)
          (take_all (length file) file (omega arith))
      ∙ ap (λ (k : ℕ). file ++ replicate k 0) {x = length file - length file} {y = 0} (omega arith)
      ∙ append-nil file

  -- The end: all chunks are done, and the partial file is removed.
  finish-Runs :
      {rest : Bytes} {n : ℕ} {w : World}
      → Peer w rest n
      → Runs
          (if all_done (marked meta.chunk_count 0) then remove out else pure tt)
          tt
          (without (path_for out) w.disk)
          rest
          []
          n
          w
  unfolding all_done
  finish-Runs p = rw (all_set-replicate meta.chunk_count) (remove-Runs out p)

  fetch-Completes :
      (rest : Bytes) (n : ℕ) {w : World}
      → Grants w.may_write w.may_resize w.may_map out
      → w.disk out ≡ some (begun file (reach file 0))
      → Peer w
          (answers file (wanted meta) ++ rest)
          (length (asks (wanted meta)) + (length (frame make_complete) + n))
      → Completes
          (fetch sha256 out meta (marked 0 meta.chunk_count))
          file
          out
          rest
          (asks (wanted meta) ++ (frame make_complete ++ []))
          n
          w
  unfolding fetch needed_chunks
  fetch-Completes rest n {w} g there p =
      let t = Talks-Runs (
        send_requests-Talks (wanted meta) (answers file (wanted meta) ++ rest)
          (length (frame make_complete) + n) p) in
      let u =
        Talks-Runs
          (send_msg-Talks make_complete (answers file (wanted meta) ++ rest) n (Runs-Peer t)) in
      let s =
        recv_chunks-Extends sha256 meta file v out meta.chunk_count 0 rest n (omega arith) g there
          (Runs-Peer u) in
      let last = finish-Runs (Runs-Peer s.steps) in
      let d = without (path_for out) s.after in
      record {
        after = d;
        steps = Runs-bind _ t (
            Runs-bind _ u
              (Runs-bind (λ cm'. if all_done cm' then remove out else pure tt) s.steps last));
        whole =
            rw (same_bytes_ne out (path_for out) (path_for_ne out))
              (s.fetched.output ∙ ap some reach_all);
        no_partial = rw (same_bytes_refl (path_for out));
        others = λ q not_out not_partial.
            rw (same_bytes_ne q (path_for out) not_partial)
              (s.fetched.others q not_out not_partial);
      }

  zeros :
      take meta.file_size [] ++ replicate (meta.file_size - length {A = ℕ} []) 0
      ≡ begun file (reach file 0)
  zeros =
      ap (λ (x : Bytes). x ++ replicate (meta.file_size - 0) 0) (take_nil meta.file_size)
      ∙ ap (λ (k : ℕ). replicate k 0) {x = meta.file_size - 0} {y = length file - 0}
          (omega (arith, v.describes.size))
      ∙ ap (begun file) {x = 0} {y = reach file 0} (omega arith)

  prepare-Runs :
      (rest : Bytes) (n : ℕ) (file_hash : Bytes) {w : World}
      → Grants w.may_write w.may_resize w.may_map out
      → w.disk (path_for out) ≡ none
      → Peer w rest n
      → Runs
          (prepare out meta file_hash)
          (marked 0 meta.chunk_count)
          (with_file out (begun file (reach file 0)) w.disk)
          rest
          []
          n
          w
  unfolding prepare open_output preallocate resize open_truncate new_manager
  prepare-Runs rest n file_hash {w} g fresh p =
      Runs-files (with_file out (begun file (reach file 0)) w.disk) all p
    where
      all : prepare out meta file_hash w ≡ (
        ok (marked 0 meta.chunk_count),
        record w { disk = with_file out (begun file (reach file 0)) w.disk },
      )
      all =
          rw
            (
              load_fresh out file_hash meta.chunk_count w fresh,
              g.writes_out,
              lt→ltb meta.file_size (2 ^ 63) (omega (arith, v.describes.size, v.describes.bounded)),
              g.resizes meta.file_size,
              put_file-put_file out []
                  (take meta.file_size (content out (put_file out [] w))
                    ++ replicate (meta.file_size - length (content out (put_file out [] w))) 0)
                  w,
              content-put_file out [] w,
              zeros,
            )
            refl

  pub receive-Completes :
      (rest : Bytes) (n : ℕ) {w : World}
      → 0 < meta.chunk_count
      → Grants w.may_write w.may_resize w.may_map out
      → w.disk (path_for out) ≡ none
      → Peer w (answers file (wanted meta) ++ rest) (length (requests (wanted meta)) + n)
      → Completes (receive sha256 out meta) file out rest (requests (wanted meta)) n w
  unfolding receive
  receive-Completes rest n {w} some_chunk g fresh p =
      let t =
        prepare-Runs (answers file (wanted meta) ++ rest) (length (requests (wanted meta)) + n)
          (sha256 (chunk_bytes file 0)) g fresh p in
      let held = begun file (reach file 0) in
      let f = fetch-Completes rest n g (with_file_self out held w.disk) (
        Peer-mono (length (requests (wanted meta)) + n)
          (length (asks (wanted meta)) + (length (frame make_complete) + n))
          (omega (
            arith,
            ap length (asks-requests (wanted meta)),
            length-append (asks (wanted meta)) (frame make_complete),
          ))
          (Runs-Peer t)) in
      let sent : asks (wanted meta) ++ (frame make_complete ++ []) ≡ requests (wanted meta) =
        ap (λ (x : Bytes). asks (wanted meta) ++ x) (append-nil (frame make_complete))
        ∙ asks-requests (wanted meta) in
      record {
        after = f.after;
        steps = Runs-lift _ _ (v.hashed 0 some_chunk) (
            subst
              (λ (x : Bytes).
                Runs (prepare out meta (sha256 (chunk_bytes file 0)) >>= fetch sha256 out meta) tt
                  f.after rest x n w)
              sent (Runs-bind (fetch sha256 out meta) t f.steps));
        whole = f.whole;
        no_partial = f.no_partial;
        others = λ q not_out not_partial.
            f.others q not_out not_partial ∙ with_file_ne out held q w.disk not_out;
      }
