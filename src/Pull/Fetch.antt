-- ===== src/Pull/Fetch.antt =====
-- The loops of run_pull (src/core/pull.cpp) against a sender that answers each request.
use embr.Base.{
  List, [], ap, append_assoc, arith, false, if◌then◌else◌, length, length-append, none, refl,
  replicate, some, subst, suc, true, zero, ℕ, ◌++◌, ◌+◌, ◌∙◌, ◌∷◌, ◌≡◌,
}
use embr.Chunks.{all_set, needed_from}
use embr.Exec.{pure}
use embr.Protocol.{Bytes, FileMeta}
use embr.Protocol.Build.{make_complete}
use embr.Protocol.Small.{make_chunk_req_lem, req_message}
use embr.Pull.{recv_chunks, send_requests}
use embr.Pull.Chunk.{Extends, Grants, Vouches, marked, reach, recv_chunk-Extends}
use embr.Pull.Steps.{Disk}
use embr.Push.Serve.{answers, chunk_answer, requests}
use embr.Tcp.Patch.{begun}
use embr.Wire.Frames.{frame, send_msg-Talks}
use embr.World.{World}
use embr.World.Files.{same_bytes}
use embr.World.Runs.{Runs-Peer, Runs-bind, Runs-pure}
use embr.World.Talk.{
  Peer, Peer-mono, Peer-regroup, Talks, Talks-Peer, Talks-bind, Talks-lift, Talks-pure,
}

-- The frames of the requests.
abbrev pub asks : List ℕ → Bytes
asks [] = []
asks (i ∷ is) = frame (req_message i) ++ asks is

pub asks-requests : (is : List ℕ) → asks is ++ frame make_complete ≡ requests is
asks-requests [] = refl
asks-requests (i ∷ is) =
    append_assoc (frame (req_message i)) (asks is) (frame make_complete)
    ∙ ap (λ (x : Bytes). frame (req_message i) ++ x) (asks-requests is)

pub send_requests-Talks :
    (is : List ℕ) (rest : Bytes) (n : ℕ) {w : World}
    → Peer w rest (length (asks is) + n)
    → Talks (send_requests is) tt rest (asks is) n w
unfolding send_requests
send_requests-Talks [] rest n p = Talks-pure (Peer-mono (0 + n) n (omega arith) p)
send_requests-Talks (i ∷ is) rest n p =
    let t = send_msg-Talks (req_message i) rest (length (asks is) + n) (
      Peer-mono (length (asks (i ∷ is)) + n)
        (length (frame (req_message i)) + (length (asks is) + n))
        (omega (arith, length-append (frame (req_message i)) (asks is))) p) in
    Talks-lift _ _ (make_chunk_req_lem (record { chunk_index = i }))
      (Talks-bind (λ _. send_requests is) t (send_requests-Talks is rest n (Talks-Peer t)))

pub all_set-replicate : (k : ℕ) → all_set (replicate k true ++ []) ≡ true
unfolding all_set
all_set-replicate zero = refl
all_set-replicate (suc k) = all_set-replicate k

-- The files after one is removed.
abbrev pub without : Bytes → Disk → Disk
without path d = λ p. if same_bytes p path then none else d p

module _ (sha256 : Bytes → Bytes) (meta : FileMeta) (file : Bytes) (v : Vouches sha256 meta file)
    (out : Bytes) where
  pub recv_chunks-Extends :
      (r k : ℕ) (rest : Bytes) (n : ℕ) {w : World}
      → k + r ≡ meta.chunk_count
      → Grants w.may_write w.may_resize w.may_map out
      → w.disk out ≡ some (begun file (reach file k))
      → Peer w (answers file (needed_from k (replicate r false)) ++ rest) n
      → Extends sha256 meta file v out
          (recv_chunks sha256 out meta (marked k r) (needed_from k (replicate r false)))
          meta.chunk_count
          0
          rest
          n
          w
  unfolding recv_chunks needed_from
  recv_chunks-Extends zero k rest n {w} e g there p =
      let last : k ≡ meta.chunk_count = omega (arith, e) in
      subst (λ (j : ℕ). Extends sha256 meta file v out (pure (marked k 0)) j 0 rest n w) last
        (record {
          after = w.disk;
          steps = Runs-pure p;
          fetched = record { output = there; others = λ q _ _. refl };
        })
  recv_chunks-Extends (suc r) k rest n {w} e g there p =
      let more = needed_from (k + 1) (replicate r false) in
      let s =
        recv_chunk-Extends sha256 meta file v out k r (answers file more ++ rest) n e g there
          (Peer-regroup (chunk_answer file k) (answers file more) rest p) in
      let u =
        recv_chunks-Extends r (k + 1) rest n (omega (arith, e)) g s.fetched.output
          (Runs-Peer s.steps) in
      record {
        after = u.after;
        steps = Runs-bind (λ cm. recv_chunks sha256 out meta cm more) s.steps u.steps;
        fetched = record {
          output = u.fetched.output;
          others = λ q not_out not_partial.
              u.fetched.others q not_out not_partial ∙ s.fetched.others q not_out not_partial;
        };
      }
