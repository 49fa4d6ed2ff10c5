-- ===== src/Pull/Chunk.antt =====
-- One chunk of run_pull (src/core/pull.cpp): received, verified, marked and recorded.
use embr.Base.{
  ==_refl, Bool, List, [], ap, arith, drop, false, index_mismatch, length, length-append,
  length-replicate, lt→leb, min, ok, refl, replicate, set, set-append, some, subst, suc, sym, take,
  true, unexpected_message, zero, ℕ, ◌*◌, ◌++◌, ◌+◌, ◌<◌, ◌∙◌, ◌∷◌, ◌≡◌, ◌≢◌, ◌≤◌,
}
use embr.Chunks.{ChunkManager, mark_done}
use embr.Exec.{Exec}
use embr.Geometry.{chunk_bytes, chunk_len, index_inside, offset_of}
use embr.Partial.RoundTrip.{IsPackable}
use embr.Paths.{path_for}
use embr.Paths.Names.{path_for_ne}
use embr.Protocol.{Bytes, FileMeta, chunk_size_const, u32_mod}
use embr.Protocol.Small.{hdr_message, parse_chunk_hdr_lem}
use embr.Pull.{on_chunk_hdr, recv_chunk, verify_chunk}
use embr.Pull.Steps.{
  Disk, map_range-Runs, recv_file-Runs, save-Runs, with_file, with_file_ne, with_file_self,
}
use embr.Pull.Verify.{hash_at, settle}
use embr.Push.Serve.{Describes, chunk_answer}
use embr.Tcp.{patch}
use embr.Tcp.Patch.{begun, patch-begun, range_length, read-patch}
use embr.Wire.Frames.{frame, recv_msg-Talks}
use embr.World.{World}
use embr.World.Files.{same_bytes_refl}
use embr.World.Runs.{Runs, Runs-Peer, Runs-bind, Runs-lift, Runs-pure, Runs-require, Talks-Runs}
use embr.World.Talk.{Peer, Peer-regroup}

-- How much of a file is there when the first k chunks are.
abbrev pub reach : Bytes → ℕ → ℕ
reach file k = min (offset_of k) (length file)

-- A manager with the first k chunks done, and r to come.
abbrev pub marked : ℕ → ℕ → ChunkManager
marked k r = record { bitmap = replicate k true ++ replicate r false }

-- What the environment grants a transfer to `out`.
pub record Grants (may_write : Bytes → Bool) (may_resize may_map : ℕ → Bool) (out : Bytes)
    : Type 0 where
  pub writes_out : may_write out ≡ true
  pub writes_partial : may_write (path_for out) ≡ true
  pub resizes : (n : ℕ) → may_resize n ≡ true
  pub maps : (n : ℕ) → 0 < n → may_map n ≡ true

-- The files when the first k chunks of `file` are in the output: no other file has changed, but
-- for the partial file.
pub record Fetched (file out : Bytes) (k : ℕ) (before d : Disk) : Type 0 where
  pub output : d out ≡ some (begun file (reach file k))
  pub others : (p : Bytes) → p ≢ out → p ≢ path_for out → d p ≡ before p

-- A file whose chunks have the hashes of the metadata.
pub record Vouches (sha256 : Bytes → Bytes) (meta : FileMeta) (file : Bytes) : Type 0 where
  pub describes : Describes meta file
  pub packable : meta.chunk_count + 7 < u32_mod
  pub covers : length file ≤ meta.chunk_count * chunk_size_const
  pub hashed :
      (k : ℕ)
      → k < meta.chunk_count
      → hash_at meta.chunk_hashes k ≡ ok (sha256 (chunk_bytes file k))

-- Where a chunk lies.
record Range (meta : FileMeta) (file : Bytes) (k : ℕ) : Type 0 where
  small : k < u32_mod
  begins : reach file k ≡ offset_of k
  ends : offset_of k + chunk_len meta.file_size k ≡ reach file (k + 1)
  some_bytes : 0 < chunk_len meta.file_size k
  inside : offset_of k + chunk_len meta.file_size k ≤ length file
  spells : chunk_bytes file k ≡ take (chunk_len meta.file_size k) (drop (offset_of k) file)

replicate_next :
    (k : ℕ) (xs : List Bool) → replicate k true ++ (true ∷ xs) ≡ replicate (k + 1) true ++ xs
replicate_next zero xs = refl
replicate_next (suc k) xs =
    ap (λ (l : List Bool). true ∷ l) (replicate_next k xs)
    ∙ ap (λ (m : ℕ). replicate m true ++ xs) {x = suc (k + 1)} {y = suc k + 1} (omega arith)

mark_next : (k r : ℕ) → mark_done (marked k (suc r)) k ≡ ok (marked (k + 1) r)
unfolding mark_done
mark_next k r =
    let dones = replicate k true in
    rw
      (
        lt→leb (length (dones ++ (false ∷ replicate r false))) k (
            omega
              (arith, length-append dones (false ∷ replicate r false), length-replicate k true)),
        marks,
        replicate_next k (replicate r false),
      )
      refl
  where
    marks :
        set (replicate k true ++ (false ∷ replicate r false)) k true
        ≡ replicate k true ++ (true ∷ replicate r false)
    marks =
        subst
          (λ (i : ℕ).
            set (replicate k true ++ (false ∷ replicate r false)) i true
            ≡ replicate k true ++ (true ∷ replicate r false))
          (length-replicate k true) (set-append (replicate k true) false true (replicate r false))

module _ (sha256 : Bytes → Bytes) (meta : FileMeta) (file : Bytes) (v : Vouches sha256 meta file)
    (out : Bytes) where
  marked-IsPackable : (k r : ℕ) → k + suc r ≡ meta.chunk_count → IsPackable (marked (k + 1) r)
  marked-IsPackable k r e = omega (
    arith,
    length-append (replicate (k + 1) true) (replicate r false),
    length-replicate (k + 1) true,
    length-replicate r false,
    e,
    v.packable,
  )

  range : (k : ℕ) → k < meta.chunk_count → Range meta file k
  range k below =
      let d = v.describes in
      let inside : offset_of k < length file =
        index_inside (length file) k d.bounded (omega (arith, below, d.count)) in
      let same : chunk_len meta.file_size k ≡ chunk_len (length file) k =
        ap (λ (x : ℕ). chunk_len x k) d.size in
      record {
        small = omega (arith, inside, d.bounded);
        begins = omega (arith, inside);
        ends = omega (arith, inside, same, d.bounded);
        some_bytes = omega (arith, inside, same, d.bounded);
        inside = omega (arith, inside, same, d.bounded);
        spells = ap (λ (x : ℕ). take (chunk_len x k) (drop (offset_of k) file)) (sym d.size);
      }

  settle_lem :
      (k r : ℕ)
      → k < meta.chunk_count
      → settle sha256 meta (marked k (suc r)) k (chunk_bytes file k) ≡ ok (marked (k + 1) r)
  unfolding settle
  settle_lem k r below =
      rw (v.hashed k below, same_bytes_refl (sha256 (chunk_bytes file k)), mark_next k r) refl

  verify_chunk-Runs :
      (k r : ℕ) (held rest : Bytes) (n : ℕ) {w : World}
      → k + suc r ≡ meta.chunk_count
      → Grants w.may_write w.may_resize w.may_map out
      → w.disk out ≡ some held
      → Range meta file k
      → take (chunk_len meta.file_size k) (drop (offset_of k) held) ≡ chunk_bytes file k
      → Peer w rest n
      → (raw : Bytes) × Runs
          (verify_chunk sha256 out meta (marked k (suc r)) k)
          (marked (k + 1) r)
          (with_file (path_for out) raw w.disk)
          rest
          []
          n
          w
  unfolding verify_chunk
  verify_chunk-Runs k r held rest n {w} e g there range reads p =
      let below : k < meta.chunk_count = omega (arith, e) in
      let first : 0 < meta.chunk_count = omega (arith, e) in
      let t =
        map_range-Runs out held (offset_of k) (chunk_len meta.file_size k) there
          (g.maps (chunk_len meta.file_size k) range.some_bytes) p in
      let (raw, u) =
        save-Runs out (sha256 (chunk_bytes file 0)) (marked (k + 1) r) (marked-IsPackable k r e)
          g.writes_partial (Runs-Peer t) in
      (
        raw,
        Runs-bind _ t (
            Runs-lift _ _
              (ap (settle sha256 meta (marked k (suc r)) k) reads ∙ settle_lem k r below)
              (Runs-lift _ _ (v.hashed 0 first) (Runs-bind _ u (Runs-pure (Runs-Peer u))))),
      )

  -- A run that ends with the first k chunks in the output.
  pub record Extends (m : Exec World ChunkManager) (k r : ℕ) (rest : Bytes) (n : ℕ) (w : World)
      : Type 0 where
    pub after : Disk
    pub steps : Runs m (marked k r) after rest [] n w
    pub fetched : Fetched file out k w.disk after

  on_chunk_hdr-Extends :
      (k r : ℕ) (rest : Bytes) (n : ℕ) {w : World}
      → k + suc r ≡ meta.chunk_count
      → Grants w.may_write w.may_resize w.may_map out
      → w.disk out ≡ some (begun file (offset_of k))
      → Range meta file k
      → Peer w (chunk_bytes file k ++ rest) n
      → Extends
          (on_chunk_hdr sha256 out meta (marked k (suc r)) k (hdr_message k))
          (k + 1)
          r
          rest
          n
          w
  unfolding on_chunk_hdr
  on_chunk_hdr-Extends k r rest n {w} e g there range p =
      let o = offset_of k in
      let len = chunk_len meta.file_size k in
      let bs = take len (drop o file) in
      let held = patch (begun file o) o bs in
      let t =
        recv_file-Runs out (begun file o) o len bs (range_length file o len range.inside) there
          (subst (λ (x : Bytes). Peer w (x ++ rest) n) range.spells p) in
      let d = with_file out held w.disk in
      let (raw, u) =
        verify_chunk-Runs k r held rest n e g (with_file_self out held w.disk) range
          (read-patch file o len range.inside ∙ sym range.spells) (Runs-Peer t) in
      record {
        after = with_file (path_for out) raw d;
        steps = Runs-require _ unexpected_message _ refl (
            Runs-lift _ _ (parse_chunk_hdr_lem k range.small) (
              Runs-require _ index_mismatch _ (==_refl k)
                (Runs-bind (λ _. verify_chunk sha256 out meta (marked k (suc r)) k) t u)));
        fetched = record {
          output =
              with_file_ne (path_for out) raw out d (path_for_ne out)
              ∙ with_file_self out held w.disk
              ∙ ap some (patch-begun file o len range.inside)
              ∙ ap (λ (x : ℕ). some (begun file x)) range.ends;
          others = λ q not_out not_partial.
              with_file_ne (path_for out) raw q d not_partial
              ∙ with_file_ne out held q w.disk not_out;
        };
      }

  -- For metadata that gives the digest of each chunk, and a receiver that may write, resize and
  -- map: if the first k chunks are in the output and the others are zeros, the manager says so,
  -- and the answer to the request of chunk k is next on an open connection, then recv_chunk
  -- returns the manager with chunk k marked too, the first k + 1 chunks are in the output and the
  -- others zeros, and no other file but the partial file has changed.
  pub recv_chunk-Extends :
      (k r : ℕ) (rest : Bytes) (n : ℕ) {w : World}
      → k + suc r ≡ meta.chunk_count
      → Grants w.may_write w.may_resize w.may_map out
      → w.disk out ≡ some (begun file (reach file k))
      → Peer w (chunk_answer file k ++ rest) n
      → Extends (recv_chunk sha256 out meta (marked k (suc r)) k) (k + 1) r rest n w
  unfolding recv_chunk
  recv_chunk-Extends k r rest n {w} e g there p =
      let here = range k (omega (arith, e)) in
      let t = Talks-Runs (
        recv_msg-Talks (hdr_message k) (chunk_bytes file k ++ rest) n ((λ x. cc), omega arith)
          (Peer-regroup (frame (hdr_message k)) (chunk_bytes file k) rest p)) in
      let s =
        on_chunk_hdr-Extends k r rest n e g
          (there ∙ ap (λ (x : ℕ). some (begun file x)) here.begins) here (Runs-Peer t) in
      record {
        after = s.after;
        steps = Runs-bind (on_chunk_hdr sha256 out meta (marked k (suc r)) k) t s.steps;
        fetched = s.fetched;
      }
