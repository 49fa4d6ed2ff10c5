-- ===== src/Shipping.antt =====
-- From the file of the sender to the output of the receiver: precompute_meta and run_push of
-- src/core/push.cpp, and run_pull of src/core/pull.cpp.
use embr.Base.{
  List, Option-cases, Result, [], ap, arith, inl, inr, length, length-drop, none, ok, some, true, ℕ,
  ◌+◌, ◌<◌, ◌^◌, ◌≡◌, ◌≤◌,
}
use embr.Geometry.{count_for}
use embr.Hash.Load.{hash_cache_load}
use embr.Paths.{hash_cache_path_for, path_for, rfind}
use embr.Protocol.{Bytes, FileMeta, hash_size, max_payload_size, u32_mod}
use embr.Protocol.RoundTrip.{layout}
use embr.Pull.{output_for, run_pull}
use embr.Pull.Chunk.{Grants}
use embr.Pull.Whole.{Completes}
use embr.Push.{run_push}
use embr.Push.Cached.{Finishes, hashes_of, hashes_of-sized, length-hashes_of, meta_for-Vouches}
use embr.Push.Meta.{file_name_of, meta_for, precompute_meta}
use embr.Push.Twice.{first_call, mtime}
use embr.Transfer.{IsOffered, pull_sends, push_sends, transfer_lem}
use embr.World.{World}
use embr.World.Talk.{Peer, Talks}

length-file_name_of : (path : Bytes) → length (file_name_of path) ≤ length path
unfolding file_name_of
length-file_name_of path = elim (Option-cases (rfind b'/' path)) [
  | inl e ↦ rw (e, file_name_of) (omega arith)
  | inr (k, e) ↦ rw (e, file_name_of) (omega (arith, length-drop (k + 1) path))
]

module _ (sha : Bytes → Bytes) (sized : (b : Bytes) → length (sha b) ≡ hash_size)
    (path cache file : Bytes) (sec nsec : ℕ) (w : World) (some_file : 0 < length file)
    (small : length file < 2 ^ 51) (named : hash_cache_path_for path ≡ ok cache)
    (here : w.disk path ≡ some file) (cache_writes : w.may_write cache ≡ true) where
  -- The metadata of the file.
  abbrev pub its_meta : FileMeta
  its_meta = meta_for path file (hashes_of sha sized file some_file small)

  its_meta-IsOffered :
      length path < u32_mod → length (layout its_meta) ≤ max_payload_size → IsOffered its_meta
  unfolding meta_for
  its_meta-IsOffered short framed = record {
    is_file_meta = record {
      size_u64 = omega arith;
      name_short = omega (arith, length-file_name_of path);
      chunk_size_u32 = omega arith;
      count_u32 = omega arith;
      hashes_sized = hashes_of-sized sha sized file some_file small;
    };
    counted = length-hashes_of sha sized file some_file small;
    framed = framed;
    some_chunk = omega arith;
  }

  -- For a file on the sender's disk that is not empty, of fewer than 2^51 bytes, with no usable
  -- cache, that may be mapped and whose cache may be written, and metadata that fits its frame,
  -- whatever the interleaving in which the hash workers end: precompute_meta returns metadata with
  -- which, if each end is then delivered what the other sends, in any open split and with any
  -- acceptances that have room, and the receiver may write, resize and map and has no partial
  -- file, run_push sends every chunk and run_pull returns with exactly the bytes of the sender's
  -- file in its output.
  pub shipped_lem :
      (hardware : ℕ) (steps : List ℕ) (output_path : Bytes) {ws wr : World}
      → Finishes sha sized file some_file small hardware steps
      → w.may_map (length file) ≡ true
      → hash_cache_load path
          (length file)
          (mtime sha sized path cache file sec nsec w some_file small named here cache_writes)
          (count_for (length file))
          w
        ≡ ok none
      → length path < u32_mod
      → length (layout its_meta) ≤ max_payload_size
      → Grants wr.may_write wr.may_resize wr.may_map (output_for output_path its_meta)
      → wr.disk (path_for (output_for output_path its_meta)) ≡ none
      → Peer ws (pull_sends its_meta) (length (push_sends its_meta file))
      → Peer wr (push_sends its_meta file) (length (pull_sends its_meta))
      → ((precompute_meta sha hardware steps (some (sec, nsec)) path w).0 ≡ ok its_meta)
        × Talks
            (run_push (its_meta.chunk_count + 1) file its_meta)
            its_meta.chunk_count
            []
            (push_sends its_meta file)
            0
            ws
        × Completes
            (run_pull sha output_path)
            file
            (output_for output_path its_meta)
            []
            (pull_sends its_meta)
            0
            wr
  shipped_lem hardware steps output_path {ws} f mapped missing short framed g fresh p q =
      let made =
        first_call sha sized path cache file sec nsec w some_file small named here cache_writes
          hardware steps f mapped missing in
      let moved =
        transfer_lem sha its_meta file (meta_for-Vouches sha sized file some_file small path)
          (its_meta-IsOffered short framed) output_path {ws = ws} g fresh p q in
      (ap (λ (r : Result FileMeta × World). r.0) made, moved.0, moved.1)
