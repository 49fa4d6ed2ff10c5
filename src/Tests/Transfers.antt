-- ===== src/Tests/Transfers.antt =====
-- Runs of a pull session and of a whole transfer, with a toy digest.
use embr.Base.{
  [], append-nil, arith, false, if◌then◌else◌, length, lt→ltb, not, ok, refl, replicate, suc, true,
  zero, ℕ, ◌+◌, ◌<◌, ◌==◌, ◌∷◌, ◌≡◌,
}
use embr.Chunks.{mark_done, mark_todo, needed_from, needs_chunk}
use embr.Geometry.{chunk_bytes}
use embr.Protocol.{Bytes}
use embr.Protocol.Build.{make_complete}
use embr.Protocol.RoundTrip.{layout}
use embr.Pull.{recv_chunk, run_pull}
use embr.Pull.Chunk.{Extends, Grants, Vouches, marked, reach, recv_chunk-Extends}
use embr.Pull.Steps.{with_file, with_file_self}
use embr.Pull.Verify.{hash_at, needs_chunk-settle, settle}
use embr.Pull.Whole.{Completes}
use embr.Push.{run_push}
use embr.Push.Serve.{chunk_answer}
use embr.Tcp.Patch.{begun}
use embr.Tests.{quiet_world, small_meta, small_meta-IsFileMeta}
use embr.Tests.Streams.{small_file, small_meta-Describes}
use embr.Transfer.{IsOffered, pull_sends, push_sends, transfer_lem}
use embr.Transport.{accepted, arrived}
use embr.Wire.Frames.{frame}
use embr.World.{World}
use embr.World.Files.{same_bytes}
use embr.World.Talk.{Peer, Talks}

abbrev pub toy_digest : Bytes → Bytes
toy_digest bs = replicate 32 (length bs + 2)

small_hashed :
    (k : ℕ)
    → k < small_meta.chunk_count
    → hash_at small_meta.chunk_hashes k ≡ ok (toy_digest (chunk_bytes small_file k))
unfolding hash_at
small_hashed zero below = refl
small_hashed (suc k) below = absurd (omega arith)

small_meta-Vouches : Vouches toy_digest small_meta small_file
small_meta-Vouches = record {
  describes = small_meta-Describes;
  packable = omega arith;
  covers = omega arith;
  hashed = small_hashed;
}

small_meta-IsOffered : IsOffered small_meta
unfolding layout
small_meta-IsOffered = record {
  is_file_meta = small_meta-IsFileMeta;
  counted = refl;
  framed = omega arith;
  some_chunk = omega arith;
}

abbrev pub out_file : Bytes
out_file = b'o' ∷ b'u' ∷ b't' ∷ []

abbrev pub pulling_world : World
pulling_world = record quiet_world {
  arrivals = arrived (push_sends small_meta small_file) ∷ [];
  acceptances = replicate 40 (accepted 7);
}

abbrev pub serving_world : World
serving_world = record quiet_world {
  arrivals = arrived (pull_sends small_meta) ∷ [];
  acceptances = replicate 80 (accepted 3);
}

pub all_granted : Grants quiet_world.may_write quiet_world.may_resize quiet_world.may_map out_file
all_granted = record {
  writes_out = refl;
  writes_partial = refl;
  resizes = λ n. refl;
  maps = λ n some_bytes. lt→ltb 0 n some_bytes;
}

pub served : Peer serving_world (pull_sends small_meta) (length (push_sends small_meta small_file))
unfolding frame layout make_complete needed_from
served = record {
  incoming = record { is_open = tt; delivers = append-nil (pull_sends small_meta) };
  ready = record { is_ready = omega arith; has_room = omega arith };
}

pub pulled : Peer pulling_world (push_sends small_meta small_file) (length (pull_sends small_meta))
unfolding frame layout make_complete needed_from
pulled = record {
  incoming = record { is_open = tt; delivers = append-nil (push_sends small_meta small_file) };
  ready = record { is_ready = omega arith; has_room = omega arith };
}

transfer_lem_example :
    Talks (run_push 2 small_file small_meta) 1 [] (push_sends small_meta small_file) 0 serving_world
    × Completes
        (run_pull toy_digest out_file)
        small_file
        out_file
        []
        (pull_sends small_meta)
        0
        pulling_world
transfer_lem_example =
    transfer_lem toy_digest small_meta small_file small_meta-Vouches small_meta-IsOffered out_file
      {ws = serving_world} {wr = pulling_world} all_granted refl served pulled

abbrev chunk_world : World
chunk_world = record quiet_world {
  arrivals = arrived (chunk_answer small_file 0) ∷ [];
  disk = with_file out_file (begun small_file (reach small_file 0)) quiet_world.disk;
}

recv_chunk-Extends_example :
    Extends toy_digest small_meta small_file small_meta-Vouches out_file
      (recv_chunk toy_digest out_file small_meta (marked 0 1) 0)
      1
      0
      []
      2
      chunk_world
unfolding frame
recv_chunk-Extends_example =
    recv_chunk-Extends toy_digest small_meta small_file small_meta-Vouches out_file 0 0 [] 2
      {w = chunk_world} refl all_granted
      (with_file_self out_file (begun small_file (reach small_file 0)) quiet_world.disk)
      (record {
        incoming = record { is_open = tt; delivers = refl };
        ready = record { is_ready = omega arith; has_room = omega arith };
      })

-- A chunk whose bytes are cut short stays needed.
needs_chunk-settle_example : needs_chunk (record { bitmap = false ∷ [] }) 0 ≡ (
    if 0 == 0
    then ok (not (same_bytes (toy_digest (9 ∷ [])) (replicate 32 7)))
    else needs_chunk (record { bitmap = true ∷ [] }) 0)
unfolding settle hash_at mark_done mark_todo same_bytes
needs_chunk-settle_example =
    needs_chunk-settle toy_digest small_meta (record { bitmap = true ∷ [] }) 0 0 (9 ∷ []) refl refl
