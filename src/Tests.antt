-- ===== src/Tests.antt =====
-- Runs at concrete inputs: the theorems at data that meets their hypotheses.
mod Streams
mod Transfers
mod Tokens
mod Trackers
mod Commands
mod Shipments
mod Slots
mod Datagrams
mod Sessions
mod Caches
use embr.Base.{
  [], arith, false, if◌then◌else◌, ltb, none, ok, refl, replicate, some, true, ◌++◌, ◌∷◌, ◌≡◌,
}
use embr.Chunks.{ChunkManager, chunk_count}
use embr.Partial.{save}
use embr.Partial.Load.{load, size_fits, stat_size}
use embr.Partial.RoundTrip.{load-save, load_short_tail}
use embr.Protocol.{Bytes, FileMeta, Message, chunk_req, complete, file_meta}
use embr.Protocol.Build.{make_filemeta}
use embr.Protocol.Parse.{parse_filemeta}
use embr.Protocol.RoundTrip.{IsFileMeta, layout, make_filemeta-layout, parse_filemeta-layout}
use embr.Transport.{Acceptance, Arrival, accepted, again, arrived}
use embr.Wire.{recv_msg}
use embr.Wire.Frames.{frame, recv_msg-Takes}
use embr.World.{World}
use embr.World.Files.{put_file, same_bytes}
use embr.World.Stream.{Takes}

abbrev pub small_meta : FileMeta
small_meta = record {
  file_name = b'a' ∷ b'.' ∷ b'b' ∷ [];
  file_size = 5;
  chunk_size = 1048576;
  chunk_count = 1;
  chunk_hashes = replicate 32 7 ∷ [];
}

pub small_meta-IsFileMeta : IsFileMeta small_meta
small_meta-IsFileMeta = record {
  size_u64 = omega arith;
  name_short = omega arith;
  chunk_size_u32 = omega arith;
  count_u32 = omega arith;
  hashes_sized = (refl, tt);
}

make_filemeta-layout_example :
    make_filemeta small_meta ≡ ok (record { type = file_meta; payload = layout small_meta })
make_filemeta-layout_example = make_filemeta-layout small_meta small_meta-IsFileMeta refl

parse_filemeta-layout_example :
    parse_filemeta (record { type = file_meta; payload = layout small_meta ++ (9 ∷ []) })
    ≡ ok small_meta
parse_filemeta-layout_example = parse_filemeta-layout small_meta small_meta-IsFileMeta refl (9 ∷ [])

abbrev complete_msg : Message
complete_msg = record { type = complete; payload = [] }

abbrev req_msg : Message
req_msg = record { type = chunk_req; payload = 0 ∷ 0 ∷ 0 ∷ 3 ∷ [] }

-- A connection that splits its bytes, and reports EAGAIN between.
abbrev pub quiet_world : World
quiet_world = record {
  arrivals =
      arrived (2 ∷ 3 ∷ 0 ∷ [])
      ∷ Arrival.again
      ∷ arrived (0 ∷ 0 ∷ 4 ∷ 0 ∷ [])
      ∷ arrived (0 ∷ 0 ∷ 3 ∷ 77 ∷ [])
      ∷ [];
  acceptances = accepted 4 ∷ Acceptance.again ∷ replicate 20 (accepted 3);
  wire = [];
  disk = λ p. none;
  may_write = λ p. true;
  may_resize = λ n. true;
  may_map = λ n. ltb 0 n;
}

recv_msg-Takes_example : Takes recv_msg req_msg (77 ∷ []) quiet_world
unfolding frame
recv_msg-Takes_example =
    recv_msg-Takes {w = quiet_world} req_msg (77 ∷ []) ((λ e. cc), omega arith)
      (record { is_open = tt; delivers = refl })

abbrev half_done : ChunkManager
half_done = record { bitmap = true ∷ false ∷ true ∷ [] }

abbrev out_path : Bytes
out_path = b'd' ∷ b'/' ∷ b'o' ∷ []

abbrev some_hash : Bytes
some_hash = replicate 32 9

load-save_example :
    ((save out_path some_hash half_done quiet_world).0 ≡ ok tt)
    × (load out_path some_hash 3 (save out_path some_hash half_done quiet_world).1
        ≡ (if size_fits (stat_size none) 3 then ok (some half_done) else ok none))
load-save_example = load-save out_path some_hash half_done quiet_world (omega arith) refl refl

abbrev short_world : World
short_world = put_file out_path (7 ∷ 7 ∷ 7 ∷ []) quiet_world

load_short_tail_example : load out_path some_hash 1 short_world ≡ ok none
unfolding same_bytes
load_short_tail_example =
    load_short_tail out_path some_hash (7 ∷ 7 ∷ 7 ∷ []) short_world refl (omega arith) (omega arith)
