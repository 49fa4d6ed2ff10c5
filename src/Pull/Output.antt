-- ===== src/Pull/Output.antt =====
-- The file operations that run_pull of src/core/pull.cpp makes on its output file.
use embr.Base.{
  Bool, Option, drop, err, false, if◌then◌else◌, length, ltb, map_failed, none, ok, replicate,
  resize_failed, some, take, ℕ, ◌&&◌, ◌++◌, ◌-◌, ◌^◌,
}
use embr.Chunks.{ChunkManager, new_manager}
use embr.Exec.{Exec, pure, ◌>>◌}
use embr.Protocol.{Bytes}
use embr.World.{World}
use embr.World.Files.{content, open_truncate, put_file}

-- ::open with O_RDWR of a file that should be there.
unfoldable pub open_existing : Bytes → World → Bool
open_existing path w = elim (w.disk path) [ none ↦ false | some bytes ↦ w.may_write path ]

-- ::ftruncate: it cuts, or fills with zeros. A size that is no off_t is refused.
unfoldable pub resize : Bytes → ℕ → Exec World (Unit {0})
resize path size w =
    if ltb size (2 ^ 63) && w.may_resize size
    then (
      ok tt,
      put_file path (take size (content path w) ++ replicate (size - length (content path w)) 0) w,
    )
    else (err resize_failed, w)

-- ::mmap of a range that recv_file has written, so that it lies inside the file.
unfoldable pub map_range : Bytes → ℕ → ℕ → Exec World Bytes
map_range path offset len w =
    if w.may_map len then (ok (take len (drop offset (content path w))), w) else (err map_failed, w)

-- The manager to go on with, and the output open. A resume whose output cannot be opened begins
-- anew, as a transfer without partial file does.
unfoldable pub open_output : Bytes → ℕ → Option ChunkManager → Exec World ChunkManager
open_output out count none = do open_truncate out; pure (new_manager count)
open_output out count (some cm) = λ w.
    let fresh = (open_truncate out >> pure (new_manager count)) w in
    if open_existing out w then (ok cm, w) else fresh

-- Only a transfer without a partial file gives the output its size.
unfoldable pub preallocate : Bytes → ℕ → Option ChunkManager → Exec World (Unit {0})
preallocate out size none = resize out size
preallocate out size (some cm) = pure tt
