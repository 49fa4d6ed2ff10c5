-- ===== src/Push/Meta.antt =====
-- precompute_meta of src/core/push.cpp, with hash_compute_parallel of src/core/hash.cpp. SHA-256
-- and what the environment chooses are parameters: how many threads the hardware has, in which
-- order the workers take their steps, and what stat says of the file's time. A file that is there
-- may be read.
use Prim.Native.Nat.{max}
use embr.Base.{
  Bool, List, Option, Result, [], drop, err, file_empty, file_missing, if◌then◌else◌, length,
  map_failed, min, none, not, ok, out_of_fuel, some, stat_failed, suc, true, zero, ℕ, ◌%◌, ◌&&◌,
  ◌*◌, ◌+◌, ◌==◌, ◌∷◌,
}
use embr.Exec.{Exec, lift, pure, require, ◌>>=◌, ◌>>◌}
use embr.Geometry.{count_for}
use embr.Hash.Load.{hash_cache_load}
use embr.Hash.Save.{hash_cache_save}
use embr.Hash.Workers.{Hashing, begin_hashing, is_stopped, run_workers}
use embr.Paths.{rfind}
use embr.Protocol.{Bytes, FileMeta, chunk_size_const, u64_mod}
use embr.World.{World}

unfoldable pub hashes_from : (ℕ → Bytes) → ℕ → ℕ → List Bytes
hashes_from hashes i zero = []
hashes_from hashes i (suc n) = hashes i ∷ hashes_from hashes (i + 1) n

-- std::min(chunk_count, std::max(1u, std::thread::hardware_concurrency())).
abbrev pub num_workers : ℕ → ℕ → ℕ
num_workers hardware chunks = min chunks (max 1 hardware)

-- The joins of the workers wait until all have left their loops.
unfoldable pub all_stopped : ℕ → Hashing → Bool
all_stopped zero h = true
all_stopped (suc n) h = (is_stopped (h.workers n) == 1) && all_stopped n h

-- std::filesystem::path(file_path).filename().
unfoldable pub file_name_of : Bytes → Bytes
file_name_of path = elim (rfind b'/' path) [ none ↦ path | some k ↦ drop (k + 1) path ]

-- tv_sec and tv_nsec in nanoseconds, in uint64_t.
abbrev pub mtime_of : Option (ℕ × ℕ) → Result ℕ
mtime_of none = err stat_failed
mtime_of (some (sec, nsec)) = ok ((sec * 1000000000 + nsec) % u64_mod)

abbrev pub existing_file : Bytes → Exec World Bytes
existing_file path w = (elim (w.disk path) [ none ↦ err file_missing | some file ↦ ok file ], w)

unfoldable pub meta_for : Bytes → Bytes → List Bytes → FileMeta
meta_for path file hashes = record {
  file_name = file_name_of path;
  file_size = length file;
  chunk_size = chunk_size_const;
  chunk_count = count_for (length file);
  chunk_hashes = hashes;
}

abbrev pub load_cached : Bytes → ℕ → ℕ → ℕ → Exec World (Option (List Bytes))
load_cached path size mtime chunks w = (hash_cache_load path size mtime chunks w, w)

module _ (sha : Bytes → Bytes) (hardware : ℕ) (steps : List ℕ) where
  unfoldable pub hash_compute_parallel : Bytes → ℕ → Exec World (List Bytes)
  hash_compute_parallel file chunks w =
      let h = run_workers sha file chunks steps begin_hashing in
      if w.may_map (length file)
      then (if all_stopped (num_workers hardware chunks) h
          then (ok (hashes_from h.chunk_hashes 0 chunks), w)
          else (err out_of_fuel, w))
      else (err map_failed, w)

  -- What follows a look into the cache.
  unfoldable pub hash_unless : Bytes → Bytes → ℕ → Option (List Bytes) → Exec World FileMeta
  hash_unless path file mtime (some hashes) = pure (meta_for path file hashes)
  hash_unless path file mtime none = do
    hashes ← hash_compute_parallel file (count_for (length file))
    hash_cache_save path (length file) mtime chunk_size_const (count_for (length file)) hashes
    pure (meta_for path file hashes)

  unfoldable pub precompute_meta : Option (ℕ × ℕ) → Bytes → Exec World FileMeta
  precompute_meta stat path = do
    file ← existing_file path
    require (not (length file == 0)) file_empty
    mtime ← lift (mtime_of stat)
    cached ← load_cached path (length file) mtime (count_for (length file))
    hash_unless path file mtime cached
