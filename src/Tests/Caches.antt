-- ===== src/Tests/Caches.antt =====
-- Examples for the hash cache of src/core/hash.cpp: a file "f" whose one chunk has a hash of zeros.
use embr.Base.{
  List, [], arith, false, length, none, ok, refl, replicate, some, true, ℕ, ◌++◌, ◌<◌, ◌∷◌, ◌≡◌,
  ◌≢◌, ◌≤◌,
}
use embr.Hash.Cache.{hash_cache_load-save, looked_up}
use embr.Hash.Finish.{live_steps, run_workers-IsHashed}
use embr.Hash.Load.{hash_cache_load}
use embr.Hash.Save.{hash_cache_save}
use embr.Hash.Workers.{IsHashed, begin_hashing, run_workers, stopped}
use embr.Paths.{dot, hash_cache_path_for, hash_suffix, rfind}
use embr.Protocol.{Bytes, FileMeta}
use embr.Pull.Chunk.{Vouches}
use embr.Push.Cached.{Finishes}
use embr.Push.Meta.{all_stopped, precompute_meta}
use embr.Push.Twice.{precompute_meta_twice}
use embr.World.{World}
use embr.World.Files.{put_file, same_bytes}

abbrev one_hash : List Bytes
one_hash = replicate 32 0 ∷ []

abbrev quiet_world : World
quiet_world = record {
  arrivals = [];
  acceptances = [];
  wire = [];
  disk = λ p. none;
  may_write = λ p. true;
  may_resize = λ n. true;
  may_map = λ n. true;
}

hash_cache_load-save_example :
    (let saved = hash_cache_save (b'f' ∷ []) 10 77 1048576 1 one_hash quiet_world in
      (saved.0 ≡ ok tt)
      × (hash_cache_load (b'f' ∷ []) 10 78 1 saved.1 ≡ ok (looked_up one_hash false)))
unfolding hash_cache_path_for rfind
hash_cache_load-save_example =
    hash_cache_load-save 10 77 1048576 10 78 1 one_hash (refl, tt) (omega arith) (omega arith)
      (omega arith) (b'f' ∷ []) (dot ++ (b'f' ∷ hash_suffix)) quiet_world refl refl

abbrev short_file : Bytes
short_file = 1 ∷ 2 ∷ 3 ∷ []

-- The hash is the bytes themselves, and two workers share one chunk.
run_workers-IsHashed_example :
    (live_steps (λ b. b) short_file 1 2 (0 ∷ 1 ∷ 0 ∷ 0 ∷ []) begin_hashing ≤ 4)
    × (((t : ℕ)
          → t < 2
          → (run_workers (λ b. b) short_file 1 (0 ∷ 1 ∷ 0 ∷ 0 ∷ []) begin_hashing).workers t
            ≡ stopped)
        → (i : ℕ) → i < 1
        → IsHashed
            (λ b. b)
            short_file
            1
            2
            (run_workers (λ b. b) short_file 1 (0 ∷ 1 ∷ 0 ∷ 0 ∷ []) begin_hashing)
            i)
run_workers-IsHashed_example =
    run_workers-IsHashed (λ b. b) short_file 1 2 (0 ∷ 1 ∷ 0 ∷ 0 ∷ []) (omega arith) (omega arith)
      (omega arith)

-- The hash says how many bytes there are.
abbrev length_hash : Bytes → Bytes
length_hash b = replicate 32 (length b)

abbrev f_path : Bytes
f_path = b'f' ∷ []

abbrev f_cache : Bytes
f_cache = dot ++ (f_path ++ hash_suffix)

abbrev one_file : World
one_file = put_file f_path short_file quiet_world

one_worker :
    Finishes length_hash (λ b. refl) short_file (omega arith) (omega arith) 1 (0 ∷ 0 ∷ 0 ∷ [])
unfolding run_workers all_stopped
one_worker = record { few = omega arith; of_workers = omega arith; stops = refl }

precompute_meta_twice_example :
    (meta : FileMeta) × (w' : World) × Vouches length_hash meta short_file
    × ((p : Bytes) → p ≢ f_cache → w'.disk p ≡ one_file.disk p)
    × (precompute_meta length_hash 1 (0 ∷ 0 ∷ 0 ∷ []) (some (1, 5)) f_path one_file ≡ (ok meta, w'))
    × (precompute_meta length_hash 4 [] (some (1, 5)) f_path w' ≡ (ok meta, w'))
unfolding hash_cache_path_for rfind same_bytes hash_cache_load
precompute_meta_twice_example =
    precompute_meta_twice length_hash (λ b. refl) f_path f_cache short_file 1 5 one_file
      (omega arith) (omega arith) refl refl refl 1 4 (0 ∷ 0 ∷ 0 ∷ []) [] one_worker refl refl
