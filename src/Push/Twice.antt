-- ===== src/Push/Twice.antt =====
-- Two calls of precompute_meta of src/core/push.cpp for one file.
use embr.Base.{
  Bool, List, Result, ap, arith, false, length, none, ok, refl, some, subst, sym, true, ℕ, ◌%◌,
  ◌&&◌, ◌*◌, ◌+◌, ◌<◌, ◌==◌, ◌^◌, ◌∙◌, ◌≡◌, ◌≢◌,
}
use embr.Geometry.{count_for}
use embr.Hash.Cache.{hash_cache_load-save, looked_up}
use embr.Hash.Load.{hash_cache_load}
use embr.Hash.Save.{cache_file, hash_cache_save-put_file}
use embr.Paths.{hash_cache_path_for}
use embr.Paths.Names.{hash_cache_path_for_ne}
use embr.Protocol.{Bytes, FileMeta, chunk_size_const, hash_size, u64_mod}
use embr.Pull.Chunk.{Vouches}
use embr.Push.Cached.{
  Finishes, hash_compute_parallel-hashes_of, hashes_of, hashes_of-sized, length-hashes_of,
  meta_for-Vouches,
}
use embr.Push.Meta.{hash_unless, meta_for, precompute_meta}
use embr.World.{World}
use embr.World.Files.{disk-put_file_ne, put_file}

module _ (sha : Bytes → Bytes) (sized : (b : Bytes) → length (sha b) ≡ hash_size)
    (path cache file : Bytes) (sec nsec : ℕ) (w : World) (some_file : 0 < length file)
    (small : length file < 2 ^ 51) (named : hash_cache_path_for path ≡ ok cache)
    (here : w.disk path ≡ some file) (cache_writes : w.may_write cache ≡ true) where
  abbrev pub mtime : ℕ
  mtime = (sec * 1000000000 + nsec) % u64_mod

  abbrev pub hashes : List Bytes
  hashes = hashes_of sha sized file some_file small

  -- What the first call leaves.
  abbrev pub with_cache : World
  with_cache =
      put_file cache
        (cache_file (length file) mtime chunk_size_const (count_for (length file)) hashes) w

  counts : length hashes ≡ count_for (length file)
  counts = length-hashes_of sha sized file some_file small

  nonempty : (length file == 0) ≡ false
  nonempty = ground arith

  here_still : with_cache.disk path ≡ some file
  here_still =
      disk-put_file_ne cache
        (cache_file (length file) mtime chunk_size_const (count_for (length file)) hashes) path w
        (hash_cache_path_for_ne path named)
      ∙ here

  load-saved :
      hash_cache_load path (length file) mtime (count_for (length file)) with_cache
      ≡ ok (some hashes)
  load-saved =
      let loads =
        (hash_cache_load-save (length file) mtime chunk_size_const (length file) mtime
          (count_for (length file)) hashes (hashes_of-sized sha sized file some_file small)
          (omega arith) (omega arith) (omega (arith, counts)) path cache w named cache_writes).1 in
      let stored =
        hash_cache_save-put_file path cache (length file) mtime chunk_size_const (length hashes)
          hashes w named cache_writes in
      let same : (length file == length file)
            && ((mtime == mtime) && (length hashes == count_for (length file)))
          ≡ true =
        ground (arith, counts) in
      subst
        (λ (n : ℕ).
          hash_cache_load path (length file) mtime (count_for (length file))
            (put_file cache (cache_file (length file) mtime chunk_size_const n hashes) w)
          ≡ ok (some hashes))
        counts
        (ap
            (λ (o : Result (Unit {0}) × World).
              hash_cache_load path (length file) mtime (count_for (length file)) o.1)
            (sym stored)
          ∙ loads
          ∙ ap (λ (b : Bool). ok (looked_up hashes b)) same)

  pub first_call :
      (hardware : ℕ) (steps : List ℕ)
      → Finishes sha sized file some_file small hardware steps
      → w.may_map (length file) ≡ true
      → hash_cache_load path (length file) mtime (count_for (length file)) w ≡ ok none
      → precompute_meta sha hardware steps (some (sec, nsec)) path w
        ≡ (ok (meta_for path file hashes), with_cache)
  unfolding precompute_meta hash_unless
  first_call hardware steps f mapped missing =
      rw
        (
          here,
          nonempty,
          missing,
          hash_compute_parallel-hashes_of sha sized file some_file small hardware steps w f mapped,
          hash_cache_save-put_file path cache (length file) mtime chunk_size_const
              (count_for (length file)) hashes w named cache_writes,
        )
        refl

  next_call :
      (hardware : ℕ) (steps : List ℕ)
      → precompute_meta sha hardware steps (some (sec, nsec)) path with_cache
        ≡ (ok (meta_for path file hashes), with_cache)
  unfolding precompute_meta hash_unless
  next_call hardware steps = rw (here_still, nonempty, load-saved) refl

  -- For a file that is not empty, of fewer than 2^51 bytes, that has no usable cache, may be
  -- mapped, and whose cache may be written, and any interleaving in which the workers leave their
  -- loops: precompute_meta returns metadata that gives the digest of each chunk of the file, and
  -- changes no file but the cache; a second call on what it leaves, of the same modification time,
  -- returns the same metadata and changes nothing, whatever its workers would do.
  pub precompute_meta_twice :
      (hardware hardware' : ℕ) (steps steps' : List ℕ)
      → Finishes sha sized file some_file small hardware steps
      → w.may_map (length file) ≡ true
      → hash_cache_load path (length file) mtime (count_for (length file)) w ≡ ok none
      → (meta : FileMeta) × (w' : World) × Vouches sha meta file
        × ((p : Bytes) → p ≢ cache → w'.disk p ≡ w.disk p)
        × (precompute_meta sha hardware steps (some (sec, nsec)) path w ≡ (ok meta, w'))
        × (precompute_meta sha hardware' steps' (some (sec, nsec)) path w' ≡ (ok meta, w'))
  precompute_meta_twice hardware hardware' steps steps' f mapped missing = (
    meta_for path file hashes,
    with_cache,
    meta_for-Vouches sha sized file some_file small path,
    λ p other.
        disk-put_file_ne cache
          (cache_file (length file) mtime chunk_size_const (count_for (length file)) hashes) p w
          other,
    first_call hardware steps f mapped missing,
    next_call hardware' steps',
  )
