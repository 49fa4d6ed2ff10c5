-- ===== src/Partial/RoundTrip.antt =====
-- What PartialFile::save writes, PartialFile::load reads (src/core/partial_file.cpp).
use embr.Base.{
  Bool-cases, Option, [], arith, drop-append, if◌then◌else◌, inl, inr, length, length-append,
  length-replicate, le→ltb, mod-eq_of_lt, none, ok, refl, some, take-append, take_all, true, ℕ, ◌%◌,
  ◌*◌, ◌++◌, ◌+◌, ◌-◌, ◌/◌, ◌<◌, ◌^◌, ◌∙◌, ◌≡◌, ◌≢◌,
}
use embr.Chunks.{ChunkManager, chunk_count, new_manager}
use embr.Partial.{save}
use embr.Partial.Bitmap.{bitmap_bytes, pack_new, unpack, unpack-Spells}
use embr.Partial.Load.{load, load_body, read_bitmap, size_fits, stat_size}
use embr.Paths.{path_for}
use embr.Paths.Names.{path_for_ne}
use embr.Protocol.{Bytes, chunk_size_const, hash_size, u32_mod, u64_mod}
use embr.World.{World}
use embr.World.Files.{
  append_file, content, content-put_file, disk-put_file_ne, open_truncate, put_file,
  put_file-put_file, read_exact, same_bytes_refl,
}

-- A manager whose bitmap size does not wrap in uint32_t.
abbrev pub IsPackable : ChunkManager → Type 0
IsPackable cm = length cm.bitmap + 7 < u32_mod

module _ (output_path file_hash : Bytes) (cm : ChunkManager) (w : World) where
  -- The bitmap that is written, for a manager that can be packed.
  saved_bitmap : IsPackable cm → Bytes
  saved_bitmap h = (pack_new cm.bitmap h).out

  saved : IsPackable cm → World
  saved h = put_file (path_for output_path) (file_hash ++ saved_bitmap h) w

  -- If the partial file may be written and the bitmap size does not wrap, save returns with the
  -- hash and the bitmap in the partial file and every other file as before.
  save_lem :
      (h : IsPackable cm)
      → w.may_write (path_for output_path) ≡ true
      → save output_path file_hash cm w ≡ (ok tt, saved h)
  unfolding save saved saved_bitmap open_truncate append_file chunk_count
  save_lem h writable =
      let p = path_for output_path in
      let packed = pack_new cm.bitmap h in
      rw
        (
          writable,
          put_file-put_file p [] (content p (put_file p [] w) ++ file_hash) w,
          content-put_file p [] w,
          mod-eq_of_lt {n = length cm.bitmap} {m = u32_mod} (omega arith),
          packed.runs,
          put_file-put_file p file_hash (content p (put_file p file_hash w) ++ packed.out) w,
          content-put_file p file_hash w,
        )
        refl

  pub save_writes :
      IsPackable cm
      → w.may_write (path_for output_path) ≡ true
      → (bytes : Bytes) × (save output_path file_hash cm w
          ≡ (ok tt, put_file (path_for output_path) bytes w))
  unfolding saved
  save_writes h writable = (file_hash ++ saved_bitmap h, save_lem h writable)

  after_open :
      (output : Option Bytes) (raw : Bytes)
      → length file_hash ≡ hash_size
      → length raw ≡ bitmap_bytes (length cm.bitmap)
      → unpack (length cm.bitmap) 0 raw (new_manager (length cm.bitmap)) ≡ ok cm
      → load_body output file_hash (length cm.bitmap) (file_hash ++ raw)
        ≡ (if size_fits (stat_size output) (length cm.bitmap) then ok (some cm) else ok none)
  unfolding load_body read_bitmap read_exact
  after_open output raw sized_hash sized_raw unpacked =
      let n = length cm.bitmap in
      rw
        (
          le→ltb (length (file_hash ++ raw)) hash_size (omega (arith, length-append file_hash raw)),
          ← sized_hash,
          take-append file_hash raw,
          drop-append file_hash raw,
          same_bytes_refl file_hash,
          le→ltb (length raw) (bitmap_bytes n) (omega arith),
          ← sized_raw,
          take_all (length raw) raw (omega arith),
          unpacked,
        )
        refl

  load-saved :
      (h : IsPackable cm)
      → length file_hash ≡ hash_size
      → load output_path file_hash (length cm.bitmap) (saved h) ≡ (
          if size_fits (stat_size (w.disk output_path)) (length cm.bitmap)
          then ok (some cm)
          else ok none)
  unfolding load saved saved_bitmap new_manager
  load-saved h sized_hash =
      let p = path_for output_path in
      let packed = pack_new cm.bitmap h in
      let n = length cm.bitmap in
      rw
        (
          same_bytes_refl p,
          load,
          disk-put_file_ne p (file_hash ++ packed.out) output_path w (path_for_ne output_path),
          after_open (w.disk output_path) packed.out sized_hash
              (packed.same_length ∙ length-replicate (bitmap_bytes n) 0)
              (unpack-Spells cm.bitmap [] packed.out 0 refl packed.spells),
        )
        (elim (Bool-cases (size_fits (stat_size (w.disk output_path)) n)) [
          | inl fits ↦ rw fits
          | inr differs ↦ rw differs
        ])

  -- For a hash of HASH_SIZE bytes, a manager whose bitmap size does not wrap and a partial file
  -- that may be written: save returns, and load from what it left then returns the saved manager
  -- if the output has the size that load checks, and nothing otherwise.
  pub load-save :
      IsPackable cm
      → length file_hash ≡ hash_size
      → w.may_write (path_for output_path) ≡ true
      → ((save output_path file_hash cm w).0 ≡ ok tt)
        × (load output_path file_hash (length cm.bitmap) (save output_path file_hash cm w).1 ≡ (
            if size_fits (stat_size (w.disk output_path)) (length cm.bitmap)
            then ok (some cm)
            else ok none))
  load-save h sized_hash writable =
      let e = save_lem h writable in (rw e refl, rw e (load-saved h sized_hash))

-- Whatever a partial file holds, it is not used if the output is not as long as its chunks are.
load_unfit :
    (output_path file_hash output : Bytes) (count : ℕ) (w : World)
    → w.disk output_path ≡ some output
    → length output ≢ count * chunk_size_const % u64_mod
    → load output_path file_hash count w ≡ ok none
unfolding load load_body size_fits read_exact
load_unfit output_path file_hash output count w there unfit = ground arith

-- For an output that is there, smaller than 2^52 bytes and of a size that is no multiple of
-- CHUNK_SIZE, load with the count of its chunks finds nothing, whatever the partial file holds.
pub load_short_tail :
    (output_path file_hash output : Bytes) (w : World)
    → w.disk output_path ≡ some output
    → length output < 2 ^ 52
    → length output % chunk_size_const ≢ 0
    → load output_path file_hash ((length output + chunk_size_const - 1) / chunk_size_const) w
      ≡ ok none
load_short_tail output_path file_hash output w there small short =
    load_unfit output_path file_hash output
      ((length output + chunk_size_const - 1) / chunk_size_const) w there
      (λ e. absurd (omega arith))
