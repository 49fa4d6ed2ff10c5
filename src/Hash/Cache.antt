-- ===== src/Hash/Cache.antt =====
-- What hash_cache_load of src/core/hash.cpp finds after hash_cache_save.
use embr.Base.{
  All, Bool, List, Option, Result, [], ap, arith, concat, drop-append, false, if◌then◌else◌, length,
  length-append, le→ltb, none, ok, refl, some, subst, take-append, true, ℕ, ◌&&◌, ◌++◌, ◌<◌, ◌==◌,
  ◌>>=◌, ◌∷◌, ◌≡◌,
}
use embr.Hash.{le32, le64, of_le32-le32, of_le64-le64}
use embr.Hash.Load.{cache_body, hash_cache_load, read_hashes}
use embr.Hash.Save.{cache_file, hash_cache_save, hash_cache_save-put_file}
use embr.Paths.{hash_cache_path_for}
use embr.Protocol.{Bytes, hash_size, u32_mod, u64_mod}
use embr.World.{World}
use embr.World.Files.{disk-put_file_self, read_exact}

read_exact-next :
    (xs rest : Bytes) (n : ℕ) → length xs ≡ n → read_exact n (xs ++ rest) ≡ ok (xs, rest)
unfolding read_exact
read_exact-next xs rest n e =
    subst (λ (m : ℕ). read_exact m (xs ++ rest) ≡ ok (xs, rest)) e
      (rw
        (
          le→ltb (length (xs ++ rest)) (length xs) (omega (arith, length-append xs rest)),
          take-append xs rest,
          drop-append xs rest,
        )
        refl)

read_hashes-concat :
    (hashes : List Bytes)
    → All (λ h. length h ≡ hash_size) hashes
    → read_hashes (length hashes) (concat hashes) ≡ ok hashes
unfolding read_hashes
read_hashes-concat [] h = refl
read_hashes-concat (hash ∷ hashes) (e, h) =
    rw (read_exact-next hash (concat hashes) hash_size e, read_hashes-concat hashes h) refl

-- What a cache file of these fields holds for a file of those.
abbrev pub looked_up : List Bytes → Bool → Option (List Bytes)
looked_up hashes true = some hashes
looked_up hashes false = none

module _ (size mtime chunk_size size' mtime' count' : ℕ) (hashes : List Bytes)
    (sized : All (λ h. length h ≡ hash_size) hashes) (size_small : size < u64_mod)
    (mtime_small : mtime < u64_mod) (count_small : length hashes < u32_mod) where
  abbrev is_same : Bool
  is_same = size == size' && (mtime == mtime' && length hashes == count')

  read_fields :
      (same : Bool)
      → is_same ≡ same
      → (if same then (read_hashes count' (concat hashes) >>= λ hs. ok (some hs)) else ok none)
        ≡ ok (looked_up hashes same)
  read_fields true e =
      let counted : length hashes ≡ count' = ground arith in
      ap (λ (r : Result (List Bytes)). r >>= λ hs. ok (some hs))
        (subst (λ (n : ℕ). read_hashes n (concat hashes) ≡ ok hashes) counted
          (read_hashes-concat hashes sized))
  read_fields false e = refl

  cache_body-looked_up :
      cache_body size' mtime' count' (cache_file size mtime chunk_size (length hashes) hashes)
      ≡ ok (looked_up hashes is_same)
  unfolding cache_body
  cache_body-looked_up =
      let third = le32 (length hashes) ++ concat hashes in
      rw
        (
          read_exact-next (le64 size) (le64 mtime ++ (le32 chunk_size ++ third)) 8 refl,
          read_exact-next (le64 mtime) (le32 chunk_size ++ third) 8 refl,
          read_exact-next (le32 chunk_size) third 4 refl,
          read_exact-next (le32 (length hashes)) (concat hashes) 4 refl,
          of_le64-le64 size size_small,
          of_le64-le64 mtime mtime_small,
          of_le32-le32 (length hashes) count_small,
        )
        (read_fields is_same refl)

  -- For hashes of HASH_SIZE bytes, a size and a time below 2^64, fewer than 2^32 hashes and a
  -- cache file that may be written: save returns, and load then finds the hashes if it is asked
  -- for the size, the time and the count that were saved, and nothing otherwise.
  pub hash_cache_load-save :
      (file_path path : Bytes) (w : World)
      → hash_cache_path_for file_path ≡ ok path
      → w.may_write path ≡ true
      → (let saved = hash_cache_save file_path size mtime chunk_size (length hashes) hashes w in
          (saved.0 ≡ ok tt)
          × (hash_cache_load file_path size' mtime' count' saved.1 ≡ ok (looked_up hashes is_same)))
  unfolding hash_cache_load
  hash_cache_load-save file_path path w named allowed =
      let file = cache_file size mtime chunk_size (length hashes) hashes in
      let stored =
        hash_cache_save-put_file file_path path size mtime chunk_size (length hashes) hashes w named
          allowed in
      rw stored (refl, rw (named, disk-put_file_self path file w, cache_body-looked_up) refl)
