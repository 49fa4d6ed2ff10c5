-- ===== src/Hash/Save.antt =====
-- hash_cache_save of src/core/hash.cpp.
use embr.Base.{
  List, [], ap, append-nil, append_assoc, concat, ok, sym, true, ℕ, ◌++◌, ◌∙◌, ◌∷◌, ◌≡◌,
}
use embr.Chunks.{chunk_count}
use embr.Exec.{Exec, bind-ok, lift, pure, ◌>>=◌, ◌>>◌}
use embr.Hash.{le32, le64}
use embr.Paths.{hash_cache_path_for}
use embr.Protocol.{Bytes}
use embr.World.{World}
use embr.World.Files.{append_file, content-put_file, open_truncate, put_file, put_file-put_file}

unfoldable pub append_hashes : Bytes → List Bytes → Exec World (Unit {0})
append_hashes path [] = pure tt
append_hashes path (hash ∷ hashes) = do append_file path hash; append_hashes path hashes

unfoldable pub hash_cache_save : Bytes → ℕ → ℕ → ℕ → ℕ → List Bytes → Exec World (Unit {0})
hash_cache_save file_path file_size mtime_ns chunk_size chunk_count hashes = do
  path ← lift (hash_cache_path_for file_path)
  open_truncate path
  append_file path (le64 file_size)
  append_file path (le64 mtime_ns)
  append_file path (le32 chunk_size)
  append_file path (le32 chunk_count)
  append_hashes path hashes

-- The file that save leaves.
abbrev pub cache_file : ℕ → ℕ → ℕ → ℕ → List Bytes → Bytes
cache_file file_size mtime_ns chunk_size chunk_count hashes =
    le64 file_size ++ (le64 mtime_ns ++ (le32 chunk_size ++ (le32 chunk_count ++ concat hashes)))

append_file-put_file :
    (path a b : Bytes) (w : World)
    → append_file path b (put_file path a w) ≡ (ok tt, put_file path (a ++ b) w)
unfolding append_file
append_file-put_file path a b w =
    ap (λ (x : Bytes). (ok tt, put_file path (x ++ b) (put_file path a w)))
      (content-put_file path a w)
    ∙ ap (λ (v : World). (ok tt, v)) (put_file-put_file path a (a ++ b) w)

append_hashes-put_file :
    (path a : Bytes) (hashes : List Bytes) (w : World)
    → append_hashes path hashes (put_file path a w) ≡ (ok tt, put_file path (a ++ concat hashes) w)
unfolding append_hashes
append_hashes-put_file path a [] w =
    ap (λ (x : Bytes). (ok tt, put_file path x w)) (sym (append-nil a))
append_hashes-put_file path a (hash ∷ hashes) w =
    bind-ok (append_file path hash) (λ _. append_hashes path hashes)
      (append_file-put_file path a hash w)
    ∙ append_hashes-put_file path (a ++ hash) hashes w
    ∙ ap (λ (x : Bytes). (ok tt, put_file path x w)) (append_assoc a hash (concat hashes))

module _ (file_path path : Bytes) (file_size mtime_ns chunk_size chunk_count : ℕ)
    (hashes : List Bytes) (w : World) where
  pub hash_cache_save-put_file :
      hash_cache_path_for file_path ≡ ok path
      → w.may_write path ≡ true
      → hash_cache_save file_path file_size mtime_ns chunk_size chunk_count hashes w
        ≡ (ok tt, put_file path (cache_file file_size mtime_ns chunk_size chunk_count hashes) w)
  unfolding hash_cache_save open_truncate
  hash_cache_save-put_file named allowed =
      rw
        (
          named,
          allowed,
          append_file-put_file path [] (le64 file_size) w,
          append_file-put_file path (le64 file_size) (le64 mtime_ns) w,
          append_file-put_file path (le64 file_size ++ le64 mtime_ns) (le32 chunk_size) w,
          append_file-put_file path ((le64 file_size ++ le64 mtime_ns) ++ le32 chunk_size)
              (le32 chunk_count) w,
        )
        (append_hashes-put_file path
          (((le64 file_size ++ le64 mtime_ns) ++ le32 chunk_size) ++ le32 chunk_count) hashes w)
