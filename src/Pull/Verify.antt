-- ===== src/Pull/Verify.antt =====
-- How run_pull of src/core/pull.cpp verifies a chunk. SHA-256 is a parameter: the code takes it
-- from OpenSSL.
use embr.Base.{
  Bool-cases, List, Result, [], err, fault, if◌then◌else◌, inl, inr, not, ok, suc, zero, ℕ, ◌==◌,
  ◌>>=◌, ◌∷◌, ◌≡◌,
}
use embr.Chunks.{ChunkManager, mark_done, mark_todo, needs_chunk}
use embr.Chunks.Marks.{needs_chunk-mark_done, needs_chunk-mark_todo}
use embr.Protocol.{Bytes, FileMeta}
use embr.World.Files.{same_bytes}

-- An element of a vector, without the check of the bound.
unfoldable pub hash_at : List Bytes → ℕ → Result Bytes
hash_at [] i = err fault
hash_at (h ∷ hs) zero = ok h
hash_at (h ∷ hs) (suc i) = hash_at hs i

module _ (sha256 : Bytes → Bytes) where
  -- What the verified bytes say of the chunk.
  unfoldable pub settle : FileMeta → ChunkManager → ℕ → Bytes → Result ChunkManager
  settle meta cm i mapped = do
    expected ← hash_at meta.chunk_hashes i
    if same_bytes (sha256 mapped) expected then mark_done cm i else mark_todo cm i

  -- After a chunk with a hash in the metadata has been settled, it is needed exactly if its bytes
  -- do not have that hash, and every other chunk is needed exactly if it was.
  pub needs_chunk-settle :
      (meta : FileMeta) (cm : ChunkManager) (i j : ℕ) (mapped : Bytes) {expected : Bytes}
      {cm' : ChunkManager}
      → hash_at meta.chunk_hashes i ≡ ok expected
      → settle meta cm i mapped ≡ ok cm'
      → needs_chunk cm' j
        ≡ (if i == j then ok (not (same_bytes (sha256 mapped) expected)) else needs_chunk cm j)
  unfolding settle
  needs_chunk-settle meta cm i j mapped {expected} found e =
      elim (Bool-cases (same_bytes (sha256 mapped) expected)) [
        | inl same ↦ rw same (needs_chunk-mark_done cm i j (rw (found, same) at e))
        | inr differs ↦ rw differs (needs_chunk-mark_todo cm i j (rw (found, differs) at e))
      ]
