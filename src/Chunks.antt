-- ===== src/Chunks.antt =====
-- src/core/chunk_manager.cpp: which chunks of a file are done. The count given to the constructor
-- is a uint32_t, so the casts of the size of the bitmap to uint32_t change nothing.
pub mod Marks
pub mod Needed
use embr.Base.{
  Bool, List, Result, [], err, false, get_or, if◌then◌else◌, leb, length, not, ok, out_of_range,
  replicate, set, true, ℕ, ◌%◌, ◌+◌, ◌∷◌,
}
use embr.Protocol.{u32_mod}

pub record ChunkManager : Type 0 where
  pub bitmap : List Bool

unfoldable pub new_manager : ℕ → ChunkManager
new_manager chunk_count = record { bitmap = replicate chunk_count false }

unfoldable pub mark_done : ChunkManager → ℕ → Result ChunkManager
mark_done cm chunk_index =
    if leb (length cm.bitmap) chunk_index
    then err out_of_range
    else ok (record { bitmap = set cm.bitmap chunk_index true })

unfoldable pub mark_todo : ChunkManager → ℕ → Result ChunkManager
mark_todo cm chunk_index =
    if leb (length cm.bitmap) chunk_index
    then err out_of_range
    else ok (record { bitmap = set cm.bitmap chunk_index false })

unfoldable pub needs_chunk : ChunkManager → ℕ → Result Bool
needs_chunk cm chunk_index =
    if leb (length cm.bitmap) chunk_index
    then err out_of_range
    else ok (not (get_or cm.bitmap chunk_index false))

-- The loop of needed_chunks, from index i on.
unfoldable pub needed_from : ℕ → List Bool → List ℕ
needed_from i [] = []
needed_from i (true ∷ bits) = needed_from (i + 1) bits
needed_from i (false ∷ bits) = i ∷ needed_from (i + 1) bits

unfoldable pub needed_chunks : ChunkManager → List ℕ
needed_chunks cm = needed_from 0 cm.bitmap

unfoldable pub all_set : List Bool → Bool
all_set [] = true
all_set (true ∷ bits) = all_set bits
all_set (false ∷ bits) = false

unfoldable pub all_done : ChunkManager → Bool
all_done cm = all_set cm.bitmap

unfoldable pub chunk_count : ChunkManager → ℕ
chunk_count cm = length cm.bitmap % u32_mod
