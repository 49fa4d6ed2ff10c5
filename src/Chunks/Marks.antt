-- ===== src/Chunks/Marks.antt =====
-- What marking a chunk does to what the manager answers.
use embr.Base.{arith, false, get_or-set, if◌then◌else◌, length-set, ok, true, ℕ, ◌==◌, ◌≡◌}
use embr.Chunks.{ChunkManager, mark_done, mark_todo, needs_chunk}

-- After a mark_done that returns, needs_chunk is false for that chunk and as before for any other.
pub needs_chunk-mark_done :
    (cm : ChunkManager) (i j : ℕ) {cm' : ChunkManager}
    → mark_done cm i ≡ ok cm'
    → needs_chunk cm' j ≡ (if i == j then ok false else needs_chunk cm j)
unfolding mark_done needs_chunk
needs_chunk-mark_done cm i j e =
    ground (arith, get_or-set cm.bitmap i j true false, length-set cm.bitmap i true)

pub needs_chunk-mark_todo :
    (cm : ChunkManager) (i j : ℕ) {cm' : ChunkManager}
    → mark_todo cm i ≡ ok cm'
    → needs_chunk cm' j ≡ (if i == j then ok true else needs_chunk cm j)
unfolding mark_todo needs_chunk
needs_chunk-mark_todo cm i j e =
    ground (arith, get_or-set cm.bitmap i j false false, length-set cm.bitmap i false)
