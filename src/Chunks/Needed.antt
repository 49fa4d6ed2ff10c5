-- ===== src/Chunks/Needed.antt =====
-- The list of needed chunks against the answers for single chunks.
use embr.Base.{
  Bool, List, Result, [], arith, err, false, get_or, length, not, ok, refl, suc, true, zero, ℕ, ◌+◌,
  ◌<◌, ◌==◌, ◌||◌, ◌∷◌, ◌≡◌, ◌≤◌,
}
use embr.Chunks.{ChunkManager, all_done, all_set, needed_chunks, needed_from, needs_chunk}

unfoldable pub contains : ℕ → List ℕ → Bool
contains j [] = false
contains j (x ∷ xs) = (x == j) || contains j xs

-- Every element is at least `i`, and they increase.
abbrev pub AscendsFrom : ℕ → List ℕ → Type 0
AscendsFrom i [] = Unit {0}
AscendsFrom i (x ∷ xs) = (i ≤ x) × AscendsFrom (x + 1) xs

-- What a needs_chunk that may throw says of a chunk.
abbrev pub says_needed : Result Bool → Bool
says_needed (ok b) = b
says_needed (err e) = false

AscendsFrom-mono : (i j : ℕ) (xs : List ℕ) → i ≤ j → AscendsFrom j xs → AscendsFrom i xs
AscendsFrom-mono i j [] h a = tt
AscendsFrom-mono i j (x ∷ xs) h a = (omega arith, a.1)

needed_from-AscendsFrom : (i : ℕ) (bits : List Bool) → AscendsFrom i (needed_from i bits)
unfolding needed_from
needed_from-AscendsFrom i [] = tt
needed_from-AscendsFrom i (true ∷ bits) =
    AscendsFrom-mono i (i + 1) (needed_from (i + 1) bits) (omega arith)
      (needed_from-AscendsFrom (i + 1) bits)
needed_from-AscendsFrom i (false ∷ bits) = (omega arith, needed_from-AscendsFrom (i + 1) bits)

contains_below : (i j : ℕ) (xs : List ℕ) → AscendsFrom i xs → j < i → contains j xs ≡ false
unfolding contains
contains_below i j [] a h = refl
contains_below i j (x ∷ xs) a h = ground (arith, contains_below (x + 1) j xs a.1)

contains-needed_from :
    (i : ℕ) (bits : List Bool) (k j : ℕ)
    → j ≡ i + k
    → contains j (needed_from i bits) ≡ not (get_or bits k true)
unfolding contains needed_from
contains-needed_from i [] k j e = refl
contains-needed_from i (true ∷ bits) zero j e =
    contains_below (i + 1) j (needed_from (i + 1) bits) (needed_from-AscendsFrom (i + 1) bits)
      (omega arith)
contains-needed_from i (false ∷ bits) zero j e = ground arith
contains-needed_from i (true ∷ bits) (suc k) j e =
    contains-needed_from (i + 1) bits k j (omega arith)
contains-needed_from i (false ∷ bits) (suc k) j e =
    ground (arith, contains-needed_from (i + 1) bits k j)

get_or_beyond : (bits : List Bool) (k : ℕ) (d : Bool) → length bits ≤ k → get_or bits k d ≡ d
get_or_beyond [] k d h = refl
get_or_beyond (b ∷ bits) zero d h = absurd (omega arith)
get_or_beyond (b ∷ bits) (suc k) d h = get_or_beyond bits k d (omega arith)

get_or_within :
    (bits : List Bool) (k : ℕ) (c d : Bool) → k < length bits → get_or bits k c ≡ get_or bits k d
get_or_within [] k c d h = absurd (omega arith)
get_or_within (b ∷ bits) zero c d h = refl
get_or_within (b ∷ bits) (suc k) c d h = get_or_within bits k c d (omega arith)

-- needed_chunks holds an index exactly if needs_chunk returns true for it, and is strictly
-- increasing.
pub needed_chunks_lem :
    (cm : ChunkManager) (j : ℕ)
    → (contains j (needed_chunks cm) ≡ says_needed (needs_chunk cm j))
      × AscendsFrom 0 (needed_chunks cm)
unfolding needed_chunks needs_chunk
needed_chunks_lem cm j = (
  ground (
    arith,
    contains-needed_from 0 cm.bitmap j j (omega arith),
    get_or_beyond cm.bitmap j true,
    get_or_within cm.bitmap j true false,
  ),
  needed_from-AscendsFrom 0 cm.bitmap,
)

abbrev pub is_empty {ℓ} : {A : Type ℓ} → List A → Bool
is_empty [] = true
is_empty (x ∷ xs) = false

all_set-needed_from : (i : ℕ) (bits : List Bool) → all_set bits ≡ is_empty (needed_from i bits)
unfolding all_set needed_from
all_set-needed_from i [] = refl
all_set-needed_from i (true ∷ bits) = all_set-needed_from (i + 1) bits
all_set-needed_from i (false ∷ bits) = refl

-- all_done is true exactly if needed_chunks is empty.
pub all_done-needed_chunks : (cm : ChunkManager) → all_done cm ≡ is_empty (needed_chunks cm)
unfolding all_done needed_chunks
all_done-needed_chunks cm = all_set-needed_from 0 cm.bitmap
