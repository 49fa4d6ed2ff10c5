-- ===== src/Push/Cached.antt =====
-- What precompute_meta of src/core/push.cpp returns, without a cache and with the one it leaves.
use embr.Base.{
  ==_iff, All, Bool-cases, List, ap, ap₂, arith, inl, inr, length, ok, refl, subst, suc, sym, true,
  zero, ℕ, ◌*◌, ◌+◌, ◌<◌, ◌==◌, ◌^◌, ◌∙◌, ◌∷◌, ◌≡◌, ◌≤◌,
}
use embr.Geometry.{chunk_bytes, count_for}
use embr.Hash.Finish.{run_workers-IsHashed}
use embr.Hash.Workers.{
  Hashing, WorkerAt, begin_hashing, fetching, hashing, is_stopped, run_workers, stopped,
}
use embr.Protocol.{Bytes, chunk_size_const, hash_size, u32_mod}
use embr.Pull.Chunk.{Vouches}
use embr.Pull.Verify.{hash_at}
use embr.Push.Meta.{all_stopped, hash_compute_parallel, hashes_from, meta_for, num_workers}
use embr.World.{World}

length-hashes_from : (f : ℕ → Bytes) (i n : ℕ) → length (hashes_from f i n) ≡ n
unfolding hashes_from
length-hashes_from f i zero = refl
length-hashes_from f i (suc n) = ap suc (length-hashes_from f (i + 1) n)

hash_at-hashes_from :
    (f : ℕ → Bytes) (i n k : ℕ) → k < n → hash_at (hashes_from f i n) k ≡ ok (f (i + k))
unfolding hashes_from hash_at
hash_at-hashes_from f i zero k h = absurd (omega arith)
hash_at-hashes_from f i (suc n) zero h = ap (λ (j : ℕ). ok (f j)) (omega arith)
hash_at-hashes_from f i (suc n) (suc k) h =
    hash_at-hashes_from f (i + 1) n k (omega arith) ∙ ap (λ (j : ℕ). ok (f j)) (omega arith)

hashes_from_sized :
    (f : ℕ → Bytes) (size i n : ℕ)
    → ((k : ℕ) → i ≤ k → k < i + n → length (f k) ≡ size)
    → All (λ h. length h ≡ size) (hashes_from f i n)
unfolding hashes_from
hashes_from_sized f size i zero h = tt
hashes_from_sized f size i (suc n) h = (
  h i (omega arith) (omega arith),
  hashes_from_sized f size (i + 1) n (λ k a b. h k (omega arith) (omega arith)),
)

hashes_from_cong :
    (f g : ℕ → Bytes) (i n : ℕ)
    → ((k : ℕ) → i ≤ k → k < i + n → f k ≡ g k)
    → hashes_from f i n ≡ hashes_from g i n
unfolding hashes_from
hashes_from_cong f g i zero h = refl
hashes_from_cong f g i (suc n) h =
    ap₂ (λ (x : Bytes) (xs : List Bytes). x ∷ xs) (h i (omega arith) (omega arith))
      (hashes_from_cong f g (i + 1) n (λ k a b. h k (omega arith) (omega arith)))

all_stopped_lem : (n t : ℕ) (h : Hashing) → all_stopped n h ≡ true → t < n → h.workers t ≡ stopped
unfolding all_stopped
all_stopped_lem zero t h e lt = absurd (omega arith)
all_stopped_lem (suc n) t h e lt = elim (Bool-cases (t == n)) [
  | inl last ↦
      subst (λ (k : ℕ). h.workers k ≡ stopped) (sym ((==_iff t n).0 last))
        (at_stop (h.workers n) (ground arith))
  | inr before ↦ all_stopped_lem n t h (ground arith) (ground arith)
]
  where
    at_stop : (w : WorkerAt) → (is_stopped w == 1) ≡ true → w ≡ stopped
    at_stop fetching e = absurd (cc)
    at_stop (hashing i) e = absurd (cc)
    at_stop stopped e = refl

module _ (sha : Bytes → Bytes) (sized : (b : Bytes) → length (sha b) ≡ hash_size) (file : Bytes)
    (some_file : 0 < length file) (small : length file < 2 ^ 51) where
  chunk_counts :
      (0 < count_for (length file))
      × (count_for (length file) + 7 < u32_mod)
      × (length file ≤ count_for (length file) * chunk_size_const)
  chunk_counts = omega arith

  -- The hashes of the chunks.
  abbrev pub hashes_of : List Bytes
  hashes_of = hashes_from (λ i. sha (chunk_bytes file i)) 0 (count_for (length file))

  pub meta_for-Vouches : (path : Bytes) → Vouches sha (meta_for path file hashes_of) file
  unfolding meta_for
  meta_for-Vouches path = record {
    describes = record { size = refl; bounded = omega arith; count = refl };
    packable = omega (arith, chunk_counts);
    covers = omega (arith, chunk_counts);
    hashed = λ k lt.
        hash_at-hashes_from (λ i. sha (chunk_bytes file i)) 0 (count_for (length file)) k lt
        ∙ ap (λ (j : ℕ). ok (sha (chunk_bytes file j))) (omega arith);
  }

  pub hashes_of-sized : All (λ h. length h ≡ hash_size) hashes_of
  hashes_of-sized =
      hashes_from_sized (λ i. sha (chunk_bytes file i)) hash_size 0 (count_for (length file))
        (λ k a b. sized (chunk_bytes file k))

  pub length-hashes_of : length hashes_of ≡ count_for (length file)
  length-hashes_of = length-hashes_from (λ i. sha (chunk_bytes file i)) 0 (count_for (length file))

  -- An interleaving in which the workers are all that take steps, and leave their loops.
  pub record Finishes (hardware : ℕ) (steps : List ℕ) : Type 0 where
    pub few : count_for (length file) + hardware + 1 < u32_mod
    pub of_workers : All (λ t. t < num_workers hardware (count_for (length file))) steps
    pub stops :
        all_stopped
          (num_workers hardware (count_for (length file)))
          (run_workers sha file (count_for (length file)) steps begin_hashing)
        ≡ true

  pub hash_compute_parallel-hashes_of :
      (hardware : ℕ) (steps : List ℕ) (w : World)
      → Finishes hardware steps
      → w.may_map (length file) ≡ true
      → hash_compute_parallel sha hardware steps file (count_for (length file)) w
        ≡ (ok hashes_of, w)
  unfolding hash_compute_parallel
  hash_compute_parallel-hashes_of hardware steps w f mapped =
      rw (mapped, f.stops) (ap (λ (hs : List Bytes). (ok hs, w)) same)
    where
      n : ℕ
      n = num_workers hardware (count_for (length file))

      h : Hashing
      h = run_workers sha file (count_for (length file)) steps begin_hashing

      hashed : (i : ℕ) → i < count_for (length file) → h.chunk_hashes i ≡ sha (chunk_bytes file i)
      hashed =
          (run_workers-IsHashed sha file (count_for (length file)) n steps (omega (arith, f.few))
              (omega (arith, chunk_counts)) f.of_workers).1
            (λ t lt. all_stopped_lem n t h f.stops lt)

      same : hashes_from h.chunk_hashes 0 (count_for (length file)) ≡ hashes_of
      same =
          hashes_from_cong h.chunk_hashes (λ i. sha (chunk_bytes file i)) 0
            (count_for (length file)) (λ k a b. hashed k (omega arith))
