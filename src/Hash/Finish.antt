-- ===== src/Hash/Finish.antt =====
-- The workers of hash_compute_parallel (src/core/hash.cpp) come to an end, with each chunk hashed.
use embr.Base.{
  All, Bool-cases, List, [], ap, arith, inl, inr, leb, leb→le, min, refl, total, total-ones, ℕ, ◌*◌,
  ◌+◌, ◌-◌, ◌<◌, ◌∷◌, ◌≡◌, ◌≤◌,
}
use embr.Hash.Workers.{
  Hashing, IsHashed, Shared, WorkerAt, begin-Shared, begin_hashing, counted, fetch-Shared, fetching,
  hash-Shared, hashing, run_workers, stopped, total-update, worker_step,
}
use embr.Protocol.{Bytes, u32_mod}

abbrev pub is_live : WorkerAt → ℕ
is_live fetching = 1
is_live (hashing i) = 2
is_live stopped = 0

module _ (sha : Bytes → Bytes) (file : Bytes) (count n : ℕ) where
  -- How many steps of an interleaving are those of a worker in its loop.
  unfoldable pub live_steps : List ℕ → Hashing → ℕ
  live_steps [] h = 0
  live_steps (t ∷ ts) h =
      min 1 (is_live (h.workers t)) + live_steps ts (worker_step sha file count t (h.workers t) h)

  work_left : Hashing → ℕ
  work_left h = 2 * (count - h.next_chunk) + total (λ t. is_live (h.workers t)) n

  module _ (enough : count + n < u32_mod) where
    step-Shared :
        (h : Hashing) (s : Shared sha file count n h) (t : ℕ) (t_in : t < n) (w : WorkerAt)
        → h.workers t ≡ w
        → Shared sha file count n (worker_step sha file count t w h)
          × (work_left (worker_step sha file count t w h) + min 1 (is_live w) ≡ work_left h)
    unfolding work_left
    step-Shared h s t t_in stopped e = (s, omega arith)
    step-Shared h s t t_in (hashing j) e = (
      hash-Shared sha file count n enough h s t t_in j e,
      omega (arith, total-update sha file count n enough h s t t_in is_live fetching, ap is_live e),
    )
    step-Shared h s t t_in fetching e = (fetch-Shared sha file count n enough h s t t_in e, less)
      where
        less :
            work_left (worker_step sha file count t fetching h) + min 1 (is_live fetching)
            ≡ work_left h
        less = elim (Bool-cases (leb count h.next_chunk)) [
          | inl late ↦ rw late (
              omega (
                arith,
                counted sha file count n enough h s t t_in e,
                leb→le count h.next_chunk late,
                total-update sha file count n enough h s t t_in is_live stopped,
                ap is_live e,
              ))
          | inr early ↦ rw early (
              let few : h.next_chunk < count = ground arith in
              omega (
                arith,
                counted sha file count n enough h s t t_in e,
                total-update sha file count n enough h s t t_in is_live (hashing h.next_chunk),
                ap is_live e,
              ))
        ]

    run_workers-Shared :
        (ts : List ℕ) (h : Hashing)
        → All (λ t. t < n) ts
        → Shared sha file count n h
        → Shared sha file count n (run_workers sha file count ts h)
          × (work_left (run_workers sha file count ts h) + live_steps ts h ≡ work_left h)
    unfolding run_workers live_steps
    run_workers-Shared [] h all s = (s, omega arith)
    run_workers-Shared (t ∷ ts) h (t_in, all) s =
        let (s', less) = step-Shared h s t t_in (h.workers t) refl in
        let (r, rest) =
          run_workers-Shared ts (worker_step sha file count t (h.workers t) h) all s' in
        (r, omega (arith, rest, less))

  -- For at least one worker, and fewer than 2^32 chunks and workers together: in every
  -- interleaving the workers take at most two steps for each chunk and one for each worker, and
  -- once all have stopped, each chunk below the count has its hash.
  pub run_workers-IsHashed :
      (ts : List ℕ)
      → count + n < u32_mod
      → 0 < n
      → All (λ t. t < n) ts
      → (live_steps ts begin_hashing ≤ 2 * count + n)
        × (((t : ℕ) → t < n → (run_workers sha file count ts begin_hashing).workers t ≡ stopped)
            → (i : ℕ) → i < count
            → IsHashed sha file count n (run_workers sha file count ts begin_hashing) i)
  unfolding work_left
  run_workers-IsHashed ts enough some_worker all =
      let (s, work) =
        run_workers-Shared enough ts begin_hashing all (begin-Shared sha file count n) in
      let h = run_workers sha file count ts begin_hashing in
      (
        omega (arith, work, total-ones (λ t. is_live fetching) n (λ t lt. refl)),
        λ over i i_in.
            elim (s.taken i i_in (omega (arith, s.over 0 some_worker (over 0 some_worker)))) [
              | inl hashed ↦ hashed
              | inr (t, t_in, at) ↦ absurd (ground (arith, over t t_in))
            ],
      )
