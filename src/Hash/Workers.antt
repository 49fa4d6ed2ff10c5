-- ===== src/Hash/Workers.antt =====
-- hash_compute_parallel of src/core/hash.cpp: workers that take the next chunk from a shared
-- counter, in any interleaving. SHA-256 is a parameter, taken not to fail.
-- Where a worker stands: before fetch_add, with a chunk to hash, or out of its loop.
use embr.Base.{
  ==_iff, ==_refl, Bool-cases, List, [], ap, arith, false, if◌then◌else◌, inl, inr, leb, sym, total,
  total-change, total-le, true, ℕ, ◌%◌, ◌+◌, ◌<◌, ◌==◌, ◌∷◌, ◌≡◌, ◌≤◌, ◌⊎◌,
}
use embr.Geometry.{chunk_bytes}
use embr.Protocol.{Bytes, u32_mod}
use embr.Udp.Recv.{update}

pub data WorkerAt : Type 0 where
  fetching stopped : WorkerAt
  hashing : ℕ → WorkerAt

pub record Hashing : Type 0 where
  pub next_chunk : ℕ
  pub chunk_hashes : ℕ → Bytes
  pub workers : ℕ → WorkerAt

abbrev pub is_stopped : WorkerAt → ℕ
is_stopped stopped = 1
is_stopped _ = 0

abbrev pub is_hashing : WorkerAt → ℕ
is_hashing (hashing i) = 1
is_hashing _ = 0

module _ (sha : Bytes → Bytes) (file : Bytes) (count : ℕ) where
  -- One step of worker t: fetch_add, or the hash of its chunk.
  abbrev pub worker_step : ℕ → WorkerAt → Hashing → Hashing
  worker_step t fetching h = record h {
    next_chunk = (h.next_chunk + 1) % u32_mod;
    workers = update h.workers t (if leb count h.next_chunk then stopped else hashing h.next_chunk);
  }
  worker_step t (hashing i) h = record h {
    chunk_hashes = update h.chunk_hashes i (sha (chunk_bytes file i));
    workers = update h.workers t fetching;
  }
  worker_step t stopped h = h

  -- An interleaving is the list of the workers that take the next step.
  unfoldable pub run_workers : List ℕ → Hashing → Hashing
  run_workers [] h = h
  run_workers (t ∷ ts) h = run_workers ts (worker_step t (h.workers t) h)

abbrev pub begin_hashing : Hashing
begin_hashing = record { next_chunk = 0; chunk_hashes = λ i. []; workers = λ t. fetching }

module _ (sha : Bytes → Bytes) (file : Bytes) (count n : ℕ) where
  abbrev pub IsHashed : Hashing → ℕ → Type 0
  IsHashed h i = h.chunk_hashes i ≡ sha (chunk_bytes file i)

  -- Each chunk that has been taken is hashed, or some worker is about to.
  pub record Shared (h : Hashing) : Type 0 where
    pub bounded : h.next_chunk ≤ count + total (λ t. is_stopped (h.workers t)) n
    pub over : (t : ℕ) → t < n → h.workers t ≡ stopped → count ≤ h.next_chunk
    pub taken :
        (i : ℕ)
        → i < count
        → i < h.next_chunk
        → IsHashed h i ⊎ ((t : ℕ) × (t < n) × (h.workers t ≡ hashing i))

  pub begin-Shared : Shared begin_hashing
  begin-Shared = record {
    bounded = omega arith;
    over = λ t t_in e. absurd (cc);
    taken = λ i i_in lt. absurd (omega arith);
  }

  module _ (enough : count + n < u32_mod) (h : Hashing) (s : Shared h) (t : ℕ) (t_in : t < n) where
    stopped-le : total (λ k. is_stopped (h.workers k)) n ≤ n
    stopped-le = total-le (λ k. is_stopped (h.workers k)) n (λ k. ground arith)

    pub total-update :
        (f : WorkerAt → ℕ) (w : WorkerAt)
        → total (λ k. f (update h.workers t w k)) n + f (h.workers t)
          ≡ total (λ k. f (h.workers k)) n + f w
    total-update f w = omega (
      arith,
      total-change (λ k. f (update h.workers t w k)) (λ k. f (h.workers k)) t n
          (λ k ne. ground arith) t_in,
      ap f {x = update h.workers t w t} {y = w} (ground arith),
    )

    pub counted : h.workers t ≡ fetching → (h.next_chunk + 1) % u32_mod ≡ h.next_chunk + 1
    counted e = omega (
      arith,
      s.bounded,
      enough,
      total-update is_stopped stopped,
      ap is_stopped e,
      total-le (λ k. is_stopped (update h.workers t stopped k)) n (λ k. ground arith),
    )

    hashed_now :
        (i j : ℕ)
        → (i == j) ≡ true
        → update h.chunk_hashes j (sha (chunk_bytes file j)) i ≡ sha (chunk_bytes file i)
    hashed_now i j same =
        rw same (ap (λ (m : ℕ). sha (chunk_bytes file m)) (sym ((==_iff i j).0 same)))

    pub fetch-Shared : h.workers t ≡ fetching → Shared (worker_step sha file count t fetching h)
    fetch-Shared e = record {
      bounded = elim (Bool-cases (leb count h.next_chunk)) [
        | inl late ↦
            rw late (
              omega (arith, counted e, s.bounded, total-update is_stopped stopped, ap is_stopped e))
        | inr early ↦
            rw early (let few : h.next_chunk < count = ground arith in omega (arith, counted e))
      ];
      over = λ k k_in d.
          let before : count ≤ h.next_chunk = elim (Bool-cases (k == t)) [
            | inl same ↦ ground arith
            | inr other ↦ s.over k k_in (ground arith)
          ] in
          omega (arith, counted e, before);
      taken = λ i i_in lt. elim (Bool-cases (i == h.next_chunk)) [
        | inl mine ↦
            let early : leb count h.next_chunk ≡ false = ground arith in
            inr (t, t_in, rw (early, ==_refl t) (ap hashing (sym ((==_iff i h.next_chunk).0 mine))))
        | inr earlier ↦ elim (s.taken i i_in (ground (arith, counted e))) [
          | inl hashed ↦ inl hashed
          | inr (k, k_in, at) ↦ elim (Bool-cases (k == t)) [
            | inl same ↦ absurd (ground arith)
            | inr other ↦ inr (k, k_in, rw other at)
          ]
        ]
      ];
    }

    pub hash-Shared :
        (j : ℕ) → h.workers t ≡ hashing j → Shared (worker_step sha file count t (hashing j) h)
    hash-Shared j e = record {
      bounded = omega (arith, s.bounded, total-update is_stopped fetching, ap is_stopped e);
      over = λ k k_in d. elim (Bool-cases (k == t)) [
        | inl same ↦ absurd (ground arith)
        | inr other ↦ s.over k k_in (ground arith)
      ];
      taken = λ i i_in lt. elim (s.taken i i_in lt) [
        | inl done_before ↦ elim (Bool-cases (i == j)) [
          | inl same ↦ inl (hashed_now i j same)
          | inr other ↦ inl (rw other done_before)
        ]
        | inr (k, k_in, at) ↦ elim (Bool-cases (k == t)) [
          | inl same ↦ inl (hashed_now i j (ground (arith, ap h.workers ((==_iff k t).0 same))))
          | inr other ↦ inr (k, k_in, rw other at)
        ]
      ];
    }
