-- ===== src/Setup/Buffers.antt =====
-- The buffers of IoUringCtx (src/util/io_uring_ctx.cpp).
use embr.Base.{
  Bool-cases, List, [], ap, arith, err, get_elem?, inl, inr, length, le→leb, ltb, ltb→lt, lt→leb,
  ok, refl, setup_failed, some, suc, zero, ℕ, ◌*◌, ◌++◌, ◌+◌, ◌<◌, ◌∙◌, ◌∷◌, ◌≡◌, ◌≢◌, ◌≤◌, ◌⊎◌,
}
use embr.Egress.Slots.{count}
use embr.Setup.Rings.{IoUringCtx, Iovec, chunk_buf, frag_buf, iovecs, iovecs_from}

-- The two mappings lie apart.
pub record Apart (c : IoUringCtx) : Type 0 where
  pub apart :
      (c.chunk_mem + c.chunk_buf_count * c.chunk_buf_size ≤ c.frag_mem)
      ⊎ (c.frag_mem + c.frag_buf_count * c.frag_buf_size ≤ c.chunk_mem)

-- Two pieces of memory that share no byte.
abbrev pub Disjoint : ℕ → ℕ → ℕ → ℕ → Type 0
Disjoint a n b m = (a + n ≤ b) ⊎ (b + m ≤ a)

buf_fits : (i count size : ℕ) → i < count → i * size + size ≤ count * size
buf_fits i count size h = grind arith

bufs_apart : (i j size : ℕ) → i < j → i * size + size ≤ j * size
bufs_apart i j size h = grind arith

same_mapping : (mem size i j : ℕ) → i ≢ j → Disjoint (mem + i * size) size (mem + j * size) size
same_mapping mem size i j ne = elim (Bool-cases (ltb i j)) [
  | inl below ↦ inl (omega (arith, bufs_apart i j size (ltb→lt i j below)))
  | inr above ↦ let lt : j < i = ground arith in inr (omega (arith, bufs_apart j i size lt))
]

registered_at :
    (mem size i n k : ℕ)
    → k < n
    → get_elem? (iovecs_from mem size i n) k
      ≡ some (record { iov_base = mem + (i + k) * size; iov_len = size })
registered_at mem size i zero k h = absurd (omega arith)
registered_at mem size i (suc n) zero h =
    ap (λ (j : ℕ). some (record { iov_base = mem + j * size; iov_len = size })) (omega arith)
registered_at mem size i (suc n) (suc k) h =
    registered_at mem size (i + 1) n k (omega arith)
    ∙ ap (λ (j : ℕ). some (record { iov_base = mem + j * size; iov_len = size })) (omega arith)

length-iovecs_from : (mem size i n : ℕ) → length (iovecs_from mem size i n) ≡ n
length-iovecs_from mem size i zero = refl
length-iovecs_from mem size i (suc n) = ap suc (length-iovecs_from mem size (i + 1) n)

get_elem?-append_left :
    (xs ys : List Iovec) (k : ℕ) → k < length xs → get_elem? (xs ++ ys) k ≡ get_elem? xs k
get_elem?-append_left [] ys k h = absurd (omega arith)
get_elem?-append_left (x ∷ xs) ys zero h = refl
get_elem?-append_left (x ∷ xs) ys (suc k) h = get_elem?-append_left xs ys k (omega arith)

get_elem?-append_right :
    (xs ys : List Iovec) (n k : ℕ) → length xs ≡ n → get_elem? (xs ++ ys) (n + k) ≡ get_elem? ys k
get_elem?-append_right [] ys n k e = ap (get_elem? ys) (omega arith)
get_elem?-append_right (x ∷ xs) ys zero k e = absurd (omega arith)
get_elem?-append_right (x ∷ xs) ys (suc n) k e =
    ap (get_elem? (x ∷ xs ++ ys)) next ∙ get_elem?-append_right xs ys n k (omega arith)
  where
    next : suc n + k ≡ suc (n + k)
    next = omega arith

module _ (c : IoUringCtx) where
  abbrev pub chunk_at : ℕ → ℕ
  chunk_at i = c.chunk_mem + i * c.chunk_buf_size

  abbrev pub frag_at : ℕ → ℕ
  frag_at j = c.frag_mem + j * c.frag_buf_size

  pub chunk_buf-iovecs :
      (i : ℕ)
      → i < c.chunk_buf_count
      → (chunk_buf c i ≡ ok (chunk_at i))
        × (get_elem? (iovecs c) i
            ≡ some (record { iov_base = chunk_at i; iov_len = c.chunk_buf_size }))
  unfolding chunk_buf iovecs
  chunk_buf-iovecs i h = (
    rw (lt→leb c.chunk_buf_count i h) refl,
    get_elem?-append_left (iovecs_from c.chunk_mem c.chunk_buf_size 0 c.chunk_buf_count)
          (iovecs_from c.frag_mem c.frag_buf_size 0 c.frag_buf_count) i
          (omega (arith, length-iovecs_from c.chunk_mem c.chunk_buf_size 0 c.chunk_buf_count))
        ∙ registered_at c.chunk_mem c.chunk_buf_size 0 c.chunk_buf_count i h
        ∙ ap
            (λ (k : ℕ). some (record {
              iov_base = c.chunk_mem + k * c.chunk_buf_size;
              iov_len = c.chunk_buf_size;
            }))
            (omega arith),
  )

  pub frag_buf-iovecs :
      (j : ℕ)
      → j < c.frag_buf_count
      → (frag_buf c j ≡ ok (frag_at j))
        × (get_elem? (iovecs c) (c.chunk_buf_count + j)
            ≡ some (record { iov_base = frag_at j; iov_len = c.frag_buf_size }))
  unfolding frag_buf iovecs
  frag_buf-iovecs j h = (
    rw (lt→leb c.frag_buf_count j h) refl,
    get_elem?-append_right (iovecs_from c.chunk_mem c.chunk_buf_size 0 c.chunk_buf_count)
          (iovecs_from c.frag_mem c.frag_buf_size 0 c.frag_buf_count) c.chunk_buf_count j
          (length-iovecs_from c.chunk_mem c.chunk_buf_size 0 c.chunk_buf_count)
        ∙ registered_at c.frag_mem c.frag_buf_size 0 c.frag_buf_count j h
        ∙ ap
            (λ (k : ℕ).
              some
                (record { iov_base = c.frag_mem + k * c.frag_buf_size; iov_len = c.frag_buf_size }))
            (omega arith),
  )

-- In a context whose mappings lie apart: chunk_buf and frag_buf throw for an index that is not
-- below their count, and else return the address of the buffer that is registered under that
-- index, the fragments behind the chunks; and no two buffers share a byte.
pub buffers_lem :
    (c : IoUringCtx) (i i' j j' : ℕ)
    → Apart c
    → (c.chunk_buf_count ≤ i → chunk_buf c i ≡ err setup_failed)
      × (c.frag_buf_count ≤ j → frag_buf c j ≡ err setup_failed)
      × (i < c.chunk_buf_count
          → (chunk_buf c i ≡ ok (chunk_at c i))
            × (get_elem? (iovecs c) i
                ≡ some (record { iov_base = chunk_at c i; iov_len = c.chunk_buf_size })))
      × (j < c.frag_buf_count
          → (frag_buf c j ≡ ok (frag_at c j))
            × (get_elem? (iovecs c) (c.chunk_buf_count + j)
                ≡ some (record { iov_base = frag_at c j; iov_len = c.frag_buf_size })))
      × (i < c.chunk_buf_count
          → j < c.frag_buf_count
          → Disjoint (chunk_at c i) c.chunk_buf_size (frag_at c j) c.frag_buf_size)
      × (i ≢ i' → Disjoint (chunk_at c i) c.chunk_buf_size (chunk_at c i') c.chunk_buf_size)
      × (j ≢ j' → Disjoint (frag_at c j) c.frag_buf_size (frag_at c j') c.frag_buf_size)
unfolding chunk_buf frag_buf
buffers_lem c i i' j j' a = (
  λ h. rw (le→leb c.chunk_buf_count i h) refl,
  λ h. rw (le→leb c.frag_buf_count j h) refl,
  chunk_buf-iovecs c i,
  frag_buf-iovecs c j,
  λ h k. elim (a.apart) [
    | inl below ↦ inl (omega (arith, buf_fits i c.chunk_buf_count c.chunk_buf_size h))
    | inr above ↦ inr (omega (arith, buf_fits j c.frag_buf_count c.frag_buf_size k))
  ],
  same_mapping c.chunk_mem c.chunk_buf_size i i',
  same_mapping c.frag_mem c.frag_buf_size j j',
)
