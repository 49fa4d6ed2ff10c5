-- ===== src/Setup/Rings.antt =====
-- IoUringCtx of src/util/io_uring_ctx.cpp: its ring, its two mappings and the buffers in them.
use embr.Base.{
  Bool, List, Result, [], err, if◌then◌else◌, leb, ok, setup_failed, suc, zero, ℕ, ◌*◌, ◌++◌, ◌+◌,
  ◌||◌, ◌∷◌,
}
use embr.Exec.{Exec, pure, ◌>>◌}
use embr.Setup.{Ledger, Resource, acquire, check, chunk_memory, frag_memory, ring}

pub data RingCall : Type 0 where
  queue_init map_chunks map_frags register_buffers : RingCall

pub record IoUringCtx : Type 0 where
  pub chunk_mem : ℕ
  pub frag_mem : ℕ
  pub chunk_buf_count : ℕ
  pub chunk_buf_size : ℕ
  pub frag_buf_count : ℕ
  pub frag_buf_size : ℕ
  pub registered_buffers : Bool

-- A buffer that is registered: its address and length.
pub record Iovec : Type 0 where
  pub iov_base : ℕ
  pub iov_len : ℕ

abbrev pub iovecs_from : ℕ → ℕ → ℕ → ℕ → List Iovec
iovecs_from mem size i zero = []
iovecs_from mem size i (suc n) =
    record { iov_base = mem + i * size; iov_len = size } ∷ iovecs_from mem size (i + 1) n

unfoldable pub iovecs : IoUringCtx → List Iovec
iovecs c =
    iovecs_from c.chunk_mem c.chunk_buf_size 0 c.chunk_buf_count
    ++ iovecs_from c.frag_mem c.frag_buf_size 0 c.frag_buf_count

-- Which calls work, and whether a failure of register_buffers is ENOMEM: the buffers are used
-- unregistered then.
module _ (works : RingCall → Bool) (out_of_memlock : Bool) where
  -- The constructor, for the addresses that mmap returns.
  unfoldable pub new_io_uring_ctx : IoUringCtx → Exec Ledger IoUringCtx
  new_io_uring_ctx c = do
    check (works queue_init) []
    acquire ring
    check (works map_chunks) (ring ∷ [])
    acquire chunk_memory
    check (works map_frags) (chunk_memory ∷ ring ∷ [])
    acquire frag_memory
    check (works register_buffers || out_of_memlock) (frag_memory ∷ chunk_memory ∷ ring ∷ [])
    pure (record c { registered_buffers = works register_buffers })

-- What the destructor frees, in its order.
abbrev pub io_uring_destructor : List Resource
io_uring_destructor = ring ∷ frag_memory ∷ chunk_memory ∷ []

unfoldable pub chunk_buf : IoUringCtx → ℕ → Result ℕ
chunk_buf c idx =
    if leb c.chunk_buf_count idx
    then err setup_failed
    else ok (c.chunk_mem + idx * c.chunk_buf_size)

unfoldable pub frag_buf : IoUringCtx → ℕ → Result ℕ
frag_buf c idx =
    if leb c.frag_buf_count idx then err setup_failed else ok (c.frag_mem + idx * c.frag_buf_size)
