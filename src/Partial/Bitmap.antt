-- ===== src/Partial/Bitmap.antt =====
-- The bitmap of a partial file: one bit for each chunk, eight to a byte, chunk 0 lowest
-- (PartialFile::save and PartialFile::load of src/core/partial_file.cpp).
use Prim.Native.Nat.{bit_and-bitwise}
use embr.Base.{
  ==_iff, ==_refl, All, Bool, Bool-cases, List, Result, [], ap, append_assoc, ap₂, arith, bit_and,
  bit_or, false, fault, get_or, get_or-set, guard, if◌then◌else◌, inl, inr, length, length-append,
  length-replicate, length-set, ltb, lt→leb, lt→ltb, not, ok, refl, replicate, set, set-append, suc,
  sym, true, zero, ℕ, ◌%◌, ◌&&◌, ◌*◌, ◌++◌, ◌+◌, ◌-◌, ◌/◌, ◌<◌, ◌==◌, ◌>>=◌, ◌>>◌, ◌^◌, ◌||◌, ◌∙◌,
  ◌∷◌, ◌≡◌, ◌≤◌,
}
use embr.Chunks.{ChunkManager, chunk_count, mark_done}
use embr.Protocol.{Bytes, IsByte, u32_mod}

-- The rounding up is in uint32_t.
abbrev pub bitmap_bytes : ℕ → ℕ
bitmap_bytes chunk_count = (chunk_count + 8 - 1) % u32_mod / 8

-- raw[i / 8] & (1u << (i % 8)), as a condition.
abbrev pub test_bit : Bytes → ℕ → Bool
test_bit raw i = not (bit_and (get_or raw (i / 8) 0) (2 ^ (i % 8)) == 0)

-- raw[i / 8] |= (1u << (i % 8)).
abbrev pub set_bit : Bytes → ℕ → Bytes
set_bit raw i = set raw (i / 8) (bit_or (get_or raw (i / 8) 0) (2 ^ (i % 8)) % 256)

-- The loop of save, from chunk i on.
unfoldable pub pack : ℕ → List Bool → Bytes → Result Bytes
pack i [] raw = ok raw
pack i (false ∷ bits) raw = pack (i + 1) bits raw
pack i (true ∷ bits) raw = do
  guard (ltb (i / 8) (length raw)) fault
  pack (i + 1) bits (set_bit raw i)

-- The loop of load: `n` rounds from chunk i on.
unfoldable pub unpack : ℕ → ℕ → Bytes → ChunkManager → Result ChunkManager
unpack zero i raw cm = ok cm
unpack (suc n) i raw cm = do
  guard (ltb (i / 8) (length raw)) fault
  cm' ← if test_bit raw i then mark_done cm i else ok cm
  unpack n (i + 1) raw cm'

-- A test that passes at all numbers below a bound.
holds_below : (ℕ → Bool) → ℕ → Bool
holds_below test zero = true
holds_below test (suc bound) = holds_below test bound && test bound

holds_below_lem :
    (test : ℕ → Bool) (bound i : ℕ) → i < bound → holds_below test bound ≡ true → test i ≡ true
unfolding holds_below
holds_below_lem test zero i inside h = absurd (omega arith)
holds_below_lem test (suc bound) i inside h = ground (arith, holds_below_lem test bound i)

bool_eq : Bool → Bool → Bool
bool_eq true b = b
bool_eq false b = not b

bool_eq_sound : (a b : Bool) → bool_eq a b ≡ true → a ≡ b
unfolding bool_eq
bool_eq_sound true b h = sym h
bool_eq_sound false true h = cc
bool_eq_sound false false h = refl

abbrev bit_of : ℕ → ℕ → Bool
bit_of b k = not (bit_and b (2 ^ k) == 0)

abbrev or_case : ℕ → ℕ → ℕ → Bool
or_case b k m = bool_eq (bit_of (bit_or b (2 ^ k) % 256) m) ((k == m) || bit_of b m)

or_table : holds_below (λ b. holds_below (λ k. holds_below (or_case b k) 8) 8) 256 ≡ true
unfolding holds_below bool_eq
or_table = refl

-- Setting a bit of a byte sets that bit and no other.
bit_of-or :
    (b k m : ℕ)
    → b < 256
    → k < 8
    → m < 8
    → bit_of (bit_or b (2 ^ k) % 256) m ≡ ((k == m) || bit_of b m)
bit_of-or b k m hb hk hm =
    bool_eq_sound (bit_of (bit_or b (2 ^ k) % 256) m) ((k == m) || bit_of b m) (
      holds_below_lem (or_case b k) 8 m hm (
        holds_below_lem (λ k. holds_below (or_case b k) 8) 8 k hk
          (holds_below_lem (λ b. holds_below (λ k. holds_below (or_case b k) 8) 8) 256 b hb
            or_table)))

get_or-IsByte : (raw : Bytes) (i : ℕ) → All IsByte raw → get_or raw i 0 < 256
get_or-IsByte [] i a = omega arith
get_or-IsByte (b ∷ raw) zero a = a.0
get_or-IsByte (b ∷ raw) (suc i) a = get_or-IsByte raw i a.1

set-IsByte : (raw : Bytes) (i v : ℕ) → v < 256 → All IsByte raw → All IsByte (set raw i v)
set-IsByte [] i v h a = tt
set-IsByte (b ∷ raw) zero v h a = (h, a.1)
set-IsByte (b ∷ raw) (suc i) v h a = (a.0, set-IsByte raw i v h a.1)

-- The same, of the whole bitmap.
test_bit-set_bit :
    (raw : Bytes) (i j : ℕ)
    → All IsByte raw
    → i / 8 < length raw
    → test_bit (set_bit raw i) j ≡ ((i == j) || test_bit raw j)
test_bit-set_bit raw i j a h = elim (Bool-cases (i / 8 == j / 8)) [
  | inl same ↦
      let same_byte : i / 8 ≡ j / 8 = (==_iff (i / 8) (j / 8)).0 same in
      let same_bit : (i % 8 == j % 8) ≡ (i == j) = ground arith in
      rw
        (
          get_or-set raw (i / 8) (j / 8) (bit_or (get_or raw (i / 8) 0) (2 ^ (i % 8)) % 256) 0 h,
          same,
        )
        (bit_of-or (get_or raw (i / 8) 0) (i % 8) (j % 8) (get_or-IsByte raw (i / 8) a)
            (omega arith) (omega arith)
          ∙ ap₂ (λ (c : Bool) (q : ℕ). c || bit_of (get_or raw q 0) (j % 8)) same_bit same_byte)
  | inr apart ↦
      let differ : (i == j) ≡ false = ground arith in
      rw
        (
          get_or-set raw (i / 8) (j / 8) (bit_or (get_or raw (i / 8) 0) (2 ^ (i % 8)) % 256) 0 h,
          apart,
          differ,
        )
        refl
]

-- From index i on, the bitmap holds exactly these bits.
abbrev pub Spells : Bytes → ℕ → List Bool → Type 0
Spells raw i [] = Unit {0}
Spells raw i (b ∷ bits) = (i / 8 < length raw) × (test_bit raw i ≡ b) × Spells raw (i + 1) bits

-- What the loop of save leaves: the bits of the manager from i on, and below i what was there.
pub record Packed (i : ℕ) (bits : List Bool) (raw : Bytes) : Type 0 where
  pub out : Bytes
  pub runs : pack i bits raw ≡ ok out
  pub spells : Spells out i bits
  pub same_length : length out ≡ length raw
  pub below : (j : ℕ) → j < i → test_bit out j ≡ test_bit raw j

pub pack-Packed :
    (bits : List Bool) (i : ℕ) (raw : Bytes)
    → All IsByte raw
    → i + length bits ≤ 8 * length raw
    → ((j : ℕ) → i ≤ j → test_bit raw j ≡ false)
    → Packed i bits raw
unfolding pack
pack-Packed [] i raw a fits clear = record {
  out = raw;
  runs = refl;
  spells = tt;
  same_length = refl;
  below = λ j h. refl;
}
pack-Packed (false ∷ bits) i raw a fits clear =
    let p = pack-Packed bits (i + 1) raw a (omega arith) (λ j h. clear j (omega arith)) in
    record {
      out = p.out;
      runs = p.runs;
      spells =
          (omega (arith, p.same_length), p.below i (omega arith) ∙ clear i (omega arith), p.spells);
      same_length = p.same_length;
      below = λ j h. p.below j (omega arith);
    }
pack-Packed (true ∷ bits) i raw a fits clear =
    let room : i / 8 < length raw = omega arith in
    let sized : length (set_bit raw i) ≡ length raw = length-set raw (i / 8) _ in
    let set_at = λ (j : ℕ). test_bit-set_bit raw i j a room in
    let p =
      pack-Packed bits (i + 1) (set_bit raw i) (set-IsByte raw (i / 8) _ (omega arith) a)
        (omega (arith, sized)) (λ j h. ground (arith, set_at j, clear j (omega arith))) in
    record {
      out = p.out;
      runs = rw (lt→ltb (i / 8) (length raw) room) p.runs;
      spells = (
        omega (arith, p.same_length, sized),
        p.below i (omega arith) ∙ set_at i ∙ ap (λ (c : Bool). c || test_bit raw i) (==_refl i),
        p.spells,
      );
      same_length = p.same_length ∙ sized;
      below = λ j h. p.below j (omega arith) ∙ ground (arith, set_at j);
    }

mark_next :
    (b : Bool) (done rest : List Bool) (i : ℕ)
    → i ≡ length done
    → (if b
        then mark_done (record { bitmap = done ++ false ∷ rest }) i
        else ok (record { bitmap = done ++ false ∷ rest }))
      ≡ ok (record { bitmap = done ++ b ∷ rest })
unfolding mark_done
mark_next false done rest i e = refl
mark_next true done rest i e =
    rw
      (
        e,
        lt→leb (length (done ++ false ∷ rest)) (length done)
            (omega (arith, length-append done (false ∷ rest))),
      )
      (ap (λ (bits : List Bool). ok (record { bitmap = bits })) (set-append done false true rest))

-- The loop of load reads the bits that the bitmap holds into a manager.
pub unpack-Spells :
    (bits done : List Bool) (raw : Bytes) (i : ℕ)
    → i ≡ length done
    → Spells raw i bits
    → unpack (length bits) i raw (record { bitmap = done ++ replicate (length bits) false })
      ≡ ok (record { bitmap = done ++ bits })
unfolding unpack
unpack-Spells [] done raw i e s = refl
unpack-Spells (b ∷ bits) done raw i e (room, bit, rest) =
    rw (lt→ltb (i / 8) (length raw) room, bit, mark_next b done (replicate (length bits) false) i e)
      (ap (λ (x : List Bool). unpack (length bits) (i + 1) raw (record { bitmap = x }))
          (sym (append_assoc done (b ∷ []) (replicate (length bits) false)))
        ∙ unpack-Spells bits (done ++ b ∷ []) raw (i + 1)
            (omega (arith, length-append done (b ∷ []))) rest
        ∙ ap (λ (x : List Bool). ok (record { bitmap = x })) (append_assoc done (b ∷ []) bits))

get_or-zeros : (n k : ℕ) → get_or (replicate n 0) k 0 ≡ ◌+◌ 0 0
get_or-zeros zero k = refl
get_or-zeros (suc n) zero = refl
get_or-zeros (suc n) (suc k) = get_or-zeros n k

test_bit-zeros : (n j : ℕ) → test_bit (replicate n 0) j ≡ false
test_bit-zeros n j =
    rw (get_or-zeros n (j / 8)) (ap (λ (x : ℕ). not (x == 0)) (bit_and-bitwise 0 (2 ^ (j % 8))))

zeros-IsByte : (n : ℕ) → All IsByte (replicate n 0)
zeros-IsByte zero = tt
zeros-IsByte (suc n) = (omega arith, zeros-IsByte n)

-- The bitmap of the count of chunks has room for all of them.
pub pack_new :
    (bits : List Bool)
    → length bits + 7 < u32_mod
    → Packed 0 bits (replicate (bitmap_bytes (length bits)) 0)
pack_new bits h =
    pack-Packed bits 0 (replicate (bitmap_bytes (length bits)) 0)
      (zeros-IsByte (bitmap_bytes (length bits)))
      (omega (arith, length-replicate {A = ℕ} (bitmap_bytes (length bits)) 0))
      (λ j _. test_bit-zeros (bitmap_bytes (length bits)) j)
