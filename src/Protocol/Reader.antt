-- ===== src/Protocol/Reader.antt =====
-- struct Reader of src/core/protocol.cpp: bounds-checked reads at a cursor.
use embr.Base.{
  Result, ap, arith, bit_or, bit_or-sum, drop, drop-append, drop_add, err, if◌then◌else◌, length,
  length-append, length-drop, le→ltb, ltb, mod-eq_of_lt, mod-le, ok, take, take-append, truncated,
  ℕ, ◌%◌, ◌*◌, ◌++◌, ◌+◌, ◌/◌, ◌<◌, ◌>>=◌, ◌>>◌, ◌^◌, ◌∙◌, ◌≡◌, ◌≤◌,
}
use embr.Protocol.{Bytes, u32_mod, u64_mod}
use embr.Protocol.Words.{be32, of_be32, of_be32-be32}
use embr.Protocol.Writer.{be64, str_bytes}

pub record Reader : Type 0 where
  pub bytes : Bytes
  pub pos : ℕ
  pub len : ℕ

-- The sum is one of size_t.
unfoldable pub ensure : Reader → ℕ → Result (Unit {0})
ensure r n = if ltb r.len ((r.pos + n) % u64_mod) then err truncated else ok tt

abbrev pub slice : Reader → ℕ → Bytes
slice r n = take n (drop r.pos r.bytes)

abbrev pub advance : Reader → ℕ → Reader
advance r n = record r { pos = r.pos + n }

unfoldable pub get_u32 : Reader → Result (ℕ × Reader)
unfolding ensure
get_u32 r = ensure r 4 >> ok (of_be32 (slice r 4), advance r 4)

unfoldable pub get_u64 : Reader → Result (ℕ × Reader)
get_u64 r = do
  (hi, r') ← get_u32 r
  (lo, r'') ← get_u32 r'
  ok (bit_or (hi * 2 ^ 32 % u64_mod) lo, r'')

unfoldable pub get_bytes : ℕ → Reader → Result (Bytes × Reader)
unfolding ensure
get_bytes n r = ensure r n >> ok (slice r n, advance r n)

unfoldable pub get_str : Reader → Result (Bytes × Reader)
get_str r = do (str_len, r') ← get_u32 r; get_bytes str_len r'

-- The reader of `bytes` that has `rest` left to read.
pub record Left (r : Reader) (rest : Bytes) : Type 0 where
  pub at : drop r.pos r.bytes ≡ rest
  pub fits : r.pos ≤ length r.bytes
  pub whole : r.len ≡ length r.bytes

pub length-Left : {r : Reader} {rest : Bytes} → Left r rest → r.pos + length rest ≡ r.len
length-Left {r} {rest} l = omega (arith, ap length l.at, length-drop r.pos r.bytes, l.fits, l.whole)

pub ensure-ok :
    {r : Reader} {rest : Bytes} (n : ℕ) → Left r rest → n ≤ length rest → ensure r n ≡ ok tt
unfolding ensure
ensure-ok {r} n l h = rw (
    le→ltb r.len ((r.pos + n) % u64_mod) (omega (arith, length-Left l, mod-le (r.pos + n) u64_mod)))

pub advance-Left :
    {r : Reader} (out rest : Bytes) → Left r (out ++ rest) → Left (advance r (length out)) rest
advance-Left {r} out rest l = record {
  at = drop_add r.pos (length out) r.bytes ∙ ap (drop (length out)) l.at ∙ drop-append out rest;
  fits = omega (arith, length-Left l, length-append out rest, l.whole);
  whole = l.whole;
}

-- Each read of bytes that are there returns them and stands behind them.
pub get_bytes-Left :
    {r : Reader} (out rest : Bytes)
    → Left r (out ++ rest)
    → get_bytes (length out) r ≡ ok (out, advance r (length out))
unfolding get_bytes
get_bytes-Left {r} out rest l =
    rw (ensure-ok (length out) l (omega (arith, length-append out rest))) (
      ap (λ (b : Bytes). ok (b, advance r (length out)))
        (ap (take (length out)) l.at ∙ take-append out rest))

pub get_u32-Left :
    {r : Reader} (v : ℕ) (rest : Bytes)
    → Left r (be32 v ++ rest)
    → v < u32_mod
    → get_u32 r ≡ ok (v, advance r 4)
unfolding get_u32
get_u32-Left {r} v rest l h = rw (ensure-ok 4 l (omega arith)) (
    ap (λ (n : ℕ). ok (n, advance r 4))
      (ap (λ (b : Bytes). of_be32 (take 4 b)) l.at ∙ of_be32-be32 v h))

module _ {r : Reader} (v : ℕ) (rest : Bytes) (l : Left r (be64 v ++ rest)) where
  high-Left : Left r (be32 (v / 2 ^ 32 % u32_mod) ++ (be32 (v % u32_mod) ++ rest))
  high-Left = l

  low-Left : Left (advance r 4) (be32 (v % u32_mod) ++ rest)
  low-Left = advance-Left (be32 (v / 2 ^ 32 % u32_mod)) (be32 (v % u32_mod) ++ rest) high-Left

  pub get_u64-Left : v < u64_mod → get_u64 r ≡ ok (v, advance (advance r 4) 4)
  unfolding get_u64
  get_u64-Left h =
      rw
        (
          get_u32-Left (v / 2 ^ 32 % u32_mod) (be32 (v % u32_mod) ++ rest) high-Left (omega arith),
          get_u32-Left (v % u32_mod) rest low-Left (omega arith),
        )
        (ap (λ (n : ℕ). ok (n, advance (advance r 4) 4)) joined)
    where
      joined : bit_or (v / 2 ^ 32 % u32_mod * 2 ^ 32 % u64_mod) (v % u32_mod) ≡ v
      joined =
          ap (λ (n : ℕ). bit_or n (v % u32_mod)) {x = v / 2 ^ 32 % u32_mod * 2 ^ 32 % u64_mod}
            {y = v / 2 ^ 32 * 2 ^ 32} (omega arith)
          ∙ bit_or-sum 32 (v / 2 ^ 32) (v % u32_mod) (omega arith)
          ∙ omega arith

  pub after_u64-Left : Left (advance (advance r 4) 4) rest
  after_u64-Left = advance-Left (be32 (v % u32_mod)) rest low-Left

module _ {r : Reader} (str rest : Bytes) (l : Left r (str_bytes str ++ rest)) where
  prefix-Left : Left r (be32 (length str % u32_mod) ++ (str ++ rest))
  prefix-Left = l

  text-Left : Left (advance r 4) (str ++ rest)
  text-Left = advance-Left (be32 (length str % u32_mod)) (str ++ rest) prefix-Left

  pub get_str-Left : length str < u32_mod → get_str r ≡ ok (str, advance (advance r 4) (length str))
  unfolding get_str
  get_str-Left h =
      rw
        (
          get_u32-Left (length str % u32_mod) (str ++ rest) prefix-Left (omega arith),
          mod-eq_of_lt h,
        )
        (get_bytes-Left str rest text-Left)

  pub after_str-Left : Left (advance (advance r 4) (length str)) rest
  after_str-Left = advance-Left str rest text-Left
