-- ===== src/Protocol/Writer.antt =====
-- The put_ functions of src/core/protocol.cpp: they write into a buffer of fixed size at a cursor.
-- A memcpy past the end of the buffer is a `fault`.
use embr.Base.{
  List, Result, [], ap, append-nil, append_assoc, ap₂, arith, concat, drop, drop-append_ge, err,
  fault, if◌then◌else◌, leb, length, length-append, length-replicate, le→leb, ok, refl, replicate,
  suc, sym, take, take-append, zero, ℕ, ◌%◌, ◌++◌, ◌+◌, ◌/◌, ◌>>=◌, ◌^◌, ◌∙◌, ◌∷◌, ◌≡◌,
}
use embr.Protocol.{Bytes, u32_mod}
use embr.Protocol.Words.{be32}

pub record Writer : Type 0 where
  pub buf : Bytes
  pub pos : ℕ

-- Buffer(n) is zero-filled.
abbrev pub new_writer : ℕ → Writer
new_writer n = record { buf = replicate n 0; pos = 0 }

unfoldable pub put_bytes : Writer → Bytes → Result Writer
put_bytes w bytes =
    if leb (w.pos + length bytes) (length w.buf)
    then ok (record {
      buf = take w.pos w.buf ++ (bytes ++ drop (w.pos + length bytes) w.buf);
      pos = w.pos + length bytes;
    })
    else err fault

unfoldable pub put_u32 : Writer → ℕ → Result Writer
put_u32 w val = put_bytes w (be32 val)

unfoldable pub put_u64 : Writer → ℕ → Result Writer
put_u64 w val = do w' ← put_u32 w (val / 2 ^ 32 % u32_mod); put_u32 w' (val % u32_mod)

unfoldable pub put_str : Writer → Bytes → Result Writer
put_str w str = do w' ← put_u32 w (length str % u32_mod); put_bytes w' str

unfoldable pub put_hashes : Writer → List Bytes → Result Writer
put_hashes w [] = ok w
put_hashes w (hash ∷ hashes) = do w' ← put_bytes w hash; put_hashes w' hashes

-- The writer that has written `out` and has room for `n` more bytes.
abbrev pub written : Bytes → ℕ → Writer
written out n = record { buf = out ++ replicate n 0; pos = length out }

drop-replicate : (k n : ℕ) {m : ℕ} → m ≡ k + n → drop k (replicate {A = ℕ} m 0) ≡ replicate n 0
drop-replicate zero n e = ap (λ (j : ℕ). replicate {A = ℕ} j 0) (omega arith)
drop-replicate (suc k) n {m = zero} e = absurd (omega arith)
drop-replicate (suc k) n {m = suc m} e = drop-replicate k n (omega arith)

length-written : (out : Bytes) (n : ℕ) → length (written out n).buf ≡ length out + n
length-written out n =
    omega (arith, length-append out (replicate n 0), length-replicate {A = ℕ} n 0)

-- A write that fits appends its bytes to what is written, and leaves the rest of the room.
pub put_bytes-written :
    (out bytes : Bytes) (m n : ℕ)
    → m ≡ length bytes + n
    → put_bytes (written out m) bytes ≡ ok (written (out ++ bytes) n)
unfolding put_bytes
put_bytes-written out bytes m n e =
    rw
      (le→leb (length out + length bytes) (length (written out m).buf)
        (omega (arith, length-written out m)))
      (ap ok λ i. record { buf = buf_eq i; pos = pos_eq i })
  where
    pos_eq : length out + length bytes ≡ length (out ++ bytes)
    pos_eq = omega (arith, length-append out bytes)

    tail_eq : drop (length out + length bytes) (out ++ replicate m 0) ≡ replicate n 0
    tail_eq =
        drop-append_ge (length out + length bytes) out (replicate m 0) (omega arith)
        ∙ ap (λ (k : ℕ). drop k (replicate m 0)) (omega arith)
        ∙ drop-replicate (length bytes) n e

    buf_eq :
        take (length out) (out ++ replicate m 0)
          ++ (bytes ++ drop (length out + length bytes) (out ++ replicate m 0))
        ≡ (out ++ bytes) ++ replicate n 0
    buf_eq = rw (take-append out (replicate m 0), tail_eq) (sym (append_assoc out bytes _))

pub put_u32-written :
    (out : Bytes) (val m n : ℕ)
    → m ≡ 4 + n
    → put_u32 (written out m) val ≡ ok (written (out ++ be32 val) n)
unfolding put_u32
put_u32-written out val m n e = put_bytes-written out (be32 val) m n e

abbrev pub be64 : ℕ → Bytes
be64 v = be32 (v / 2 ^ 32 % u32_mod) ++ be32 (v % u32_mod)

pub put_u64-written :
    (out : Bytes) (val m n : ℕ)
    → m ≡ 8 + n
    → put_u64 (written out m) val ≡ ok (written (out ++ be64 val) n)
unfolding put_u64
put_u64-written out val m n e =
    rw (put_u32-written out (val / 2 ^ 32 % u32_mod) m (4 + n) (omega arith)) (
      put_u32-written (out ++ be32 (val / 2 ^ 32 % u32_mod)) (val % u32_mod) (4 + n) n refl
      ∙ ap (λ (o : Bytes). ok (written o n)) (append_assoc out _ _))

abbrev pub str_bytes : Bytes → Bytes
str_bytes str = be32 (length str % u32_mod) ++ str

pub put_str-written :
    (out str : Bytes) (m n : ℕ)
    → m ≡ 4 + length str + n
    → put_str (written out m) str ≡ ok (written (out ++ str_bytes str) n)
unfolding put_str
put_str-written out str m n e =
    rw (put_u32-written out (length str % u32_mod) m (length str + n) (omega arith)) (
      put_bytes-written (out ++ be32 (length str % u32_mod)) str (length str + n) n refl
      ∙ ap (λ (o : Bytes). ok (written o n)) (append_assoc out _ _))

pub put_hashes-written :
    (out : Bytes) (hashes : List Bytes) (m n : ℕ)
    → m ≡ length (concat hashes) + n
    → put_hashes (written out m) hashes ≡ ok (written (out ++ concat hashes) n)
unfolding put_hashes
put_hashes-written out [] m n e =
    ap ok (ap₂ (λ (o : Bytes) (k : ℕ). written o k) (sym (append-nil out)) (omega arith))
put_hashes-written out (h ∷ hs) m n e =
    let split : length (h ++ concat hs) ≡ length h + length (concat hs) =
      length-append h (concat hs) in
    rw (put_bytes-written out h m (length (concat hs) + n) (omega arith)) (
      put_hashes-written (out ++ h) hs (length (concat hs) + n) n refl
      ∙ ap (λ (o : Bytes). ok (written o n)) (append_assoc out h (concat hs)))
