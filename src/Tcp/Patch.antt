-- ===== src/Tcp/Patch.antt =====
-- Writing the next range of a file whose head is there and whose tail is zeros.
use embr.Base.{
  [], ap, append_assoc, arith, drop, drop-append, drop_add, length, length-drop, length-take, refl,
  replicate, subst, suc, sym, take, take-append, zero, ℕ, ◌++◌, ◌+◌, ◌-◌, ◌∙◌, ◌∷◌, ◌≡◌, ◌≤◌,
}
use embr.Protocol.{Bytes}
use embr.Tcp.{patch}

drop-replicate : (m n a : ℕ) → drop m (replicate n a) ≡ replicate (n - m) a
drop-replicate zero n a = ap (λ (k : ℕ). replicate k a) (omega arith)
drop-replicate (suc m) zero a = ap (λ (k : ℕ). replicate k a) {x = 0} {y = 0 - suc m} (omega arith)
drop-replicate (suc m) (suc n) a =
    drop-replicate m n a
    ∙ ap (λ (k : ℕ). replicate k a) {x = n - m} {y = suc n - suc m} (omega arith)

pub take_nil : (n : ℕ) → take {A = ℕ} n [] ≡ []
take_nil zero = refl
take_nil (suc n) = refl

take_add : (m n : ℕ) (xs : Bytes) → take (m + n) xs ≡ take m xs ++ take n (drop m xs)
take_add zero n xs = ap (λ (k : ℕ). take k xs) {x = 0 + n} {y = n} (omega arith)
take_add (suc m) n [] = take_nil (suc m + n) ∙ sym (take_nil n)
take_add (suc m) n (x ∷ xs) =
    ap (λ (k : ℕ). take k (x ∷ xs)) {x = suc m + n} {y = suc (m + n)} (omega arith)
    ∙ ap (λ (l : Bytes). x ∷ l) (take_add m n xs)

patch_head :
    (xs bs : Bytes) (m : ℕ)
    → patch (xs ++ replicate m 0) (length xs) bs ≡ xs ++ (bs ++ replicate (m - length bs) 0)
patch_head xs [] m = ap (λ (k : ℕ). xs ++ replicate k 0) {x = m} {y = m - 0} (omega arith)
patch_head xs (b ∷ bs) m =
    rw
      (
        append_assoc xs (replicate m 0) (replicate (length xs) 0),
        take-append xs (replicate m 0 ++ replicate (length xs) 0),
        drop_add (length xs) (length (b ∷ bs)) (xs ++ replicate m 0),
        drop-append xs (replicate m 0),
        drop-replicate (length (b ∷ bs)) m 0,
      )
      refl

-- The first `o` bytes of a file, and zeros for the others.
abbrev pub begun : Bytes → ℕ → Bytes
begun file o = take o file ++ replicate (length file - o) 0

module _ (file : Bytes) (o len : ℕ) (inside : o + len ≤ length file) where
  head_length : length (take o file) ≡ o
  head_length = omega (arith, length-take o file)

  pub range_length : length (take len (drop o file)) ≡ len
  range_length = omega (arith, length-take len (drop o file), length-drop o file)

  left_zeros : Bytes
  left_zeros = replicate (length file - (o + len)) 0

  split :
      patch (begun file o) o (take len (drop o file))
      ≡ take o file ++ (take len (drop o file) ++ left_zeros)
  unfolding left_zeros
  split =
      subst
        (λ (k : ℕ).
          patch (begun file o) k (take len (drop o file))
          ≡ take o file ++ (take len (drop o file) ++ left_zeros))
        head_length
        (patch_head (take o file) (take len (drop o file)) (length file - o)
          ∙ ap (λ (k : ℕ). take o file ++ (take len (drop o file) ++ replicate k 0))
              (omega (arith, range_length)))

  -- The range is there too, and then zeros.
  pub patch-begun : patch (begun file o) o (take len (drop o file)) ≡ begun file (o + len)
  unfolding left_zeros
  patch-begun =
      split
      ∙ sym (append_assoc (take o file) (take len (drop o file)) left_zeros)
      ∙ ap (λ (x : Bytes). x ++ left_zeros) (sym (take_add o len file))

  -- The range reads back.
  pub read-patch :
      take len (drop o (patch (begun file o) o (take len (drop o file)))) ≡ take len (drop o file)
  read-patch =
      let tail = take len (drop o file) ++ left_zeros in
      ap (λ (x : Bytes). take len (drop o x)) split
      ∙ ap (take len) (
          subst (λ (k : ℕ). drop k (take o file ++ tail) ≡ tail) head_length
            (drop-append (take o file) tail))
      ∙ subst (λ (k : ℕ). take k tail ≡ take len (drop o file)) range_length
          (take-append (take len (drop o file)) left_zeros)
