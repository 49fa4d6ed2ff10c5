-- ===== src/Paths/Names.antt =====
-- The side files have names of their own.
use embr.Base.{
  Option-cases, [], ap, arith, drop, inl, inr, length, length-append, length-drop, length-take, ok,
  take, ℕ, ◌++◌, ◌+◌, ◌∷◌, ◌≡◌, ◌≢◌,
}
use embr.Paths.{dot, hash_cache_path_for, hash_suffix, partial_suffix, path_for, rfind}
use embr.Protocol.{Bytes}

length-split :
    (k : ℕ) (p tail : Bytes)
    → length (take k p ++ (dot ++ (drop k p ++ tail))) ≡ length p + 1 + length tail
length-split k p tail = omega (
  arith,
  length-append (take k p) (dot ++ (drop k p ++ tail)),
  length-append (drop k p) tail,
  length-take k p,
  length-drop k p,
)

-- A side name is longer than the name that it is for by the dot and the suffix.
pub length-path_for : (p : Bytes) → length (path_for p) ≡ length p + 14
unfolding path_for
length-path_for p = elim (Option-cases (rfind b'/' p)) [
  | inl e ↦ rw (e, path_for) (omega (arith, length-append p partial_suffix))
  | inr (k, e) ↦ rw (e, path_for) (omega (arith, length-split (k + 1) p partial_suffix))
]

-- So no file is its own side file.
pub path_for_ne : (p : Bytes) → p ≢ path_for p
path_for_ne p e = absurd (omega (arith, ap length e, length-path_for p))

pub length-hash_cache_path_for :
    (p : Bytes) {q : Bytes} → hash_cache_path_for p ≡ ok q → length q ≡ length p + 11
unfolding hash_cache_path_for
length-hash_cache_path_for [] e = absurd (cc)
length-hash_cache_path_for (b ∷ p) {q} e = elim (Option-cases (rfind b'/' (b ∷ p))) [
  | inl f ↦
      let g : ok (dot ++ ((b ∷ p) ++ hash_suffix)) ≡ ok q = rw (f, hash_cache_path_for) at e in
      let same : dot ++ ((b ∷ p) ++ hash_suffix) ≡ q = cc in
      omega (arith, ap length same, length-append p hash_suffix)
  | inr (k, f) ↦
      let g : ok (take (k + 1) (b ∷ p) ++ (dot ++ (drop (k + 1) (b ∷ p) ++ hash_suffix))) ≡ ok q =
        rw (f, hash_cache_path_for) at e in
      let same : take (k + 1) (b ∷ p) ++ (dot ++ (drop (k + 1) (b ∷ p) ++ hash_suffix)) ≡ q = cc in
      omega (arith, ap length same, length-split (k + 1) (b ∷ p) hash_suffix)
]

-- Nor its own hash cache.
pub hash_cache_path_for_ne : (p : Bytes) {q : Bytes} → hash_cache_path_for p ≡ ok q → p ≢ q
hash_cache_path_for_ne p e same =
    absurd (omega (arith, ap length same, length-hash_cache_path_for p e))
