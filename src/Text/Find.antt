-- ===== src/Text/Find.antt =====
-- What find of std::string finds: the text behind the first occurrence.
use embr.Base.{
  ==_refl, All, Option, [], ap, arith, drop, drop-append, false, length, none, refl, some, suc,
  true, ℕ, ◌++◌, ◌+◌, ◌==◌, ◌∙◌, ◌∷◌, ◌≡◌, ◌≢◌,
}
use embr.Protocol.{Bytes}
use embr.Text.{find_text, one_later, starts_with}

-- What stands behind the first occurrence of p.
abbrev pub behind : Bytes → Bytes → Option ℕ → Option Bytes
behind p s none = none
behind p s (some k) = some (drop (k + length p) s)

unfoldable pub after : Bytes → Bytes → Option Bytes
after p s = behind p s (find_text p s)

pub starts_with-append : (p s : Bytes) → starts_with p (p ++ s) ≡ true
unfolding starts_with
starts_with-append [] s = refl
starts_with-append (c ∷ p) s = rw (==_refl c) (starts_with-append p s)

find_text-append : (p s : Bytes) → find_text p (p ++ s) ≡ some 0
unfolding find_text starts_with
find_text-append [] [] = refl
find_text-append [] (b ∷ s) = refl
find_text-append (c ∷ p) s = rw (==_refl c, starts_with-append p s) refl

pub after-append : (p s : Bytes) → after p (p ++ s) ≡ some s
unfolding after
after-append p s =
    let e : 0 + length p ≡ length p = omega arith in
    ap (behind p (p ++ s)) (find_text-append p s)
    ∙ ap (λ (m : ℕ). some (drop m (p ++ s))) e
    ∙ ap (λ (t : Bytes). some t) (drop-append p s)

behind_one_later :
    (p : Bytes) (b : ℕ) (s : Bytes) (o : Option ℕ) → behind p (b ∷ s) (one_later o) ≡ behind p s o
behind_one_later p b s none = refl
behind_one_later p b s (some k) =
    let e : suc k + length p ≡ suc (k + length p) = omega arith in
    ap (λ (m : ℕ). some (drop m (b ∷ s))) e

pub after_skip :
    (p : Bytes) (b : ℕ) (s : Bytes) → starts_with p (b ∷ s) ≡ false → after p (b ∷ s) ≡ after p s
unfolding after find_text
after_skip p b s h = rw h (behind_one_later p b s (find_text p s))

-- No occurrence starts at a byte that p does not start with.
pub after-append_ne :
    (c : ℕ) (p v s : Bytes) → All (λ b. b ≢ c) v → after (c ∷ p) (v ++ s) ≡ after (c ∷ p) s
unfolding starts_with
after-append_ne c p [] s h = refl
after-append_ne c p (b ∷ v) s (ne, h) =
    after_skip (c ∷ p) b (v ++ s) (rw (apart) refl) ∙ after-append_ne c p v s h
  where
    apart : (c == b) ≡ false
    apart = ground arith

pub after_nil : (c : ℕ) (p : Bytes) → after (c ∷ p) [] ≡ none
unfolding after find_text starts_with
after_nil c p = refl

-- The text before the first occurrence of a byte.
pub find_text-first :
    (c : ℕ) (v s : Bytes) → All (λ b. b ≢ c) v → find_text (c ∷ []) (v ++ c ∷ s) ≡ some (length v)
unfolding find_text starts_with
find_text-first c [] s h = rw (==_refl c) refl
find_text-first c (b ∷ v) s (ne, h) = rw (apart, find_text-first c v s h) refl
  where
    apart : (c == b) ≡ false
    apart = ground arith
