-- ===== src/Text/Digits.antt =====
-- std::to_string, read back by std::stoul and std::stoi.
use embr.Base.{
  All, All-append, Bool-cases, [], ap, append_assoc, arith, false, inl, inr, ltb, ltb→lt, lt→ltb,
  ok, refl, suc, sym, true, zero, ℕ, ◌%◌, ◌++◌, ◌+◌, ◌/◌, ◌<◌, ◌==◌, ◌∙◌, ◌∷◌, ◌≡◌, ◌≢◌,
}
use embr.Protocol.{Bytes, u64_mod}
use embr.Text.{
  digits, is_digit, is_space, pos, read_digits, read_number, skip_spaces, split_sign, stoi, stoul,
  to_string,
}

read_digits-digits :
    (fuel n : ℕ) (s : Bytes) → n < fuel → read_digits 0 (digits fuel n ++ s) ≡ read_digits n s
unfolding digits read_digits
read_digits-digits zero n s h = absurd (omega arith)
read_digits-digits (suc fuel) n s h = elim (Bool-cases (ltb n 10)) [
  | inl small ↦
      rw (small, is_digit_of n (ltb→lt n 10 small)) (ap (λ (k : ℕ). read_digits k s) (omega arith))
  | inr large ↦
      rw (large, append_assoc (digits fuel (n / 10)) ((b'0' + n % 10) ∷ []) s)
        (read_digits-digits fuel (n / 10) ((b'0' + n % 10) ∷ s) (ground arith)
          ∙ rw (is_digit_of (n % 10) (omega arith)) (ap (λ (k : ℕ). read_digits k s) (omega arith)))
]
  where
    is_digit_of : (k : ℕ) → k < 10 → is_digit (b'0' + k) ≡ true
    is_digit_of k lt = ground arith

-- Digits start with a digit.
digits_head :
    (fuel n : ℕ)
    → n < fuel
    → (c : ℕ) × (cs : Bytes) × (is_digit c ≡ true) × (digits fuel n ≡ c ∷ cs)
unfolding digits
digits_head zero n h = absurd (omega arith)
digits_head (suc fuel) n h = elim (Bool-cases (ltb n 10)) [
  | inl small ↦ (b'0' + n, [], ground arith, rw small refl)
  | inr large ↦
      let (c, cs, d, e) = digits_head fuel (n / 10) (ground arith) in
      (c, cs ++ ((b'0' + n % 10) ∷ []), d, rw (large, e) refl)
]

pub to_string_head : (n : ℕ) → (c : ℕ) × (cs : Bytes) × (is_digit c ≡ true) × (to_string n ≡ c ∷ cs)
unfolding to_string
to_string_head n = digits_head (suc n) n (omega arith)

pub digits-ne-quote : (fuel n : ℕ) → All (λ b. b ≢ b'"') (digits fuel n)
unfolding digits
digits-ne-quote zero n = tt
digits-ne-quote (suc fuel) n = elim (Bool-cases (ltb n 10)) [
  | inl small ↦ rw small (omega arith, tt)
  | inr large ↦ rw large (
      All-append (λ b. b ≢ b'"') (digits fuel (n / 10)) ((b'0' + n % 10) ∷ [])
        (digits-ne-quote fuel (n / 10)) (omega arith, tt))
]

pub read_number-digits :
    (n : ℕ) (s : Bytes)
    → read_digits n s ≡ n
    → (skip_spaces (to_string n ++ s) ≡ to_string n ++ s)
      × (split_sign (to_string n ++ s) ≡ (false, to_string n ++ s))
      × (read_number (to_string n ++ s) ≡ ok n)
unfolding to_string skip_spaces split_sign read_number
read_number-digits n s stop =
    let (c, cs, d, e) = digits_head (suc n) n (omega arith) in
    let whole : read_digits 0 ((c ∷ cs) ++ s) ≡ n =
      ap (λ (t : Bytes). read_digits 0 (t ++ s)) (sym e)
      ∙ read_digits-digits (suc n) n s (omega arith)
      ∙ stop in
    let not_space : is_space c ≡ false = ground arith in
    let not_minus : (c == b'-') ≡ false = ground arith in
    let not_plus : (c == b'+') ≡ false = ground arith in
    (rw (e, not_space) refl, rw (e, not_minus, not_plus) refl, rw (e, d, whole) refl)

module _ (n : ℕ) (s : Bytes) (stop : read_digits n s ≡ n) where
  pub stoul-to_string : n < u64_mod → stoul (to_string n ++ s) ≡ ok n
  unfolding stoul
  stoul-to_string small =
      let (a, b, c) = read_number-digits n s stop in rw (a, b, c, lt→ltb n u64_mod small) refl

  pub stoi-to_string : n < 0x80000000 → stoi (to_string n ++ s) ≡ ok (pos n)
  unfolding stoi
  stoi-to_string small =
      let (a, b, c) = read_number-digits n s stop in rw (a, b, c, lt→ltb n 0x80000000 small) refl
