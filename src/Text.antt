-- ===== src/Text.antt =====
-- The functions of std::string and of <string> that the code calls. A text is its bytes.
pub mod Find
pub mod Digits
use Prim.Native.Char.{code}
use Prim.Native.String.{String}
use embr.Base.{
  Bool, Option, Result, [], err, false, if◌then◌else◌, invalid_argument, leb, ltb, none, ok,
  out_of_range, some, suc, true, zero, ℕ, ◌%◌, ◌&&◌, ◌*◌, ◌++◌, ◌+◌, ◌-◌, ◌/◌, ◌==◌, ◌>>=◌, ◌||◌,
  ◌∷◌,
}
use embr.Protocol.{Bytes, u64_mod}

-- The bytes of an ASCII text.
abbrev pub codes : String → Bytes
codes String.[] = []
codes (String.◌∷◌ c s) = code c ∷ codes s

abbrev pub empty_text : Bytes → Bool
empty_text [] = true
empty_text (c ∷ s) = false

-- An int of the source. `negsuc n` is -(n + 1).
pub data ℤ : Type 0 where
  pos : ℕ → ℤ
  negsuc : ℕ → ℤ

unfoldable pub starts_with : Bytes → Bytes → Bool
starts_with [] s = true
starts_with (c ∷ p) [] = false
starts_with (c ∷ p) (b ∷ s) = (c == b) && starts_with p s

abbrev pub one_later : Option ℕ → Option ℕ
one_later none = none
one_later (some k) = some (suc k)

-- std::string::find of a text; `none` is npos.
unfoldable pub find_text : Bytes → Bytes → Option ℕ
find_text p [] = if starts_with p [] then some 0 else none
find_text p (b ∷ s) = if starts_with p (b ∷ s) then some 0 else one_later (find_text p s)

abbrev pub is_space : ℕ → Bool
is_space c = (leb 9 c && leb c 13) || (c == 32)

abbrev pub is_digit : ℕ → Bool
is_digit c = leb b'0' c && leb c b'9'

unfoldable pub skip_spaces : Bytes → Bytes
skip_spaces [] = []
skip_spaces (c ∷ s) = if is_space c then skip_spaces s else c ∷ s

-- The value of the digits at the head of a text, behind those of n.
unfoldable pub read_digits : ℕ → Bytes → ℕ
read_digits n [] = n
read_digits n (c ∷ s) = if is_digit c then read_digits (n * 10 + (c - b'0')) s else n

-- A decimal number: is it negative, and its digits.
unfoldable pub split_sign : Bytes → Bool × Bytes
split_sign [] = (false, [])
split_sign (c ∷ s) =
    if c == b'-' then (true, s) else if c == b'+' then (false, s) else (false, c ∷ s)

unfoldable pub read_number : Bytes → Result ℕ
read_number [] = err invalid_argument
read_number (c ∷ s) = if is_digit c then ok (read_digits 0 (c ∷ s)) else err invalid_argument

-- std::stoul, of 64 bits: a sign negates in the type.
unfoldable pub stoul : Bytes → Result ℕ
unfolding split_sign skip_spaces read_number
stoul s =
    let (negative, digits) = split_sign (skip_spaces s) in
    read_number digits >>= λ n.
    if ltb n u64_mod then ok (if negative then (u64_mod - n) % u64_mod else n) else err out_of_range

abbrev negate : ℕ → ℤ
negate zero = pos 0
negate (suc n) = negsuc n

-- std::stoi, of 32 bits.
unfoldable pub stoi : Bytes → Result ℤ
unfolding split_sign skip_spaces read_number
stoi s =
    let (negative, digits) = split_sign (skip_spaces s) in
    read_number digits >>= λ n.
    if negative
    then (if leb n 0x80000000 then ok (negate n) else err out_of_range)
    else (if ltb n 0x80000000 then ok (pos n) else err out_of_range)

-- The decimal digits of a number, with fuel.
unfoldable pub digits : ℕ → ℕ → Bytes
digits zero n = []
digits (suc fuel) n =
    let front = digits fuel (n / 10) in
    if ltb n 10 then (b'0' + n) ∷ [] else front ++ ((b'0' + n % 10) ∷ [])

-- std::to_string of an unsigned number.
unfoldable pub to_string : ℕ → Bytes
unfolding digits
to_string n = digits (suc n) n
