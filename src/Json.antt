-- ===== src/Json.antt =====
-- src/util/json_parser.hpp: the two functions that read a field of a flat object.
pub mod Members
pub mod Skips
pub mod Lookup
use embr.Base.{Result, [], drop, err, length, none, ok, some, take, ℕ, ◌%◌, ◌++◌, ◌+◌, ◌^◌, ◌∷◌}
use embr.Protocol.{Bytes}
use embr.Text.{find_text, stoul}

abbrev pub quote : ℕ
quote = b'"'

-- "key":
abbrev pub key_needle : Bytes → Bytes
key_needle key = quote ∷ (key ++ (quote ∷ b':' ∷ []))

-- "key":"
abbrev pub text_needle : Bytes → Bytes
text_needle key = quote ∷ (key ++ (quote ∷ b':' ∷ quote ∷ []))

abbrev pub up_to_quote : Bytes → Bytes
up_to_quote s = elim (find_text (quote ∷ []) s) [ none ↦ [] | some n ↦ take n s ]

unfoldable pub json_get_str : Bytes → Bytes → Bytes
json_get_str body key = elim (find_text (text_needle key) body) [
  | none ↦ []
  | some key_pos ↦ up_to_quote (drop (key_pos + length (text_needle key)) body)
]

-- catch (...): every exception.
abbrev pub or_zero : Result ℕ → ℕ
or_zero (ok n) = n % 2 ^ 16
or_zero (err e) = 0

unfoldable pub json_get_u16 : Bytes → Bytes → ℕ
json_get_u16 body key = elim (find_text (key_needle key) body) [
  | none ↦ 0
  | some key_pos ↦ or_zero (stoul (drop (key_pos + length (key_needle key)) body))
]
