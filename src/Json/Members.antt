-- ===== src/Json/Members.antt =====
-- json_get_str and json_get_u16 of src/util/json_parser.hpp, against the members of a flat object
-- as it is written out.
use embr.Base.{
  All, List, [], arith, false, if◌then◌else◌, refl, ℕ, ◌%◌, ◌&&◌, ◌++◌, ◌<◌, ◌^◌, ◌∷◌, ◌≡◌, ◌≢◌,
  ◌⊎◌,
}
use embr.Json.{quote}
use embr.Protocol.{Bytes, u64_mod}
use embr.Text.{starts_with, to_string}
use embr.World.Files.{same_bytes}

pub data Member : Type 0 where
  text : Bytes → Bytes → Member
  number : Bytes → ℕ → Member

-- A member, and what stands behind it.
abbrev pub write_member : Member → Bytes → Bytes
write_member (text key value) s = quote ∷ (key ++ (quote ∷ b':' ∷ quote ∷ (value ++ (quote ∷ s))))
write_member (number key n) s = quote ∷ (key ++ (quote ∷ b':' ∷ (to_string n ++ s)))

abbrev pub write_others : List Member → Bytes
write_others [] = b'}' ∷ []
write_others (m ∷ ms) = b',' ∷ write_member m (write_others ms)

unfoldable pub write_object : List Member → Bytes
write_object [] = b'{' ∷ b'}' ∷ []
write_object (m ∷ ms) = b'{' ∷ write_member m (write_others ms)

-- The first text under a key.
unfoldable pub text_of : Bytes → List Member → Bytes
text_of key [] = []
text_of key (text k value ∷ ms) = if same_bytes key k then value else text_of key ms
text_of key (number k n ∷ ms) = text_of key ms

-- The first member under a key, cut to 16 bits.
unfoldable pub u16_of : Bytes → List Member → ℕ
u16_of key [] = 0
u16_of key (text k value ∷ ms) = if same_bytes key k then 0 else u16_of key ms
u16_of key (number k n ∷ ms) = if same_bytes key k then n % 2 ^ 16 else u16_of key ms

-- No quote inside.
abbrev pub IsQuoteless : Bytes → Type 0
IsQuoteless s = All (λ b. b ≢ quote) s

-- A key: not empty, no quote, and no punctuation at its head.
abbrev pub IsKey : Bytes → Type 0
IsKey [] = ⊥
IsKey (c ∷ s) = (c ≢ b':') × (c ≢ b',') × (c ≢ b'}') × IsQuoteless (c ∷ s)

abbrev pub IsWritable : Member → Type 0
IsWritable (text key value) = IsKey key × IsQuoteless value
IsWritable (number key n) = IsKey key × (n < u64_mod)

pub IsKey-IsQuoteless : (key : Bytes) → IsKey key → IsQuoteless key
IsKey-IsQuoteless [] h = absurd h
IsKey-IsQuoteless (c ∷ s) (a, b, d, q) = q

-- Two keys, each up to its quote.
pub starts_with-key :
    (k j p s : Bytes)
    → IsQuoteless k
    → IsQuoteless j
    → starts_with (k ++ quote ∷ p) (j ++ quote ∷ s) ≡ same_bytes k j && starts_with p s
unfolding starts_with same_bytes
starts_with-key [] [] p s a b = refl
starts_with-key [] (y ∷ j) p s a (ne, b) = ground arith
starts_with-key (x ∷ k) [] p s (ne, a) b = ground arith
starts_with-key (x ∷ k) (y ∷ j) p s (_, a) (_, b) = ground (arith, starts_with-key k j p s a b)

-- A key does not start where a quote closes.
pub starts_with_closing :
    (key p s : Bytes) (c : ℕ)
    → IsKey key
    → (c ≡ b':') ⊎ ((c ≡ b',') ⊎ (c ≡ b'}'))
    → starts_with (quote ∷ (key ++ p)) (quote ∷ c ∷ s) ≡ false
unfolding starts_with
starts_with_closing [] p s c h e = absurd h
starts_with_closing (x ∷ key) p s c (a, b, d, q) e = ground arith
