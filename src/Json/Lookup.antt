-- ===== src/Json/Lookup.antt =====
-- json_get_str and json_get_u16 of src/util/json_parser.hpp find the first member of their kind.
use embr.Base.{
  All, Bool-cases, List, Option, [], ap, arith, false, inl, inr, none, refl, some, take-append, ℕ,
  ◌++◌, ◌==◌, ◌∙◌, ◌∷◌, ◌≡◌,
}
use embr.Json.{json_get_str, json_get_u16, key_needle, or_zero, quote, text_needle, up_to_quote}
use embr.Json.Members.{
  IsKey, IsKey-IsQuoteless, IsQuoteless, IsWritable, Member, number, text, text_of, u16_of,
  write_member, write_object, write_others,
}
use embr.Json.Skips.{
  after-others_cons, after-others_nil, after_hit, after_skip_key, after_skip_number,
  after_skip_value,
}
use embr.Protocol.{Bytes}
use embr.Text.{find_text, read_digits, starts_with, stoul, to_string}
use embr.Text.Digits.{stoul-to_string, to_string_head}
use embr.Text.Find.{after, after-append_ne, find_text-first}
use embr.World.Files.{same_bytes, same_bytes_sound}

abbrev text_behind : Option Bytes → Bytes
text_behind none = []
text_behind (some s) = up_to_quote s

abbrev u16_behind : Option Bytes → ℕ
u16_behind none = 0
u16_behind (some s) = or_zero (stoul s)

json_get_str-after :
    (body key : Bytes) → json_get_str body key ≡ text_behind (after (text_needle key) body)
unfolding json_get_str after
json_get_str-after body key = split (find_text (text_needle key) body) refl
  where
    split :
        (o : Option ℕ)
        → find_text (text_needle key) body ≡ o
        → json_get_str body key ≡ text_behind (after (text_needle key) body)
    split none e = rw (e, json_get_str, after) refl
    split (some k) e = rw (e, json_get_str, after) refl

json_get_u16-after :
    (body key : Bytes) → json_get_u16 body key ≡ u16_behind (after (key_needle key) body)
unfolding json_get_u16 after
json_get_u16-after body key = split (find_text (key_needle key) body) refl
  where
    split :
        (o : Option ℕ)
        → find_text (key_needle key) body ≡ o
        → json_get_u16 body key ≡ u16_behind (after (key_needle key) body)
    split none e = rw (e, json_get_u16, after) refl
    split (some k) e = rw (e, json_get_u16, after) refl

up_to_quote-append : (v s : Bytes) → IsQuoteless v → up_to_quote (v ++ (quote ∷ s)) ≡ v
up_to_quote-append v s h = rw (find_text-first quote v s h, up_to_quote) (take-append v (quote ∷ s))

-- What follows a number is no digit.
read_digits-others : (n : ℕ) (ms : List Member) → read_digits n (write_others ms) ≡ n
unfolding read_digits
read_digits-others n [] = refl
read_digits-others n (m ∷ ms) = refl

-- A quote is no number.
or_zero-quote : (s : Bytes) → or_zero (stoul (quote ∷ s)) ≡ 0
unfolding stoul
or_zero-quote s = refl

starts_with-quote :
    (c : ℕ) (s : Bytes) → (quote == c) ≡ false → starts_with (quote ∷ []) (c ∷ s) ≡ false
unfolding starts_with
starts_with-quote c s e = rw e

to_string-ne-quote : (n : ℕ) (s : Bytes) → starts_with (quote ∷ []) (to_string n ++ s) ≡ false
to_string-ne-quote n s =
    let (c, cs, d, e) = to_string_head n in
    rw (e, starts_with-quote c (cs ++ s) (ground arith)) refl

module _ (key : Bytes) (is_key : IsKey key) where
  text_of-member :
      (m : Member) (ms : List Member)
      → IsWritable m
      → text_behind (after (text_needle key) (write_others ms)) ≡ text_of key ms
      → text_behind (after (text_needle key) (write_member m (write_others ms)))
        ≡ text_of key (m ∷ ms)
  unfolding text_of
  text_of-member (text k value) ms (named, quoteless) rest = elim (Bool-cases (same_bytes key k)) [
    | inl same ↦ rw same (
        ap text_behind (
          after_hit key (quote ∷ []) is_key k (value ++ (quote ∷ write_others ms))
            (same_bytes_sound key k same))
        ∙ up_to_quote-append value (write_others ms) quoteless)
    | inr other ↦ rw other (
        ap text_behind (
          after_skip_key key (quote ∷ []) is_key k (quote ∷ (value ++ (quote ∷ write_others ms)))
            (IsKey-IsQuoteless k named) (rw other refl)
          ∙ after_skip_value key (quote ∷ []) is_key value ms quoteless)
        ∙ rest)
  ]
  text_of-member (number k n) ms (named, small) rest =
      ap text_behind (
        after_skip_key key (quote ∷ []) is_key k (to_string n ++ write_others ms)
          (IsKey-IsQuoteless k named) (ground (arith, to_string-ne-quote n (write_others ms)))
        ∙ after_skip_number key (quote ∷ []) is_key n (write_others ms))
      ∙ rest

  u16_of-member :
      (m : Member) (ms : List Member)
      → IsWritable m
      → u16_behind (after (key_needle key) (write_others ms)) ≡ u16_of key ms
      → u16_behind (after (key_needle key) (write_member m (write_others ms))) ≡ u16_of key (m ∷ ms)
  unfolding u16_of
  u16_of-member (text k value) ms (named, quoteless) rest = elim (Bool-cases (same_bytes key k)) [
    | inl same ↦ rw same (
        ap u16_behind (
          after_hit key [] is_key k (quote ∷ (value ++ (quote ∷ write_others ms)))
            (same_bytes_sound key k same))
        ∙ or_zero-quote (value ++ (quote ∷ write_others ms)))
    | inr other ↦ rw other (
        ap u16_behind (
          after_skip_key key [] is_key k (quote ∷ (value ++ (quote ∷ write_others ms)))
            (IsKey-IsQuoteless k named) (rw other refl)
          ∙ after_skip_value key [] is_key value ms quoteless)
        ∙ rest)
  ]
  u16_of-member (number k n) ms (named, small) rest = elim (Bool-cases (same_bytes key k)) [
    | inl same ↦ rw same (
        ap u16_behind
          (after_hit key [] is_key k (to_string n ++ write_others ms) (same_bytes_sound key k same))
        ∙ ap or_zero (stoul-to_string n (write_others ms) (read_digits-others n ms) small))
    | inr other ↦ rw other (
        ap u16_behind (
          after_skip_key key [] is_key k (to_string n ++ write_others ms)
            (IsKey-IsQuoteless k named) (rw other refl)
          ∙ after_skip_number key [] is_key n (write_others ms))
        ∙ rest)
  ]

  text_of-others :
      (ms : List Member)
      → All IsWritable ms
      → text_behind (after (text_needle key) (write_others ms)) ≡ text_of key ms
  unfolding text_of
  text_of-others [] w = ap text_behind (after-others_nil key (quote ∷ []) is_key)
  text_of-others (m ∷ ms) (w, ws) =
      ap text_behind (after-others_cons key (quote ∷ []) is_key m ms)
      ∙ text_of-member m ms w (text_of-others ms ws)

  u16_of-others :
      (ms : List Member)
      → All IsWritable ms
      → u16_behind (after (key_needle key) (write_others ms)) ≡ u16_of key ms
  unfolding u16_of
  u16_of-others [] w = ap u16_behind (after-others_nil key [] is_key)
  u16_of-others (m ∷ ms) (w, ws) =
      ap u16_behind (after-others_cons key [] is_key m ms)
      ∙ u16_of-member m ms w (u16_of-others ms ws)

  opened :
      (p s : Bytes)
      → after (quote ∷ (key ++ (quote ∷ b':' ∷ p))) (b'{' ∷ s)
        ≡ after (quote ∷ (key ++ (quote ∷ b':' ∷ p))) s
  opened p s = after-append_ne quote (key ++ (quote ∷ b':' ∷ p)) (b'{' ∷ []) s (omega arith, tt)

  -- In an object of texts without quotes and numbers of 64 bits, under keys without quotes that
  -- start with no colon, comma or brace, json_get_str returns the first text of a key, and nothing
  -- if there is none, and json_get_u16 the low 16 bits of the first member of a key if that is a
  -- number, and 0 otherwise.
  pub json_get-write_object :
      (ms : List Member)
      → All IsWritable ms
      → (json_get_str (write_object ms) key ≡ text_of key ms)
        × (json_get_u16 (write_object ms) key ≡ u16_of key ms)
  unfolding write_object text_of u16_of
  json_get-write_object [] w = (
    json_get_str-after (write_object []) key
        ∙ ap text_behind
            (opened (quote ∷ []) (b'}' ∷ []) ∙ after-others_nil key (quote ∷ []) is_key),
    json_get_u16-after (write_object []) key
        ∙ ap u16_behind (opened [] (b'}' ∷ []) ∙ after-others_nil key [] is_key),
  )
  json_get-write_object (m ∷ ms) (w, ws) = (
    json_get_str-after (write_object (m ∷ ms)) key
        ∙ ap text_behind (opened (quote ∷ []) (write_member m (write_others ms)))
        ∙ text_of-member m ms w (text_of-others ms ws),
    json_get_u16-after (write_object (m ∷ ms)) key
        ∙ ap u16_behind (opened [] (write_member m (write_others ms)))
        ∙ u16_of-member m ms w (u16_of-others ms ws),
  )
