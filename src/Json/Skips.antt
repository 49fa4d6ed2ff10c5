-- ===== src/Json/Skips.antt =====
-- How the search of json_get_str and json_get_u16 of src/util/json_parser.hpp passes over a
-- member of an object.
use embr.Base.{
  List, [], ap, append_assoc, arith, false, inl, inr, none, refl, some, suc, sym, ℕ, ◌&&◌, ◌++◌,
  ◌∙◌, ◌∷◌, ◌≡◌,
}
use embr.Json.{quote}
use embr.Json.Members.{
  IsKey, IsKey-IsQuoteless, IsQuoteless, Member, starts_with-key, starts_with_closing, write_member,
  write_others,
}
use embr.Protocol.{Bytes}
use embr.Text.{digits, starts_with, to_string}
use embr.Text.Digits.{digits-ne-quote}
use embr.Text.Find.{after, after-append, after_nil, after_skip, after-append_ne}
use embr.World.Files.{same_bytes}

-- What a member has behind it starts with a comma or a brace.
pub starts_with-others :
    (p : Bytes) (ms : List Member) → starts_with (b':' ∷ p) (write_others ms) ≡ false
unfolding starts_with
starts_with-others p [] = refl
starts_with-others p (m ∷ ms) = refl

-- The search for a key, with what stands behind the quote that closes it.
module _ (key p : Bytes) (is_key : IsKey key) where
  abbrev needle : Bytes
  needle = quote ∷ (key ++ (quote ∷ b':' ∷ p))

  no_quotes : IsQuoteless key
  no_quotes = IsKey-IsQuoteless key is_key

  starts_with_opening :
      (s : Bytes) → starts_with needle (quote ∷ s) ≡ starts_with (key ++ (quote ∷ b':' ∷ p)) s
  unfolding starts_with
  starts_with_opening s = refl

  starts_with_colon :
      (k s : Bytes)
      → (same_bytes key k && starts_with (b':' ∷ p) (b':' ∷ s))
        ≡ (same_bytes key k && starts_with p s)
  unfolding starts_with
  starts_with_colon k s = refl

  -- The opening quote, the key, the closing quote and the colon of another member.
  pub after_skip_key :
      (k s : Bytes)
      → IsQuoteless k
      → (same_bytes key k && starts_with p s) ≡ false
      → after needle (quote ∷ (k ++ (quote ∷ b':' ∷ s))) ≡ after needle s
  after_skip_key k s quoteless other =
      after_skip needle quote (k ++ (quote ∷ b':' ∷ s)) opening
      ∙ after-append_ne quote (key ++ (quote ∷ b':' ∷ p)) k (quote ∷ b':' ∷ s) quoteless
      ∙ after_skip needle quote (b':' ∷ s)
          (starts_with_closing key (quote ∷ b':' ∷ p) s b':' is_key (inl refl))
      ∙ after-append_ne quote (key ++ (quote ∷ b':' ∷ p)) (b':' ∷ []) s (omega arith, tt)
    where
      opening : starts_with needle (quote ∷ (k ++ (quote ∷ b':' ∷ s))) ≡ false
      opening =
          starts_with_opening (k ++ (quote ∷ b':' ∷ s))
          ∙ starts_with-key key k (b':' ∷ p) (b':' ∷ s) no_quotes quoteless
          ∙ starts_with_colon k s
          ∙ other

  -- A text in its quotes.
  pub after_skip_value :
      (value : Bytes) (ms : List Member)
      → IsQuoteless value
      → after needle (quote ∷ (value ++ (quote ∷ write_others ms))) ≡ after needle (write_others ms)
  after_skip_value value ms quoteless =
      after_skip needle quote (value ++ (quote ∷ write_others ms)) (
        starts_with_opening (value ++ (quote ∷ write_others ms))
        ∙ starts_with-key key value (b':' ∷ p) (write_others ms) no_quotes quoteless
        ∙ ground (arith, starts_with-others p ms))
      ∙ after-append_ne quote (key ++ (quote ∷ b':' ∷ p)) value (quote ∷ write_others ms) quoteless
      ∙ after_skip needle quote (write_others ms) (closing ms)
    where
      closing : (ms : List Member) → starts_with needle (quote ∷ write_others ms) ≡ false
      closing [] = starts_with_closing key (quote ∷ b':' ∷ p) [] b'}' is_key (inr (inr refl))
      closing (m ∷ ms) =
          starts_with_closing key (quote ∷ b':' ∷ p) (write_member m (write_others ms)) b',' is_key
            (inr (inl refl))

  pub after_skip_number : (n : ℕ) (s : Bytes) → after needle (to_string n ++ s) ≡ after needle s
  unfolding to_string
  after_skip_number n s =
      after-append_ne quote (key ++ (quote ∷ b':' ∷ p)) (digits (suc n) n) s
        (digits-ne-quote (suc n) n)

  pub after-others_nil : after needle (write_others []) ≡ none
  after-others_nil =
      after-append_ne quote (key ++ (quote ∷ b':' ∷ p)) (b'}' ∷ []) [] (omega arith, tt)
      ∙ after_nil quote (key ++ (quote ∷ b':' ∷ p))

  pub after-others_cons :
      (m : Member) (ms : List Member)
      → after needle (write_others (m ∷ ms)) ≡ after needle (write_member m (write_others ms))
  after-others_cons m ms =
      after-append_ne quote (key ++ (quote ∷ b':' ∷ p)) (b',' ∷ [])
        (write_member m (write_others ms)) (omega arith, tt)

  -- The member that is looked for.
  pub after_hit :
      (k s : Bytes) → key ≡ k → after needle (quote ∷ (k ++ (quote ∷ b':' ∷ (p ++ s)))) ≡ some s
  after_hit k s same =
      ap (after needle) (
        ap (λ (t : Bytes). quote ∷ (t ++ (quote ∷ b':' ∷ (p ++ s)))) (sym same)
        ∙ ap (λ (t : Bytes). quote ∷ t) (sym (append_assoc key (quote ∷ b':' ∷ p) s)))
      ∙ after-append needle s
