-- ===== src/Tracker/Lookup.antt =====
-- What the token store of src/tracker/token_store.cpp finds, against a map from tokens to records.
use embr.Base.{
  Bool, Bool-cases, List, Option, [], ap, arith, false, if◌then◌else◌, inl, inr, none, refl, some,
  ℕ, ◌||◌, ◌∙◌, ◌∷◌, ◌≡◌, ◌⊎◌,
}
use embr.Protocol.{Bytes}
use embr.Tracker.{
  Entries, Record, TokenStore, erase, erase_all, expired_tokens, find, is_expired, resolve, upsert,
}
use embr.World.Files.{same_bytes, same_bytes_refl, same_bytes_sound}

pub holds : Bytes → List Bytes → Bool
holds token [] = false
holds token (t ∷ ts) = same_bytes token t || holds token ts

-- Each token has at most one record.
abbrev pub IsMap : Entries → Type 0
IsMap [] = Unit {0}
IsMap ((key, r) ∷ es) = (find key es ≡ none) × IsMap es

-- A record that has not expired.
abbrev pub live : ℕ → ℕ → Option Record → Option Record
live ttl now none = none
live ttl now (some r) = if is_expired ttl now r then none else some r

abbrev expired_now : ℕ → ℕ → Option Record → Bool
expired_now ttl now none = false
expired_now ttl now (some r) = is_expired ttl now r

same_bytes_cases : (p q : Bytes) → (p ≡ q) ⊎ (same_bytes p q ≡ false)
same_bytes_cases p q = elim (Bool-cases (same_bytes p q)) [
  | inl same ↦ inl (same_bytes_sound p q same)
  | inr apart ↦ inr apart
]

same_bytes_sym : (p q : Bytes) → same_bytes p q ≡ same_bytes q p
unfolding same_bytes
same_bytes_sym [] [] = refl
same_bytes_sym [] (b ∷ q) = refl
same_bytes_sym (a ∷ p) [] = refl
same_bytes_sym (a ∷ p) (b ∷ q) = ground (arith, same_bytes_sym p q)

pub find-erase :
    (token t : Bytes) (es : Entries)
    → find token (erase t es) ≡ (if same_bytes token t then none else find token es)
unfolding find erase
find-erase token t [] = elim (Bool-cases (same_bytes token t)) [ inl e ↦ rw e | inr e ↦ rw e ]
find-erase token t ((key, r) ∷ es) = elim (same_bytes_cases key t) [
  | inl same ↦ ground (
    arith,
    find-erase token t es,
    same_bytes_refl t,
    ap (λ (x : Bytes). same_bytes x t) same,
    ap (same_bytes token) same,
  )
  | inr apart ↦ elim (same_bytes_cases token key) [
    | inl here ↦ ground (
      arith,
      apart,
      same_bytes_refl key,
      ap (λ (x : Bytes). same_bytes x t) here,
      ap (λ (x : Bytes). same_bytes x key) here,
    )
    | inr below ↦ ground (arith, apart, below, find-erase token t es)
  ]
]

find-erase_all :
    (token : Bytes) (ts : List Bytes) (es : Entries)
    → find token (erase_all ts es) ≡ (if holds token ts then none else find token es)
unfolding holds erase_all
find-erase_all token [] es = refl
find-erase_all token (t ∷ ts) es =
    ground (arith, find-erase token t es, find-erase_all token ts (erase t es))

holds-expired_tokens :
    (ttl now : ℕ) (token : Bytes) (es : Entries)
    → IsMap es
    → holds token (expired_tokens ttl now es) ≡ expired_now ttl now (find token es)
unfolding holds expired_tokens find
holds-expired_tokens ttl now token [] m = refl
holds-expired_tokens ttl now token ((key, r) ∷ es) (fresh, m) = elim (same_bytes_cases token key) [
  | inl here ↦ ground (
    arith,
    holds-expired_tokens ttl now token es m,
    same_bytes_refl key,
    ap (λ (x : Bytes). same_bytes x key) here,
    ap (λ (x : Bytes). find x es) here ∙ fresh,
  )
  | inr below ↦ ground (arith, below, holds-expired_tokens ttl now token es m)
]

if-live :
    (ttl now : ℕ) (o : Option Record) → (if expired_now ttl now o then none else o) ≡ live ttl now o
if-live ttl now none = refl
if-live ttl now (some r) = refl

-- In a store with at most one record for each token, resolve finds exactly the record of the token
-- that has not expired.
pub resolve_lem :
    (now : ℕ) (token : Bytes) (s : TokenStore)
    → IsMap s.token_store
    → (resolve now token s).0 ≡ live s.ttl now (find token s.token_store)
unfolding resolve
resolve_lem now token s m =
    find-erase_all token (expired_tokens s.ttl now s.token_store) s.token_store
    ∙ ap (λ (b : Bool). if b then none else find token s.token_store)
        (holds-expired_tokens s.ttl now token s.token_store m)
    ∙ if-live s.ttl now (find token s.token_store)

pub erase-IsMap : (t : Bytes) (es : Entries) → IsMap es → IsMap (erase t es)
unfolding erase
erase-IsMap t [] m = tt
erase-IsMap t ((key, r) ∷ es) (fresh, m) = elim (Bool-cases (same_bytes key t)) [
  | inl same ↦ rw same (erase-IsMap t es m)
  | inr apart ↦ rw apart (find-erase key t es ∙ rw apart fresh, erase-IsMap t es m)
]

-- A store keeps at most one record for each token.
pub upsert-IsMap :
    (now : ℕ) (token : Bytes) (r : Record) (s : TokenStore)
    → IsMap s.token_store
    → IsMap (upsert now token r s).token_store
unfolding upsert
upsert-IsMap now token r s m = (
  find-erase token token s.token_store ∙ rw (same_bytes_refl token) refl,
  erase-IsMap token s.token_store m,
)

-- After upsert.
pub resolve-upsert :
    (now later : ℕ) (token other : Bytes) (r : Record) (s : TokenStore)
    → IsMap s.token_store
    → (resolve later other (upsert now token r s)).0
      ≡ live s.ttl later (
          if same_bytes other token
          then some (record r { registered_at = now })
          else find other s.token_store)
unfolding upsert find
resolve-upsert now later token other r s m =
    resolve_lem later other (upsert now token r s) (upsert-IsMap now token r s m)
    ∙ ap (live s.ttl later) found
  where
    found : find other (upsert now token r s).token_store ≡ (
        if same_bytes other token
        then some (record r { registered_at = now })
        else find other s.token_store)
    found = elim (Bool-cases (same_bytes other token)) [
      | inl same ↦ rw same
      | inr apart ↦ rw apart (find-erase other token s.token_store ∙ rw apart)
    ]
