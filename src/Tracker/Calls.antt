-- ===== src/Tracker/Calls.antt =====
-- Calls of the token store of src/tracker/token_store.cpp, in any order: the mutex lets those of
-- several threads happen one after another.
-- A store after some calls.
use embr.Base.{Bool-cases, List, [], if◌then◌else◌, inl, inr, none, refl, some, ℕ, ◌∙◌, ◌∷◌, ◌≡◌}
use embr.Protocol.{Bytes}
use embr.Tracker.{
  Entries, Record, TokenStore, erase, erase_all, expired_tokens, find, remove_token, resolve,
  sweep_expired, upsert,
}
use embr.Tracker.Lookup.{
  IsMap, erase-IsMap, find-erase, live, resolve-upsert, resolve_lem, upsert-IsMap,
}
use embr.World.Files.{same_bytes}

pub data Reached : TokenStore → Type 0 where
  created : (ttl : ℕ) → Reached (record { token_store = []; ttl = ttl })
  after_upsert :
      (s : TokenStore) (now : ℕ) (token : Bytes) (r : Record)
      → Reached s
      → Reached (upsert now token r s)
  after_resolve :
      (s : TokenStore) (now : ℕ) (token : Bytes) → Reached s → Reached (resolve now token s).1
  after_remove : (s : TokenStore) (token : Bytes) → Reached s → Reached (remove_token token s).1
  after_sweep : (s : TokenStore) (now : ℕ) → Reached s → Reached (sweep_expired now s).1

pub erase_all-IsMap : (ts : List Bytes) (es : Entries) → IsMap es → IsMap (erase_all ts es)
unfolding erase_all
erase_all-IsMap [] es m = m
erase_all-IsMap (t ∷ ts) es m = erase_all-IsMap ts (erase t es) (erase-IsMap t es m)

pub Reached-IsMap : (s : TokenStore) → Reached s → IsMap s.token_store
unfolding resolve remove_token sweep_expired
Reached-IsMap _ (created ttl) = tt
Reached-IsMap _ (after_upsert s now token r h) = upsert-IsMap now token r s (Reached-IsMap s h)
Reached-IsMap _ (after_resolve s now token h) =
    erase_all-IsMap (expired_tokens s.ttl now s.token_store) s.token_store (Reached-IsMap s h)
Reached-IsMap _ (after_remove s token h) = erase-IsMap token s.token_store (Reached-IsMap s h)
Reached-IsMap _ (after_sweep s now h) =
    erase_all-IsMap (expired_tokens s.ttl now s.token_store) s.token_store (Reached-IsMap s h)

-- For a store after any calls, resolve after upsert finds the new record for its token and the
-- record that was there for any other, each as long as it has not expired.
pub resolve-Reached :
    (now later : ℕ) (token other : Bytes) (r : Record) (s : TokenStore)
    → Reached s
    → (resolve later other (upsert now token r s)).0
      ≡ live s.ttl later (
          if same_bytes other token
          then some (record r { registered_at = now })
          else find other s.token_store)
resolve-Reached now later token other r s h =
    resolve-upsert now later token other r s (Reached-IsMap s h)

-- For a store after any calls, resolve after a removal finds nothing for the removed token and
-- what it found before for any other.
pub remove_token-Reached :
    (later : ℕ) (token other : Bytes) (s : TokenStore)
    → Reached s
    → (resolve later other (remove_token token s).1).0
      ≡ (if same_bytes other token then none else live s.ttl later (find other s.token_store))
unfolding remove_token
remove_token-Reached later token other s h =
    resolve_lem later other (remove_token token s).1
      (Reached-IsMap (remove_token token s).1 (after_remove s token h))
    ∙ elim (Bool-cases (same_bytes other token)) [
      | inl same ↦ rw (find-erase other token s.token_store, same) refl
      | inr apart ↦ rw (find-erase other token s.token_store, apart) refl
    ]
