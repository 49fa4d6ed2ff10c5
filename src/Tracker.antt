-- ===== src/Tracker.antt =====
-- src/tracker/token_store.cpp: where the sender of each token can be reached. The map is a list of
-- pairs; a call takes the time of its steady_clock. Each call reads and changes the map under the mutex, so that
-- calls from several threads happen one after another.
pub mod Lookup
pub mod Calls
pub mod Handlers
pub mod Url
pub mod Client
pub mod Requests
pub mod Service
pub mod Proxied
use embr.Base.{
  Bool, List, Option, [], false, if◌then◌else◌, length, ltb, none, some, true, ℕ, ◌-◌, ◌∷◌,
}
use embr.Protocol.{Bytes}
use embr.World.Files.{same_bytes}

pub record Record : Type 0 where
  pub sender_ip : Bytes
  pub sender_port : ℕ
  pub registered_at : ℕ

abbrev pub Entries : Type 0
Entries = List (Bytes × Record)

pub record TokenStore : Type 0 where
  pub token_store : Entries
  pub ttl : ℕ

unfoldable pub find : Bytes → Entries → Option Record
find token [] = none
find token ((key, r) ∷ es) = if same_bytes token key then some r else find token es

unfoldable pub erase : Bytes → Entries → Entries
erase token [] = []
erase token ((key, r) ∷ es) =
    let rest = erase token es in if same_bytes key token then rest else (key, r) ∷ rest

-- Older than the time to live.
abbrev pub is_expired : ℕ → ℕ → Record → Bool
is_expired ttl now r = ltb ttl (now - r.registered_at)

unfoldable pub expired_tokens : ℕ → ℕ → Entries → List Bytes
expired_tokens ttl now [] = []
expired_tokens ttl now ((key, r) ∷ es) =
    let rest = expired_tokens ttl now es in if is_expired ttl now r then key ∷ rest else rest

unfoldable pub erase_all : List Bytes → Entries → Entries
erase_all [] es = es
erase_all (t ∷ ts) es = erase_all ts (erase t es)

unfoldable pub upsert : ℕ → Bytes → Record → TokenStore → TokenStore
upsert now token r s = record s {
  token_store = (token, record r { registered_at = now }) ∷ erase token s.token_store;
}

unfoldable pub resolve : ℕ → Bytes → TokenStore → Option Record × TokenStore
resolve now token s =
    let swept = erase_all (expired_tokens s.ttl now s.token_store) s.token_store in
    (find token swept, record s { token_store = swept })

unfoldable pub remove_token : Bytes → TokenStore → Bool × TokenStore
remove_token token s = (
  elim (find token s.token_store) [ none ↦ false | some r ↦ true ],
  record s { token_store = erase token s.token_store },
)

unfoldable pub sweep_expired : ℕ → TokenStore → ℕ × TokenStore
sweep_expired now s =
    let expired = expired_tokens s.ttl now s.token_store in
    (length expired, record s { token_store = erase_all expired s.token_store })
