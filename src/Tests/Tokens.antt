-- ===== src/Tests/Tokens.antt =====
-- Runs of the token store.
use embr.Base.{[], ◌∷◌, ◌≡◌}
use embr.Tracker.{Record, TokenStore, erase, find, resolve, upsert}
use embr.Tracker.Lookup.{IsMap, live, resolve_lem, upsert-IsMap}

abbrev a_record : Record
a_record = record { sender_ip = b'1' ∷ []; sender_port = 9000; registered_at = 0 }

abbrev one_token : TokenStore
one_token = upsert 5 (b't' ∷ []) a_record (record { token_store = []; ttl = 60 })

one_token-IsMap : IsMap one_token.token_store
one_token-IsMap = upsert-IsMap 5 (b't' ∷ []) a_record (record { token_store = []; ttl = 60 }) tt

resolve_lem_example :
    (resolve 100 (b't' ∷ []) one_token).0
    ≡ live one_token.ttl 100 (find (b't' ∷ []) one_token.token_store)
unfolding upsert erase
resolve_lem_example = resolve_lem 100 (b't' ∷ []) one_token one_token-IsMap
