-- ===== src/Tracker/Requests.antt =====
-- What the requests of other senders leave of a record of the token store (src/tracker).
use embr.Base.{
  All, List, Result, [], ap, arith, false, if_split, not, some, sym, ℕ, ◌+◌, ◌==◌, ◌||◌, ◌∙◌, ◌∷◌,
  ◌≡◌, ◌≢◌, ◌≤◌,
}
use embr.Json.{json_get_str, json_get_u16}
use embr.Protocol.{Bytes}
use embr.Text.{codes}
use embr.Tracker.{
  Record, TokenStore, expired_tokens, find, remove_token, resolve, sweep_expired, upsert,
}
use embr.Tracker.Calls.{erase_all-IsMap}
use embr.Tracker.Handlers.{
  Request, Response, Route, dispatch, get_resolve, handle_register, handle_resolve,
  handle_unregister, post_register, post_unregister, valid_token,
}
use embr.Tracker.Lookup.{IsMap, erase-IsMap, find-erase, live, resolve_lem, upsert-IsMap}
use embr.World.Files.{same_bytes, same_bytes_ne}

pub data Event : Type 0 where
  request : ℕ → Route → Request → Response → Event
  sweep : ℕ → Event

-- What the tracker does at an event: a route of run_tracker_server, or its sweeper.
unfoldable pub on_event : Event → TokenStore → TokenStore
on_event (request now route req res) s = (dispatch now route req res s).1
on_event (sweep now) s = (sweep_expired now s).1

unfoldable pub run_events : List Event → TokenStore → TokenStore
run_events [] s = s
run_events (e ∷ es) s = run_events es (on_event e s)

-- Not after a time, and no registration or removal of the token.
abbrev pub IsElsewhere : Bytes → ℕ → Event → Type 0
IsElsewhere token until (sweep now) = now ≤ until
IsElsewhere token until (request now post_register req res) =
    (now ≤ until) × (json_get_str req.body (codes "token") ≢ token)
IsElsewhere token until (request now (get_resolve t) req res) = now ≤ until
IsElsewhere token until (request now (post_unregister t) req res) = (now ≤ until) × (t ≢ token)

-- A store in which a token has a record.
pub record Holds (token : Bytes) (r : Record) (ttl : ℕ) (s : TokenStore) : Type 0 where
  pub is_map : IsMap s.token_store
  pub found : find token s.token_store ≡ some r
  pub same_ttl : s.ttl ≡ ttl

module _ (token : Bytes) (r : Record) (ttl until : ℕ) (fresh : until ≤ r.registered_at + ttl) where
  -- A store from which what has expired is gone.
  swept-Holds :
      (now : ℕ) (t : Bytes) (s : TokenStore)
      → now ≤ until
      → Holds token r ttl s
      → Holds token r ttl (resolve now t s).1
  unfolding resolve
  swept-Holds now t s before h = record {
    is_map = erase_all-IsMap (expired_tokens s.ttl now s.token_store) s.token_store h.is_map;
    found = resolve_lem now token s h.is_map ∙ ap (live s.ttl now) h.found ∙ lives;
    same_ttl = h.same_ttl;
  }
    where
      lives : live s.ttl now (some r) ≡ some r
      lives = ground (arith, h.same_ttl)

  removed-Holds :
      (t : Bytes) (s : TokenStore)
      → t ≢ token
      → Holds token r ttl s
      → Holds token r ttl (remove_token t s).1
  unfolding remove_token
  removed-Holds t s other h = record {
    is_map = erase-IsMap t s.token_store h.is_map;
    found =
        find-erase token t s.token_store ∙ rw (same_bytes_ne token t (λ e. other (sym e))) h.found;
    same_ttl = h.same_ttl;
  }

  upserted-Holds :
      (now : ℕ) (t : Bytes) (r' : Record) (s : TokenStore)
      → t ≢ token
      → Holds token r ttl s
      → Holds token r ttl (upsert now t r' s)
  unfolding upsert find
  upserted-Holds now t r' s other h = record {
    is_map = upsert-IsMap now t r' s h.is_map;
    found = rw apart (find-erase token t s.token_store ∙ rw apart h.found);
    same_ttl = h.same_ttl;
  }
    where
      apart : same_bytes token t ≡ false
      apart = same_bytes_ne token t (λ e. other (sym e))

  on_event-Holds :
      (e : Event) (s : TokenStore)
      → IsElsewhere token until e
      → Holds token r ttl s
      → Holds token r ttl (on_event e s)
  unfolding on_event dispatch handle_register handle_resolve handle_unregister sweep_expired resolve
  on_event-Holds (sweep now) s before h = swept-Holds now token s before h
  on_event-Holds (request now post_register req res) s (before, other) h =
      if_split (λ (x : Result Response × TokenStore). Holds token r ttl x.1)
        (not (valid_token (json_get_str req.body (codes "token")))
          || (json_get_u16 req.body (codes "sender_port") == 0))
        _ _ (λ bad. h)
        (λ good. upserted-Holds now (json_get_str req.body (codes "token")) _ s other h)
  on_event-Holds (request now (get_resolve t) req res) s before h =
      if_split (λ (x : Result Response × TokenStore). Holds token r ttl x.1) (not (valid_token t)) _
        _ (λ bad. h) (λ good. swept-Holds now t s before h)
  on_event-Holds (request now (post_unregister t) req res) s (before, other) h =
      if_split (λ (x : Result Response × TokenStore). Holds token r ttl x.1) (not (valid_token t)) _
        _ (λ bad. h) (λ good. removed-Holds t s other h)

  pub run_events-Holds :
      (es : List Event) (s : TokenStore)
      → All (IsElsewhere token until) es
      → Holds token r ttl s
      → Holds token r ttl (run_events es s)
  unfolding run_events
  run_events-Holds [] s others h = h
  run_events-Holds (e ∷ es) s (other, others) h =
      run_events-Holds es (on_event e s) others (on_event-Holds e s other h)
