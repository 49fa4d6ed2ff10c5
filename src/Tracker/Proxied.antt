-- ===== src/Tracker/Proxied.antt =====
-- A sender behind one proxy: client_ip of src/tracker/tracker_handlers.cpp, as the receiver meets
-- it.
use embr.Base.{
  All, List, Option, [], ap, arith, err, false, malformed_response, none, ok, refl, some, subst,
  sym, true, ℕ, ◌+◌, ◌<◌, ◌==◌, ◌∙◌, ◌∷◌, ◌≡◌, ◌≢◌, ◌≤◌,
}
use embr.Json.Members.{IsQuoteless}
use embr.Protocol.{Bytes}
use embr.Text.{find_text, starts_with, ℤ}
use embr.Tracker.{TokenStore}
use embr.Tracker.Client.{HttpCall, tracker_register, tracker_resolve}
use embr.Tracker.Handlers.{Request, Response, client_ip, forwarded_ip, up_to, valid_token}
use embr.Tracker.Lookup.{IsMap}
use embr.Tracker.Requests.{Event, IsElsewhere, run_events}
use embr.Tracker.Service.{IsTracker, tracker_resolve-registered}
use embr.Tracker.Url.{ParsedUrl, parse_url}

find_text-none : (c : ℕ) (s : Bytes) → All (λ b. b ≢ c) s → find_text (c ∷ []) s ≡ none
unfolding find_text starts_with
find_text-none c [] h = refl
find_text-none c (b ∷ s) (ne, h) = rw (apart, find_text-none c s h) refl
  where
    apart : (c == b) ≡ false
    apart = ground arith

one_address :
    (req : Request) (xff : Bytes)
    → req.forwarded_for ≡ some xff
    → All (λ b. b ≢ b',') xff
    → client_ip req ≡ []
unfolding client_ip
one_address req xff e h =
    ap (λ (o : Option Bytes). forwarded_ip o req.remote_addr) e
    ∙ ap (λ (o : Option ℕ). up_to o xff) (find_text-none b',' xff h)

module _ (push_call pull_call : Bytes → ℤ → HttpCall → TokenStore → Option Response × TokenStore)
    (url : Bytes) (at : ParsedUrl) (sent_at asked_at : ℕ) (sender receiver : Request)
    (fresh : Response) (page : Bytes) (parsed : parse_url url ≡ ok at)
    (to_sender : IsTracker push_call at.tracker_host at.tracker_port sent_at sender fresh page)
    (to_receiver : IsTracker pull_call at.tracker_host at.tracker_port asked_at receiver fresh page)
    (token : Bytes) (port : ℕ) (valid : valid_token token ≡ true) (small : port < 65536)
    (some_port : 0 < port) (es : List Event) (s : TokenStore) (is_map : IsMap s.token_store)
    (in_time : asked_at ≤ sent_at + s.ttl) (elsewhere : All (IsElsewhere token asked_at) es) where
  -- Under the conditions of a registration that is looked up in time, with other requests between,
  -- if the sender's request has an X-Forwarded-For header without a comma, then tracker_register
  -- returns, and tracker_resolve throws the error of a malformed response.
  pub tracker_resolve_one_proxy :
      (xff : Bytes)
      → sender.forwarded_for ≡ some xff
      → All (λ b. b ≢ b',') xff
      → ((tracker_register push_call url token port s).0 ≡ ok tt)
        × ((tracker_resolve pull_call url token
              (run_events es (tracker_register push_call url token port s).1)).0
            ≡ err malformed_response)
  tracker_resolve_one_proxy xff e h =
      let none_seen = one_address sender xff e h in
      let (a, b) =
        tracker_resolve-registered push_call pull_call url at sent_at asked_at sender receiver fresh
          page parsed to_sender to_receiver token port valid small some_port es s is_map in_time
          elsewhere (subst (λ (t : Bytes). IsQuoteless t) (sym none_seen) tt) in
      (a, b ∙ rw none_seen refl)
