-- ===== src/Tracker/Service.antt =====
-- A sender and a receiver that meet at a tracker: src/tracker/tracker_client.cpp against the
-- routes of src/tracker/tracker_server.cpp.
use embr.Base.{
  All, List, Option, Result, [], ap, arith, err, false, if◌then◌else◌, malformed_response, none, ok,
  refl, some, true, ℕ, ◌%◌, ◌++◌, ◌+◌, ◌<◌, ◌==◌, ◌||◌, ◌∙◌, ◌∷◌, ◌≡◌, ◌≤◌,
}
use embr.Json.{json_get_str, json_get_u16}
use embr.Json.Lookup.{json_get-write_object}
use embr.Json.Members.{IsQuoteless, IsWritable, Member, number, text, text_of, u16_of, write_object}
use embr.Protocol.{Bytes}
use embr.Text.{codes, empty_text, ℤ}
use embr.Tracker.{Record, TokenStore, find, resolve, upsert}
use embr.Tracker.Client.{
  HttpCall, check_resolved, get, post, read_record, register_body, tracker_register,
  tracker_resolve,
}
use embr.Tracker.Handlers.{
  Request, Response, all_of, answer_record, client_ip, dispatch, get_resolve, handle_register,
  handle_resolve, is_hex_char, post_register, respond, valid_token,
}
use embr.Tracker.Lookup.{IsMap, live, resolve_lem, upsert-IsMap}
use embr.Tracker.Requests.{Event, Holds, IsElsewhere, run_events, run_events-Holds}
use embr.Tracker.Url.{ParsedUrl, parse_url}
use embr.World.Files.{same_bytes, same_bytes_refl}

-- What httplib makes of what a handler returns, or throws.
abbrev pub delivered : Bytes → Result Response × TokenStore → Option Response × TokenStore
delivered page (ok res, s) = (some res, s)
delivered page (err e, s) = (some (record { status = 500; body = page }), s)

-- httplib brings a request on a path to the route of that path, from a peer, and its answer back.
pub record IsTracker (call : Bytes → ℤ → HttpCall → TokenStore → Option Response × TokenStore)
    (host : Bytes) (port : ℤ) (now : ℕ) (peer : Request) (fresh : Response) (page : Bytes)
    : Type 0 where
  pub on_register :
      (body : Bytes) (s : TokenStore)
      → call host port (post (codes "/register") body) s
        ≡ delivered page (dispatch now post_register (record peer { body = body }) fresh s)
  pub on_resolve :
      (token : Bytes) (s : TokenStore)
      → valid_token token ≡ true
      → call host port (get (codes "/resolve/" ++ token)) s
        ≡ delivered page (dispatch now (get_resolve token) (record peer { body = [] }) fresh s)

all_of-All : (s : Bytes) → all_of is_hex_char s ≡ true → IsQuoteless s
unfolding all_of
all_of-All [] h = tt
all_of-All (c ∷ s) h = (ground arith, all_of-All s (ground arith))

valid_token-IsQuoteless : (token : Bytes) → valid_token token ≡ true → IsQuoteless token
unfolding valid_token
valid_token-IsQuoteless token h = all_of-All token (ground arith)

-- The members of what a sender registers, and of what it is answered.
abbrev registered : Bytes → ℕ → List Member
registered token port = text (codes "token") token ∷ number (codes "sender_port") port ∷ []

abbrev resolved : Bytes → ℕ → List Member
resolved ip port = text (codes "sender_ip") ip ∷ number (codes "sender_port") port ∷ []

module _ (token : Bytes) (port : ℕ) (valid : valid_token token ≡ true) (small : port < 65536) where
  registered-IsWritable : All IsWritable (registered token port)
  registered-IsWritable =
      ((omega arith, valid_token-IsQuoteless token valid), ((omega arith, omega arith), tt))

  pub json_get-register_body :
      (json_get_str (register_body token port) (codes "token") ≡ token)
      × (json_get_str (register_body token port) (codes "sender_ip") ≡ [])
      × (json_get_u16 (register_body token port) (codes "sender_port") ≡ port)
  unfolding register_body write_object text_of u16_of same_bytes
  json_get-register_body = (
    (json_get-write_object (codes "token") (omega arith) (registered token port)
        registered-IsWritable).0,
    (json_get-write_object (codes "sender_ip") (omega arith) (registered token port)
        registered-IsWritable).0,
    (json_get-write_object (codes "sender_port") (omega arith) (registered token port)
          registered-IsWritable).1
        ∙ omega arith,
  )

  -- What a registration does.
  pub handle_register_lem :
      (now : ℕ) (req : Request) (res : Response) (s : TokenStore)
      → req.body ≡ register_body token port
      → 0 < port
      → handle_register now req res s ≡ (
        ok (respond 200 (codes "{\"sender_ip\":\"" ++ (client_ip req ++ codes "\"}")) res),
        upsert now token
            (record { sender_ip = client_ip req; sender_port = port; registered_at = 0 })
            s,
      )
  unfolding handle_register
  handle_register_lem now req res s e some_port =
      let (t, i, p) = json_get-register_body in
      let nonzero : (port == 0) ≡ false = ground arith in rw (e, t, i, p, valid, nonzero) refl

  -- What a receiver reads of the answer.
  pub read_record-answer_record :
      (r : Record) (res : Response)
      → r.sender_port ≡ port
      → IsQuoteless r.sender_ip
      → read_record (answer_record (some r) res).body ≡ (
          if empty_text r.sender_ip || (port == 0)
          then err malformed_response
          else ok (r.sender_ip, port))
  unfolding read_record write_object text_of u16_of same_bytes
  read_record-answer_record r res e quoteless =
      let writable : All IsWritable (resolved r.sender_ip port) =
        ((omega arith, quoteless), ((omega arith, omega arith), tt)) in
      let ip =
        json_get-write_object (codes "sender_ip") (omega arith) (resolved r.sender_ip port)
          writable in
      let p =
        json_get-write_object (codes "sender_port") (omega arith) (resolved r.sender_ip port)
          writable in
      let cut : port % 65536 ≡ port = omega arith in rw (e, ip.0, p.1, cut) refl

-- A sender that registers, and a receiver that resolves its token later, at the same tracker.
module _ (push_call pull_call : Bytes → ℤ → HttpCall → TokenStore → Option Response × TokenStore)
    (url : Bytes) (at : ParsedUrl) (sent_at asked_at : ℕ) (sender receiver : Request)
    (fresh : Response) (page : Bytes) (parsed : parse_url url ≡ ok at)
    (to_sender : IsTracker push_call at.tracker_host at.tracker_port sent_at sender fresh page)
    (to_receiver : IsTracker pull_call at.tracker_host at.tracker_port asked_at receiver fresh page)
    (token : Bytes) (port : ℕ) (valid : valid_token token ≡ true) (small : port < 65536)
    (some_port : 0 < port) where
  the_record : Record
  the_record = record { sender_ip = client_ip sender; sender_port = port; registered_at = sent_at }

  tracker_register-upsert :
      (s : TokenStore)
      → tracker_register push_call url token port s ≡ (ok tt, upsert sent_at token the_record s)
  unfolding tracker_register dispatch client_ip upsert the_record
  tracker_register-upsert s =
      rw
        (
          parsed,
          to_sender.on_register (register_body token port) s,
          handle_register_lem token port valid small sent_at
              (record sender { body = register_body token port; token_param = none }) fresh s refl
              some_port,
        )
        refl

  tracker_resolve-found :
      (s : TokenStore)
      → IsQuoteless (client_ip sender)
      → (resolve asked_at token s).0 ≡ some the_record
      → (tracker_resolve pull_call url token s).0 ≡ (
          if empty_text (client_ip sender) || (port == 0)
          then err malformed_response
          else ok (client_ip sender, port))
  unfolding tracker_resolve dispatch handle_resolve check_resolved the_record
  tracker_resolve-found s quoteless found =
      rw (parsed, to_receiver.on_resolve token s valid, valid, found)
        (read_record-answer_record token port valid small the_record fresh refl quoteless)

  upsert-Holds :
      (s : TokenStore)
      → IsMap s.token_store
      → Holds token the_record s.ttl (upsert sent_at token the_record s)
  unfolding upsert find the_record
  upsert-Holds s m = record {
    is_map = upsert-IsMap sent_at token the_record s m;
    found = rw (same_bytes_refl token) refl;
    same_ttl = refl;
  }

  module _ (es : List Event) (s : TokenStore) (is_map : IsMap s.token_store)
      (in_time : asked_at ≤ sent_at + s.ttl) (elsewhere : All (IsElsewhere token asked_at) es)
      (quoteless : IsQuoteless (client_ip sender)) where
    resolve-later :
        (resolve asked_at token (run_events es (upsert sent_at token the_record s))).0
        ≡ some the_record
    unfolding the_record
    resolve-later =
        let h =
          run_events-Holds token the_record s.ttl asked_at in_time es
            (upsert sent_at token the_record s) elsewhere (upsert-Holds s is_map) in
        let t = run_events es (upsert sent_at token the_record s) in
        let lives : live t.ttl asked_at (some the_record) ≡ some the_record =
          ground (arith, h.same_ttl) in
        resolve_lem asked_at token t h.is_map ∙ ap (live t.ttl asked_at) h.found ∙ lives

    -- What the receiver gets, whatever address the tracker saw.
    pub tracker_resolve-registered :
        (tracker_register push_call url token port s).0 ≡ ok tt
        × ((tracker_resolve pull_call url token
              (run_events es (tracker_register push_call url token port s).1)).0
            ≡ (if empty_text (client_ip sender) || (port == 0)
                then err malformed_response
                else ok (client_ip sender, port)))
    tracker_resolve-registered = rw (tracker_register-upsert s) (
      refl,
      tracker_resolve-found (run_events es (upsert sent_at token the_record s)) quoteless
          resolve-later,
    )

    -- For a token of 16 hexadecimal digits, a port from 1 to 65535, and a tracker that both ends
    -- reach by a URL that parses: if it sees the sender under an address that is not empty and has
    -- no quote, then tracker_register returns, and tracker_resolve by the receiver, within the
    -- time to live, returns that address and the port, whatever requests about other tokens,
    -- lookups and sweeps the tracker has served meanwhile.
    pub tracker_resolve-register :
        empty_text (client_ip sender) ≡ false
        → ((tracker_register push_call url token port s).0 ≡ ok tt)
          × ((tracker_resolve pull_call url token
                (run_events es (tracker_register push_call url token port s).1)).0
              ≡ ok (client_ip sender, port))
    tracker_resolve-register seen =
        let (a, b) = tracker_resolve-registered in
        let nonzero : (port == 0) ≡ false = ground arith in (a, b ∙ rw (seen, nonzero) refl)
