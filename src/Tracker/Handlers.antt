-- ===== src/Tracker/Handlers.antt =====
-- src/tracker/tracker_handlers.cpp, and the routes of src/tracker/tracker_server.cpp that call it.
-- A handler takes the time of the store's clock.
use embr.Base.{
  Bool, Option, Result, [], err, false, if◌then◌else◌, leb, length, none, not, ok, out_of_range,
  some, take, true, ℕ, ◌&&◌, ◌++◌, ◌==◌, ◌||◌, ◌∷◌,
}
use embr.Exec.{Exec, lift, ◌>>=◌}
use embr.Json.{json_get_str, json_get_u16}
use embr.Protocol.{Bytes}
use embr.Text.{codes, empty_text, find_text, to_string}
use embr.Tracker.{Record, TokenStore, remove_token, resolve, upsert}
use embr.World.Files.{content}

-- Of httplib::Request, what the handlers read: the X-Forwarded-For header, the address of the peer,
-- the body, and the token that the route takes from the path.
pub record Request : Type 0 where
  pub forwarded_for : Option Bytes
  pub remote_addr : Bytes
  pub body : Bytes
  pub token_param : Option Bytes

pub record Response : Type 0 where
  pub status : ℕ
  pub body : Bytes

abbrev pub token_size : ℕ
token_size = 16

abbrev pub is_hex_char : ℕ → Bool
is_hex_char c = (leb b'0' c && leb c b'9') || (leb b'a' c && leb c b'f')

unfoldable pub all_of : (ℕ → Bool) → Bytes → Bool
all_of p [] = true
all_of p (c ∷ s) = p c && all_of p s

unfoldable pub valid_token : Bytes → Bool
valid_token token = if length token == token_size then all_of is_hex_char token else false

-- The text up to a place; nothing for npos.
abbrev pub up_to : Option ℕ → Bytes → Bytes
up_to none s = []
up_to (some n) s = take n s

abbrev pub forwarded_ip : Option Bytes → Bytes → Bytes
forwarded_ip none remote_addr = remote_addr
forwarded_ip (some xff) remote_addr = up_to (find_text (codes ",") xff) xff

unfoldable pub client_ip : Request → Bytes
client_ip req = forwarded_ip req.forwarded_for req.remote_addr

-- res.status and res.set_content.
abbrev pub respond : ℕ → Bytes → Response → Response
respond status content res = record res { status = status; body = content }

unfoldable pub handle_register : ℕ → Request → Response → Exec TokenStore Response
handle_register now req res store =
    let token = json_get_str req.body (codes "token") in
    let port = json_get_u16 req.body (codes "sender_port") in
    let sender_ip = json_get_str req.body (codes "sender_ip") in
    if not (valid_token token) || (port == 0)
    then (ok (respond 400 (codes "{\"error\":\"malformed token or missing port\"}") res), store)
    else (let ip = if empty_text sender_ip then client_ip req else sender_ip in
        (
          ok (respond 200 (codes "{\"sender_ip\":\"" ++ (ip ++ codes "\"}")) res),
          upsert now token (record { sender_ip = ip; sender_port = port; registered_at = 0 }) store,
        ))

-- req.path_params.at("token").
abbrev pub path_token : Request → Result Bytes
path_token req = elim (req.token_param) [ none ↦ err out_of_range | some token ↦ ok token ]

abbrev pub malformed_token : Response → Response
malformed_token res = respond 400 (codes "{\"error\":\"malformed token\"}") res

abbrev pub answer_record : Option Record → Response → Response
answer_record none res = respond 404 (codes "{\"error\":\"token not found\"}") res
answer_record (some r) res =
    respond 200
      (codes "{\"sender_ip\":\""
        ++ (r.sender_ip ++ (codes "\",\"sender_port\":" ++ (to_string r.sender_port ++ codes "}"))))
      res

abbrev pub resolve_token : ℕ → Bytes → Response → Exec TokenStore Response
resolve_token now token res store =
    if not (valid_token token)
    then (ok (malformed_token res), store)
    else (let (record', store') = resolve now token store in
        (ok (answer_record record' res), store'))

unfoldable pub handle_resolve : ℕ → Request → Response → Exec TokenStore Response
handle_resolve now req res = do token ← lift (path_token req); resolve_token now token res

abbrev pub unregister_token : Bytes → Response → Exec TokenStore Response
unregister_token token res store =
    if not (valid_token token)
    then (ok (malformed_token res), store)
    else (ok (record res { status = 204 }), (remove_token token store).1)

unfoldable pub handle_unregister : Request → Response → Exec TokenStore Response
handle_unregister req res = do token ← lift (path_token req); unregister_token token res

-- The routes of run_tracker_server, each with the token of its path.
pub data Route : Type 0 where
  post_register : Route
  get_resolve post_unregister : Bytes → Route

unfoldable pub dispatch : ℕ → Route → Request → Response → Exec TokenStore Response
dispatch now post_register req res = handle_register now (record req { token_param = none }) res
dispatch now (get_resolve token) req res =
    handle_resolve now (record req { token_param = some token }) res
dispatch now (post_unregister token) req res =
    handle_unregister (record req { token_param = some token }) res
