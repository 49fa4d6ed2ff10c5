-- ===== src/Tracker/Client.antt =====
-- src/tracker/tracker_client.cpp. httplib::Client is a parameter: what a request to a host and port
-- is answered, `none` for no answer, and the state that it leaves.
use embr.Base.{
  Option, Result, [], bad_status, connection_failed, err, if◌then◌else◌, malformed_response, none,
  ok, some, token_not_found, ℕ, ◌++◌, ◌==◌, ◌||◌,
}
use embr.Exec.{Exec, lift, pure, ◌>>=◌}
use embr.Json.{json_get_str, json_get_u16}
use embr.Protocol.{Bytes}
use embr.Text.{codes, empty_text, to_string, ℤ}
use embr.Tracker.Handlers.{Response}
use embr.Tracker.Url.{ParsedUrl, parse_url}

pub data HttpCall : Type 0 where
  post : Bytes → Bytes → HttpCall
  get : Bytes → HttpCall

unfoldable pub register_body : Bytes → ℕ → Bytes
register_body token sender_port =
    codes "{\"token\":\""
    ++ (token ++ (codes "\",\"sender_port\":" ++ (to_string sender_port ++ codes "}")))

abbrev pub check_registered : Option Response → Result (Unit {0})
check_registered none = err connection_failed
check_registered (some res) = if res.status == 200 then ok tt else err (bad_status res.status)

-- The pair that tracker_resolve returns.
unfoldable pub read_record : Bytes → Result (Bytes × ℕ)
read_record body =
    let sender_ip = json_get_str body (codes "sender_ip") in
    let sender_port = json_get_u16 body (codes "sender_port") in
    if empty_text sender_ip || (sender_port == 0)
    then err malformed_response
    else ok (sender_ip, sender_port)

unfoldable pub check_resolved : Option Response → Result (Bytes × ℕ)
check_resolved none = err connection_failed
check_resolved (some res) =
    if res.status == 404
    then err token_not_found
    else if res.status == 200
    then read_record res.body
    else err (bad_status res.status)

module _ {S : Type 0} (call : Bytes → ℤ → HttpCall → S → Option Response × S) where
  abbrev pub request : ParsedUrl → HttpCall → Exec S (Option Response)
  request url c s = let (found, s') = call url.tracker_host url.tracker_port c s in (ok found, s')

  unfoldable pub tracker_register : Bytes → Bytes → ℕ → Exec S (Unit {0})
  tracker_register tracker_url token sender_port = do
    url ← lift (parse_url tracker_url)
    result ← request url (post (codes "/register") (register_body token sender_port))
    lift (check_registered result)

  unfoldable pub tracker_resolve : Bytes → Bytes → Exec S (Bytes × ℕ)
  tracker_resolve tracker_url token = do
    url ← lift (parse_url tracker_url)
    result ← request url (get (codes "/resolve/" ++ token))
    lift (check_resolved result)

  unfoldable pub tracker_unregister : Bytes → Bytes → S → S
  tracker_unregister tracker_url token s =
      -- catch (...): whatever was thrown, what was done stays done.
      let (result, s') =
        (do
          url ← lift (parse_url tracker_url)
          result ← request url (post (codes "/unregister/" ++ token) [])
          pure tt)
          s in
      s'
