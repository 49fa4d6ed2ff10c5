-- ===== src/Tests/Trackers.antt =====
-- Runs of a sender and a receiver at a tracker.
use embr.Base.{
  List, Option, [], arith, drop, err, false, malformed_response, none, ok, refl, replicate, some,
  true, ℕ, ◌∷◌, ◌≡◌,
}
use embr.Cli.{catch_exception}
use embr.Cli.Config.{resolve_tracker_url}
use embr.Cli.Meeting.{run_cli_meet, serve_peer}
use embr.Cli.Pull.{default_pull, embr_port, pull_from, run_pull_cli}
use embr.Cli.Push.{derive_token, run_push_cli}
use embr.Cli.Token.{IsDigest}
use embr.Exec.{Exec, pure}
use embr.Json.{json_get_str, json_get_u16}
use embr.Json.Lookup.{json_get-write_object}
use embr.Json.Members.{IsQuoteless, Member, number, text, text_of, u16_of, write_object}
use embr.Paths.{rfind}
use embr.Protocol.{Bytes}
use embr.Tests.{quiet_world, small_meta}
use embr.Text.{
  codes, empty_text, pos, read_digits, read_number, skip_spaces, split_sign, starts_with, stoi, ℤ,
}
use embr.Tracker.{TokenStore}
use embr.Tracker.Client.{HttpCall, get, post, tracker_register, tracker_resolve}
use embr.Tracker.Handlers.{
  Request, Response, all_of, client_ip, dispatch, get_resolve, post_register, valid_token,
}
use embr.Tracker.Proxied.{tracker_resolve_one_proxy}
use embr.Tracker.Requests.{run_events, sweep}
use embr.Tracker.Service.{IsTracker, delivered, tracker_resolve-register}
use embr.Tracker.Url.{ParsedUrl, parse_url}

abbrev no_response : Response
no_response = record { status = 0; body = [] }

-- The tracker at a time, as a peer reaches it.
abbrev tracker_at : ℕ → Request → Bytes → ℤ → HttpCall → TokenStore → Option Response × TokenStore
tracker_at now peer host port (post path body) s =
    delivered [] (dispatch now post_register (record peer { body = body }) no_response s)
tracker_at now peer host port (get path) s =
    delivered []
      (dispatch now (get_resolve (drop 9 path)) (record peer { body = [] }) no_response s)

abbrev direct : Request
direct = record {
  forwarded_for = none;
  remote_addr = codes "10.0.0.7";
  body = [];
  token_param = none;
}

abbrev proxied : Request
proxied = record direct { forwarded_for = some (codes "10.0.0.7") }

abbrev a_token : Bytes
a_token = codes "0123456789abcdef"

abbrev a_url : Bytes
a_url = codes "http://tracker:8000"

abbrev at_url : ParsedUrl
at_url = record { tracker_host = codes "tracker"; tracker_port = pos 8000 }

abbrev empty_store : TokenStore
empty_store = record { token_store = []; ttl = 60 }

a_url-parsed : parse_url a_url ≡ ok at_url
unfolding parse_url starts_with rfind stoi skip_spaces split_sign read_number read_digits
a_url-parsed = refl

a_token-valid : valid_token a_token ≡ true
unfolding valid_token all_of
a_token-valid = refl

tracker_at-IsTracker :
    (now : ℕ) (peer : Request)
    → IsTracker
        (tracker_at now peer)
        at_url.tracker_host
        at_url.tracker_port
        now
        peer
        no_response
        []
tracker_at-IsTracker now peer = record {
  on_register = λ body s. refl;
  on_resolve = λ token s valid. refl;
}

direct_ip : client_ip direct ≡ codes "10.0.0.7"
unfolding client_ip
direct_ip = refl

direct-IsQuoteless : IsQuoteless (client_ip direct)
unfolding client_ip
direct-IsQuoteless = omega arith

direct_seen : empty_text (client_ip direct) ≡ false
unfolding client_ip
direct_seen = refl

tracker_resolve-register_example :
    ((tracker_register (tracker_at 5 direct) a_url a_token 9000 empty_store).0 ≡ ok tt)
    × ((tracker_resolve (tracker_at 60 direct) a_url a_token (
          run_events
            (sweep 50 ∷ [])
            (tracker_register (tracker_at 5 direct) a_url a_token 9000 empty_store).1)).0
        ≡ ok (client_ip direct, 9000))
tracker_resolve-register_example =
    tracker_resolve-register (tracker_at 5 direct) (tracker_at 60 direct) a_url at_url 5 60 direct
      direct no_response [] a_url-parsed (tracker_at-IsTracker 5 direct)
      (tracker_at-IsTracker 60 direct) a_token 9000 a_token-valid (omega arith) (omega arith)
      (sweep 50 ∷ []) empty_store tt (omega arith) (omega arith, tt) direct-IsQuoteless direct_seen

tracker_resolve_one_proxy_example :
    ((tracker_register (tracker_at 5 proxied) a_url a_token 9000 empty_store).0 ≡ ok tt)
    × ((tracker_resolve (tracker_at 60 direct) a_url a_token (
          run_events []
            (tracker_register (tracker_at 5 proxied) a_url a_token 9000 empty_store).1)).0
        ≡ err malformed_response)
tracker_resolve_one_proxy_example =
    tracker_resolve_one_proxy (tracker_at 5 proxied) (tracker_at 60 direct) a_url at_url 5 60
      proxied direct no_response [] a_url-parsed (tracker_at-IsTracker 5 proxied)
      (tracker_at-IsTracker 60 direct) a_token 9000 a_token-valid (omega arith) (omega arith) []
      empty_store tt (omega arith) tt (codes "10.0.0.7") refl (omega arith)

abbrev two_members : List Member
two_members = text (codes "token") a_token ∷ number (codes "sender_port") 70000 ∷ []

json_get-write_object_example :
    (json_get_str (write_object two_members) (codes "token") ≡ text_of (codes "token") two_members)
    × (json_get_u16 (write_object two_members) (codes "token") ≡ u16_of (codes "token") two_members)
json_get-write_object_example =
    json_get-write_object (codes "token") (omega arith) two_members
      ((omega arith, omega arith), ((omega arith, omega arith), tt))

abbrev zeros : Bytes → Bytes
zeros b = replicate 32 0

zeros-IsDigest : IsDigest zeros
zeros-IsDigest = record { sized = λ b. refl; bytes = λ b. omega arith }

abbrev chosen_url : Bytes → TokenStore → Bytes
chosen_url flag s = resolve_tracker_url none none flag quiet_world

chosen_url-flag : (s : TokenStore) → chosen_url a_url s ≡ a_url
unfolding resolve_tracker_url
chosen_url-flag s = refl

abbrev done : {A : Type 0} → A → Exec TokenStore (Unit {0})
done a = pure tt

abbrev small_token : Bytes
small_token = derive_token zeros small_meta.chunk_hashes

abbrev small_registered : TokenStore
small_registered =
    (tracker_register (tracker_at 5 direct) a_url small_token embr_port empty_store).1

run_cli_meet_example :
    (run_push_cli zeros
        (tracker_at 5 direct)
        chosen_url
        (λ p. pure small_meta)
        done
        (λ q n. pure tt)
        (λ q l cert key. pure tt)
        (λ conn fd meta. pure tt)
        (codes "f" ∷ codes "--tracker" ∷ a_url ∷ [])
        empty_store
      ≡ catch_exception
          (serve_peer {F = Unit {0}} {L = Unit {0}} {C = Unit {0}} zeros zeros-IsDigest
            (λ s. false)
            (λ s e all. cc)
            (tracker_at 5 direct)
            (tracker_at 60 direct)
            chosen_url
            chosen_url
            a_url
            at_url
            5
            60
            direct
            direct
            no_response
            []
            a_url-parsed
            (tracker_at-IsTracker 5 direct)
            (tracker_at-IsTracker 60 direct)
            chosen_url-flag
            chosen_url-flag
            refl
            (λ p. pure small_meta)
            done
            (λ q n. pure tt)
            (λ q l cert key. pure tt)
            (λ conn fd meta. pure tt)
            (λ ip p. pure tt)
            (λ ip p. pure tt)
            (λ conn out. pure tt)
            small_meta
            tt
            tt
            small_token)
          small_registered)
    × (run_pull_cli
          (λ s. false)
          (tracker_at 60 direct)
          chosen_url
          (λ ip p. pure tt)
          (λ ip p. pure tt)
          (λ conn out. pure tt)
          (small_token ∷ codes "--tracker" ∷ a_url ∷ [])
          (run_events [] small_registered)
        ≡ catch_exception
            (pull_from
              (λ s. false)
              (tracker_at 60 direct)
              chosen_url
              (λ ip p. pure tt)
              (λ ip p. pure tt)
              (λ conn out. pure tt)
              (record default_pull { tracker_url = a_url })
              (client_ip direct, embr_port))
            (tracker_resolve
              (tracker_at 60 direct)
              a_url
              small_token
              (run_events [] small_registered)).1)
run_cli_meet_example =
    run_cli_meet {F = Unit {0}} {L = Unit {0}} {C = Unit {0}} zeros zeros-IsDigest (λ s. false)
      (λ s e all. cc) (tracker_at 5 direct) (tracker_at 60 direct) chosen_url chosen_url a_url
      at_url 5 60 direct direct no_response [] a_url-parsed (tracker_at-IsTracker 5 direct)
      (tracker_at-IsTracker 60 direct) chosen_url-flag chosen_url-flag refl (λ p. pure small_meta)
      done (λ q n. pure tt) (λ q l cert key. pure tt) (λ conn fd meta. pure tt) (λ ip p. pure tt)
      (λ ip p. pure tt) (λ conn out. pure tt) (codes "f") small_meta tt tt empty_store empty_store
      empty_store empty_store [] refl refl refl tt (omega arith) tt direct-IsQuoteless direct_seen
