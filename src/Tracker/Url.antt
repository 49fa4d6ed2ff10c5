-- ===== src/Tracker/Url.antt =====
-- parse_url of src/tracker/tracker_client.cpp.
use embr.Base.{Option, Result, drop, if◌then◌else◌, ltb, none, ok, some, take, ℕ, ◌+◌, ◌-◌, ◌>>=◌}
use embr.Paths.{rfind}
use embr.Protocol.{Bytes}
use embr.Text.{codes, pos, starts_with, stoi, ℤ}

pub record ParsedUrl : Type 0 where
  pub tracker_host : Bytes
  pub tracker_port : ℤ

abbrev pub tracker_port_default : ℕ
tracker_port_default = 10009

abbrev pub url_prefix : Bytes
url_prefix = codes "http://"

-- The text from start on, with the default port.
abbrev pub without_port : ℕ → Bytes → Result ParsedUrl
without_port start url =
    ok (record { tracker_host = drop start url; tracker_port = pos tracker_port_default })

abbrev pub split_port : ℕ → Bytes → Option ℕ → Result ParsedUrl
split_port start url none = without_port start url
split_port start url (some colon_pos) =
    if ltb colon_pos start
    then without_port start url
    else (stoi (drop (colon_pos + 1) url) >>= λ port.
        ok (record {
          tracker_host = take (colon_pos - start) (drop start url);
          tracker_port = port;
        }))

unfoldable pub parse_url : Bytes → Result ParsedUrl
parse_url tracker_url =
    let start : ℕ = if starts_with url_prefix tracker_url then 7 else 0 in
    split_port start tracker_url (rfind b':' tracker_url)
