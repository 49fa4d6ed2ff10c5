-- ===== src/Cli/Pull.antt =====
-- run_pull_cli of src/cli/pull_cli.cpp. The calls of reads_ipv4, of HTTP, of connect and of the
-- session itself are parameters.
use embr.Base.{Bool, List, Option, Result, [], false, if◌then◌else◌, length, not, ok, ℕ, ◌==◌, ◌∷◌}
use embr.Cli.{FlagStep, catch_exception, exit, is_flag, is_transport, next, parse_flags, with_u16}
use embr.Exec.{Exec, lift, pure, ◌>>=◌, ◌>>◌}
use embr.Protocol.{Bytes, code}
use embr.Text.{codes, empty_text, stoi, ℤ}
use embr.Tracker.Client.{HttpCall, tracker_resolve}
use embr.Tracker.Handlers.{Response, all_of, is_hex_char, token_size}

pub record PullOptions : Type 0 where
  pub port : ℕ
  pub tracker_url : Bytes
  pub out_path : Bytes
  pub transport : Bytes

abbrev pub embr_port : ℕ
embr_port = 10007

abbrev pub default_pull : PullOptions
default_pull = record { port = embr_port; tracker_url = []; out_path = []; transport = codes "tcp" }

unfoldable pub take_pull_flag : Bytes → Bytes → PullOptions → Result (FlagStep PullOptions)
take_pull_flag flag value o =
    if is_flag flag "--port"
    then with_u16 (stoi value) (λ n. record o { port = n })
    else if is_flag flag "--tracker"
    then ok (next (record o { tracker_url = value }))
    else if is_flag flag "--out"
    then ok (next (record o { out_path = value }))
    else if is_flag flag "--help"
    then ok (exit 0)
    else if is_flag flag "--transport"
    then ok (next (record o { transport = value }))
    else ok (exit 1)

unfoldable pub is_token : Bytes → Bool
is_token arg = if length arg == token_size then all_of is_hex_char arg else false

-- What the command does with the rest of the program.
module _ {S C : Type 0} (reads_ipv4 : Bytes → Bool)
    (call : Bytes → ℤ → HttpCall → S → Option Response × S) (saved_url : Bytes → S → Bytes)
    (tcp_connect quic_connect : Bytes → ℕ → Exec S C)
    (run_pull : C → Bytes → Exec S (Unit {0})) where
  unfoldable pub pull_from : PullOptions → Bytes × ℕ → Exec S ℕ
  pull_from o (sender_ip, sender_port) = do
    conn ← (if is_flag o.transport "quic" then quic_connect else tcp_connect) sender_ip sender_port
    run_pull conn o.out_path
    pure 0

  unfoldable pub pull_session : Bytes → PullOptions → Exec S ℕ
  pull_session arg o =
      let by_token = tracker_resolve call o.tracker_url arg >>= pull_from o in
      if reads_ipv4 arg
      then pull_from o (arg, o.port)
      else if is_token arg
      then (if empty_text o.tracker_url then pure 1 else by_token)
      else pure 1

  unfoldable pub after_pull_flags : Bytes → FlagStep PullOptions → Exec S ℕ
  after_pull_flags arg (exit code) s = (ok code, s)
  after_pull_flags arg (next o) s =
      if not (is_transport o.transport)
      then (ok 1, s)
      else catch_exception (pull_session arg (record o { tracker_url = saved_url o.tracker_url s }))
          s

  -- The arguments behind the verb.
  unfoldable pub run_pull_cli : List Bytes → Exec S ℕ
  run_pull_cli [] = pure 1
  run_pull_cli (arg ∷ flags) = do
    step ← lift (parse_flags take_pull_flag flags default_pull)
    after_pull_flags arg step
