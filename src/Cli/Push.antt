-- ===== src/Cli/Push.antt =====
-- run_push_cli of src/cli/push_cli.cpp. What it calls of the rest of the program and of the
-- environment is a parameter.
use embr.Base.{
  Bool, List, Option, Result, [], concat, if◌then◌else◌, ltb, not, ok, take, ℕ, ◌%◌, ◌+◌, ◌-◌, ◌/◌,
  ◌∷◌,
}
use embr.Cli.{FlagStep, catch_exception, exit, is_flag, is_transport, next, parse_flags, with_u16}
use embr.Cli.Pull.{embr_port}
use embr.Exec.{Exec, lift, pure, ◌>>=◌, ◌>>◌}
use embr.Protocol.{Bytes, FileMeta, code}
use embr.Text.{codes, empty_text, stoi, ℤ}
use embr.Tracker.Client.{HttpCall, tracker_register, tracker_unregister}
use embr.Tracker.Handlers.{Response}

pub record PushOptions : Type 0 where
  pub port : ℕ
  pub tracker_url : Bytes
  pub sender_ip : Bytes
  pub transport : Bytes
  pub cert_path : Bytes
  pub key_path : Bytes

abbrev pub default_push : PushOptions
default_push = record {
  port = embr_port;
  tracker_url = [];
  sender_ip = [];
  transport = codes "tcp";
  cert_path = codes "cert.pem";
  key_path = codes "key.pem";
}

unfoldable pub take_push_flag : Bytes → Bytes → PushOptions → Result (FlagStep PushOptions)
take_push_flag flag value o =
    if is_flag flag "--port"
    then with_u16 (stoi value) (λ n. record o { port = n })
    else if is_flag flag "--tracker"
    then ok (next (record o { tracker_url = value }))
    else if is_flag flag "--ip"
    then ok (next (record o { sender_ip = value }))
    else if is_flag flag "--help"
    then ok (exit 0)
    else if is_flag flag "--transport"
    then ok (next (record o { transport = value }))
    else if is_flag flag "--cert"
    then ok (next (record o { cert_path = value }))
    else if is_flag flag "--key"
    then ok (next (record o { key_path = value }))
    else ok (exit 1)

-- std::hex, setw(2), setfill('0').
abbrev pub hex_digit : ℕ → ℕ
hex_digit d = if ltb d 10 then b'0' + d else b'a' + (d - 10)

unfoldable pub hex : Bytes → Bytes
hex [] = []
hex (b ∷ bs) = hex_digit (b / 16) ∷ hex_digit (b % 16) ∷ hex bs

unfoldable pub derive_token : (Bytes → Bytes) → List Bytes → Bytes
unfolding hex
derive_token sha256 chunk_hashes = hex (take 8 (sha256 (concat chunk_hashes)))

-- The calls: precompute_meta, open, tcp_listen or quic_listen, tcp_accept or quic_accept with the
-- certificate and its key, and run_push.
module _ {S F L C : Type 0} (sha256 : Bytes → Bytes)
    (call : Bytes → ℤ → HttpCall → S → Option Response × S) (saved_url : Bytes → S → Bytes)
    (precompute_meta : Bytes → Exec S FileMeta) (open_file : Bytes → Exec S F)
    (listen : Bool → ℕ → Exec S L) (accept : Bool → L → Bytes → Bytes → Exec S C)
    (run_push : C → F → FileMeta → Exec S (Unit {0})) where
  abbrev pub register_if : Bytes → Bytes → ℕ → Exec S (Unit {0})
  register_if url token port =
      if empty_text url then pure tt else tracker_register call url token port

  abbrev pub unregister_if : Bytes → Bytes → Exec S (Unit {0})
  unregister_if url token s =
      (ok tt, if empty_text url then s else tracker_unregister call url token s)

  unfoldable pub push_session : Bytes → PushOptions → Exec S ℕ
  push_session file_path o = do
    meta ← precompute_meta file_path
    file_fd ← open_file file_path
    listen_fd ← listen (is_flag o.transport "quic") o.port
    register_if o.tracker_url (derive_token sha256 meta.chunk_hashes) o.port
    conn ← accept (is_flag o.transport "quic") listen_fd o.cert_path o.key_path
    run_push conn file_fd meta
    unregister_if o.tracker_url (derive_token sha256 meta.chunk_hashes)
    pure 0

  unfoldable pub after_push_flags : Bytes → FlagStep PushOptions → Exec S ℕ
  after_push_flags file_path (exit code) s = (ok code, s)
  after_push_flags file_path (next o) s =
      if not (is_transport o.transport)
      then (ok 1, s)
      else catch_exception
          (push_session file_path (record o { tracker_url = saved_url o.tracker_url s })) s

  -- The arguments behind the verb.
  unfoldable pub run_push_cli : List Bytes → Exec S ℕ
  run_push_cli [] = pure 1
  run_push_cli (file_path ∷ flags) = do
    step ← lift (parse_flags take_push_flag flags default_push)
    after_push_flags file_path step
