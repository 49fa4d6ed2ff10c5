-- ===== src/Cli/Trust.antt =====
-- run_trust_cli of src/cli/trust_cli.cpp and run_tracker_cli of src/cli/tracker_cli.cpp.
use embr.Base.{
  All, List, Option, Result, [], ap, err, false, if◌then◌else◌, none, ok, refl, set, some, true, ℕ,
  ◌++◌, ◌∙◌, ◌∷◌, ◌≡◌, ◌≢◌,
}
use embr.Cli.{FlagStep, exit, is_flag, next, parse_flags, with_u16}
use embr.Cli.Config.{
  config_path, first_line, first_of, get_config_path, or_empty, read_tracker_url-content,
  read_tracker_url-put_file, resolve_tracker_url, resolve_tracker_url-read, write_tracker_url,
  write_tracker_url-put_file,
}
use embr.Exec.{Exec, lift, pure, ◌>>=◌, ◌>>◌}
use embr.Protocol.{Bytes, code}
use embr.Text.{codes, pos, stoi, ℤ}
use embr.World.{World}
use embr.World.Files.{content, drop_file, put_file, same_bytes, same_bytes_refl}

-- std::filesystem::exists and remove of the configuration.
abbrev pub clear_config : Bytes → World → World
clear_config path w = elim (w.disk path) [ none ↦ w | some bytes ↦ drop_file path w ]

-- The arguments behind the verb.
unfoldable pub run_trust_cli : Option Bytes → List Bytes → Exec World ℕ
run_trust_cli home [] = pure 1
run_trust_cli home (arg ∷ args) =
    let saves = (do write_tracker_url home arg; pure 0) in
    if is_flag arg "--list"
    then pure 0
    else if is_flag arg "--clear"
    then (λ w. (ok 0, clear_config (get_config_path home) w))
    else if is_flag arg "--help"
    then pure 0
    else saves

pub record TrackerConfig : Type 0 where
  pub bind_addr : Bytes
  pub bind_port : ℕ
  pub ttl : ℤ

abbrev pub default_tracker : TrackerConfig
default_tracker = record { bind_addr = codes "0.0.0.0"; bind_port = 10009; ttl = pos 10 }

abbrev pub with_int : {O : Type 0} → Result ℤ → (ℤ → O) → Result (FlagStep O)
with_int (ok n) set = ok (next (set n))
with_int (err e) set = err e

unfoldable pub take_tracker_flag : Bytes → Bytes → TrackerConfig → Result (FlagStep TrackerConfig)
take_tracker_flag flag value c =
    if is_flag flag "--bind"
    then ok (next (record c { bind_addr = value }))
    else if is_flag flag "--port"
    then with_u16 (stoi value) (λ n. record c { bind_port = n })
    else if is_flag flag "--ttl"
    then with_int (stoi value) (λ n. record c { ttl = n })
    else if is_flag flag "--help"
    then ok (exit 0)
    else ok (exit 1)

abbrev pub serve_tracker :
    {S : Type 0} → (TrackerConfig → Exec S (Unit {0})) → FlagStep TrackerConfig → Exec S ℕ
serve_tracker run_tracker_server (exit code) = pure code
serve_tracker run_tracker_server (next c) = do run_tracker_server c; pure 0

unfoldable pub run_tracker_cli :
    {S : Type 0} → (TrackerConfig → Exec S (Unit {0})) → List Bytes → Exec S ℕ
run_tracker_cli run_tracker_server args = do
  step ← lift (parse_flags take_tracker_flag args default_tracker)
  serve_tracker run_tracker_server step

pub content-clear_config : (path : Bytes) (w : World) → content path (clear_config path w) ≡ []
content-clear_config path w = split (w.disk path) refl
  where
    split : (o : Option Bytes) → w.disk path ≡ o → content path (clear_config path w) ≡ []
    split none e = rw (clear_config, e, content, e) refl
    split (some bytes) e = rw (clear_config, e, content, same_bytes_refl path) refl

module _ (c : ℕ) (home : Bytes) where
  -- With a HOME that is set and a file that may be written: after `embr trust URL`, which returns
  -- 0, for a URL without line ends that is no flag, the URL that is chosen is that of the flag if
  -- there is one, else that of the environment if it is set and not empty, and else URL; and after
  -- `embr trust --clear`, which returns 0, in any state, that of the flag, else that of the
  -- environment, else none.
  pub resolve_tracker_url-run_trust_cli :
      (url flag : Bytes) (args args' : List Bytes) (env : Option Bytes) (w v : World)
      → All (λ b. b ≢ 10) url
      → is_flag url "--list" ≡ false
      → is_flag url "--clear" ≡ false
      → is_flag url "--help" ≡ false
      → w.may_write (config_path c home) ≡ true
      → ((run_trust_cli (some (c ∷ home)) (url ∷ args) w).0 ≡ ok 0)
        × (resolve_tracker_url
              (some (c ∷ home))
              env
              flag
              (run_trust_cli (some (c ∷ home)) (url ∷ args) w).1
            ≡ first_of flag (first_of (or_empty env) url))
        × ((run_trust_cli (some (c ∷ home)) (codes "--clear" ∷ args') v).0 ≡ ok 0)
        × (resolve_tracker_url
              (some (c ∷ home))
              env
              flag
              (run_trust_cli (some (c ∷ home)) (codes "--clear" ∷ args') v).1
            ≡ first_of flag (first_of (or_empty env) []))
  unfolding run_trust_cli same_bytes first_line
  resolve_tracker_url-run_trust_cli url flag args args' env w v h l k e allowed =
      let there = put_file (config_path c home) (url ++ (10 ∷ [])) w in
      (
        rw (l, k, e, write_tracker_url-put_file c home url w allowed) refl,
        rw (l, k, e, write_tracker_url-put_file c home url w allowed)
            (resolve_tracker_url-read (some (c ∷ home)) env flag url there
              (read_tracker_url-put_file c home url w h)),
        refl,
        (resolve_tracker_url-read (some (c ∷ home)) env flag []
            (clear_config (config_path c home) v)
            (read_tracker_url-content c home (clear_config (config_path c home) v)
              ∙ ap first_line (content-clear_config (config_path c home) v)
              ∙ no_line)),
      )
    where
      no_line : first_line [] ≡ []
      no_line = refl
