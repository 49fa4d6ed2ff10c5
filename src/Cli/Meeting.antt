-- ===== src/Cli/Meeting.antt =====
-- `embr push` and `embr pull` meet at a tracker: src/cli/push_cli.cpp and src/cli/pull_cli.cpp.
use embr.Base.{
  All, Bool, Bool-cases, List, Option, Result, [], ap, arith, false, inl, inr, ok, refl, true, ℕ,
  ◌+◌, ◌∷◌, ◌≡◌, ◌≢◌, ◌≤◌,
}
use embr.Cli.{catch_exception, is_flag, is_transport, next, parse_flags}
use embr.Cli.Pull.{
  after_pull_flags, default_pull, embr_port, is_token, pull_from, pull_session, run_pull_cli,
  take_pull_flag,
}
use embr.Cli.Push.{
  after_push_flags, default_push, derive_token, push_session, run_push_cli, take_push_flag,
  unregister_if,
}
use embr.Cli.Token.{IsDigest, derive_token-valid}
use embr.Exec.{Exec, pure, ◌>>=◌, ◌>>◌}
use embr.Json.Members.{IsQuoteless}
use embr.Protocol.{Bytes, FileMeta}
use embr.Text.{codes, empty_text, ℤ}
use embr.Tracker.{TokenStore}
use embr.Tracker.Client.{HttpCall, tracker_register, tracker_resolve}
use embr.Tracker.Handlers.{Request, Response, all_of, client_ip, is_hex_char}
use embr.Tracker.Lookup.{IsMap}
use embr.Tracker.Requests.{Event, IsElsewhere, run_events}
use embr.Tracker.Service.{IsTracker, tracker_resolve-register}
use embr.Tracker.Url.{ParsedUrl, parse_url}
use embr.World.Files.{same_bytes}

-- A text that inet_pton reads as an IPv4 address has a dot.
abbrev pub IsDotted : (Bytes → Bool) → Type 0
IsDotted reads_ipv4 = (s : Bytes) → reads_ipv4 s ≡ true → ¬ All (λ b. b ≢ b'.') s

module _ {F L C : Type 0} (sha256 : Bytes → Bytes) (digest : IsDigest sha256)
    (reads_ipv4 : Bytes → Bool) (dotted : IsDotted reads_ipv4)
    (push_call pull_call : Bytes → ℤ → HttpCall → TokenStore → Option Response × TokenStore)
    (push_url pull_url : Bytes → TokenStore → Bytes) (url : Bytes) (at : ParsedUrl)
    (sent_at asked_at : ℕ) (sender receiver : Request) (fresh : Response) (page : Bytes)
    (parsed : parse_url url ≡ ok at)
    (to_sender : IsTracker push_call at.tracker_host at.tracker_port sent_at sender fresh page)
    (to_receiver : IsTracker pull_call at.tracker_host at.tracker_port asked_at receiver fresh page)
    (push_flag : (s : TokenStore) → push_url url s ≡ url)
    (pull_flag : (s : TokenStore) → pull_url url s ≡ url) (some_url : empty_text url ≡ false)
    (precompute_meta : Bytes → Exec TokenStore FileMeta) (open_file : Bytes → Exec TokenStore F)
    (listen : Bool → ℕ → Exec TokenStore L) (accept : Bool → L → Bytes → Bytes → Exec TokenStore C)
    (run_push : C → F → FileMeta → Exec TokenStore (Unit {0}))
    (tcp_connect quic_connect : Bytes → ℕ → Exec TokenStore C)
    (run_pull : C → Bytes → Exec TokenStore (Unit {0})) where
  -- What push does behind the registration.
  abbrev pub serve_peer : FileMeta → F → L → Bytes → Exec TokenStore ℕ
  serve_peer meta file_fd listen_fd token = do
    conn ← accept false listen_fd (codes "cert.pem") (codes "key.pem")
    run_push conn file_fd meta
    unregister_if sha256 push_call push_url precompute_meta open_file listen accept run_push url
        token
    pure 0

  abbrev pub with_tracker : Bytes → List Bytes
  with_tracker arg = arg ∷ codes "--tracker" ∷ url ∷ []

  push_flags-read :
      parse_flags take_push_flag (codes "--tracker" ∷ url ∷ []) default_push
      ≡ ok (next (record default_push { tracker_url = url }))
  unfolding parse_flags take_push_flag same_bytes
  push_flags-read = refl

  pull_flags-read :
      parse_flags take_pull_flag (codes "--tracker" ∷ url ∷ []) default_pull
      ≡ ok (next (record default_pull { tracker_url = url }))
  unfolding parse_flags take_pull_flag same_bytes
  pull_flags-read = refl

  tcp_is_transport : is_transport (codes "tcp") ≡ true
  unfolding same_bytes
  tcp_is_transport = refl

  tcp_is_not_quic : is_flag (codes "tcp") "quic" ≡ false
  unfolding same_bytes
  tcp_is_not_quic = refl

  -- A dotted text is no token.
  hex_chars-dotless : (s : Bytes) → all_of is_hex_char s ≡ true → All (λ b. b ≢ b'.') s
  unfolding all_of
  hex_chars-dotless [] h = tt
  hex_chars-dotless (c ∷ s) h = (ground arith, hex_chars-dotless s (ground arith))

  token-dotless : (s : Bytes) → is_token s ≡ true → reads_ipv4 s ≡ false
  unfolding is_token
  token-dotless s h = elim (Bool-cases (reads_ipv4 s)) [
    | inl address ↦ absurd (dotted s address (hex_chars-dotless s (ground arith)))
    | inr none_read ↦ none_read
  ]

  -- A sender runs `embr push FILE --tracker URL` and a receiver later runs `embr pull TOKEN
  -- --tracker URL`, TOKEN being the one that push derives: if the file can be hashed and opened
  -- and the port listens, the tracker sees the sender under an address that is not empty and has
  -- no quote, and in between serves lookups, sweeps and requests about other tokens within the
  -- time to live, then push goes on to serve a peer with the state in which its token is
  -- registered, and pull goes on to pull over TCP from the address that the tracker saw and the
  -- default port.
  pub run_cli_meet :
      (file : Bytes) (meta : FileMeta) (file_fd : F) (listen_fd : L) (s a b c : TokenStore)
      (es : List Event)
      → precompute_meta file s ≡ (ok meta, a)
      → open_file file a ≡ (ok file_fd, b)
      → listen false embr_port b ≡ (ok listen_fd, c)
      → IsMap c.token_store
      → asked_at ≤ sent_at + c.ttl
      → All (IsElsewhere (derive_token sha256 meta.chunk_hashes) asked_at) es
      → IsQuoteless (client_ip sender)
      → empty_text (client_ip sender) ≡ false
      → (let token = derive_token sha256 meta.chunk_hashes in
          let registered = (tracker_register push_call url token embr_port c).1 in
          let later = run_events es registered in
          (run_push_cli sha256 push_call push_url precompute_meta open_file listen accept run_push
              (with_tracker file)
              s
            ≡ catch_exception (serve_peer meta file_fd listen_fd token) registered)
          × (run_pull_cli reads_ipv4 pull_call pull_url tcp_connect quic_connect run_pull
                (with_tracker token)
                later
              ≡ catch_exception
                  (pull_from reads_ipv4 pull_call pull_url tcp_connect quic_connect run_pull
                    (record default_pull { tracker_url = url })
                    (client_ip sender, embr_port))
                  (tracker_resolve pull_call url token later).1))
  unfolding run_push_cli after_push_flags push_session run_pull_cli after_pull_flags pull_session
  run_cli_meet file meta file_fd listen_fd s a b c es hashed opened listens is_map in_time others
        quoteless seen =
      let token = derive_token sha256 meta.chunk_hashes in
      let (valid, is_tok) = derive_token-valid sha256 meta.chunk_hashes digest in
      let (r, t) =
        tracker_resolve-register push_call pull_call url at sent_at asked_at sender receiver fresh
          page parsed to_sender to_receiver token embr_port valid (omega arith) (omega arith) es c
          is_map in_time others quoteless seen in
      let registered : tracker_register push_call url token embr_port c
          ≡ (ok tt, (tracker_register push_call url token embr_port c).1) =
        ap (λ (x : Result (Unit {0})). (x, (tracker_register push_call url token embr_port c).1))
          r in
      let later = run_events es (tracker_register push_call url token embr_port c).1 in
      let resolved : tracker_resolve pull_call url token later
          ≡ (ok (client_ip sender, embr_port), (tracker_resolve pull_call url token later).1) =
        ap (λ (x : Result (Bytes × ℕ)). (x, (tracker_resolve pull_call url token later).1)) t in
      (
        rw
            (
              push_flags-read,
              tcp_is_transport,
              push_flag s,
              hashed,
              tcp_is_not_quic,
              opened,
              listens,
              some_url,
              registered,
            )
            refl,
        rw
            (
              pull_flags-read,
              tcp_is_transport,
              pull_flag later,
              token-dotless token is_tok,
              is_tok,
              some_url,
              resolved,
            )
            refl,
      )
