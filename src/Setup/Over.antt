-- ===== src/Setup/Over.antt =====
-- The stages of quic_connect and quic_accept (src/transport/quic_client.cpp, quic_server.cpp): what
-- each leaves held, and where it leaves the pool of egress slots.
use embr.Base.{
  Bool, Bool-cases, List, Result, [], arith, err, false, inl, inr, ok, refl, subst, sym, true, ◌&&◌,
  ◌∷◌, ◌≡◌,
}
use embr.Exec.{Exec, continue, pure, ◌>>◌}
use embr.Setup.{
  Ledger, Resource, acquired, check, egress_ring, gone, quic_conn, release_all, released, releases,
  socket, standing, tls_context, tls_session,
}
use embr.Setup.Client.{
  begin_handshake, check_transport, client_conn, client_socket, client_tls, new_transport,
  quic_connect, shake_hands,
}
use embr.Setup.Egress.{
  PoolState, QuicCall, accept_initial, begin_packets, client_callbacks, configure_context,
  conn_client_new, conn_server_new, connect_socket, context_new, decode_version_cid, destructor,
  egress_queue_init, egress_register, fcntl, feed_first_packet, finish_handshake, first_recvmsg,
  getsockname, handshake_begins_packet, handshake_keeps_egress, held_by, make_pool, no_egress,
  open_bidi_stream, params_for, session_new, transport_new, use_alpn, use_certificate,
  use_private_key, whole_first_packet, with_tls, zero_copy_wanted,
}
use embr.Setup.Server.{first_packet, quic_accept, server_callbacks, server_conn, server_tls}
use embr.Setup.Settled.{all_held, is_over, is_over_quic, is_over_quic-tidy, is_tidy_quic}

-- With a connection and before the first packet.
abbrev attached : Ledger
attached = acquired quic_conn ∷ acquired tls_session ∷ acquired tls_context ∷ acquired socket ∷ []

-- Where the pool can stand after the handshake.
data Pooled : PoolState → Ledger → Type 0 where
  unmade : Pooled (record { egress_init = false; has_zc = false }) attached
  unused : Pooled (record { egress_init = true; has_zc = false }) attached
  dropped :
      Pooled
        (record { egress_init = true; has_zc = false })
        (released egress_ring ∷ acquired egress_ring ∷ attached)
  up : Pooled (record { egress_init = true; has_zc = true }) (acquired egress_ring ∷ attached)

-- A handshake that is done leaves the pool somewhere, and a failed one nothing.
abbrev Shaken : Result PoolState × Ledger → Type 0
Shaken (ok e, l) = Pooled e l
Shaken (err x, l) = is_over l ≡ true

-- With the socket and TLS, before the connection.
abbrev with_tls_kept : Ledger
with_tls_kept = acquired tls_session ∷ acquired tls_context ∷ acquired socket ∷ []

-- A stage of quic_accept ends at a ledger, or throws with everything over.
Reached : Ledger → Result (Unit {0}) × Ledger → Type 0
Reached t (ok u, l) = l ≡ t
Reached t (err x, l) = is_over l ≡ true

last :
    (call : Bool) (owned : List Resource) (l : Ledger)
    → is_over (release_all owned l) ≡ true
    → Reached l (check call owned l)
unfolding Reached
last true owned l over = refl
last false owned l over = over

step :
    (call : Bool) (owned : List Resource) (t l : Ledger) (k : Exec Ledger (Unit {0}))
    → is_over (release_all owned l) ≡ true
    → Reached t (k l)
    → Reached t ((check call owned >> k) l)
unfolding Reached
step true owned t l k over h = h
step false owned t l k over h = over

module _ (works : QuicCall → Bool) where
  Pooled-destructor :
      {e : PoolState} {l : Ledger} → Pooled e l → is_over (destructor works true e l) ≡ true
  unfolding destructor begin_packets make_pool
  Pooled-destructor unmade = ground arith
  Pooled-destructor unused = ground arith
  Pooled-destructor dropped = ground arith
  Pooled-destructor up = ground arith

  Pooled-held :
      {e : PoolState} {l : Ledger}
      → Pooled e l
      → all_held (held_by true e) l && is_over (release_all (held_by true e) l) ≡ true
  Pooled-held unmade = refl
  Pooled-held unused = refl
  Pooled-held dropped = refl
  Pooled-held up = refl

  begin_packets-Pooled :
      (lasts : Bool)
      → Pooled
          (begin_packets works lasts no_egress attached).0
          (begin_packets works lasts no_egress attached).1
  unfolding begin_packets make_pool
  begin_packets-Pooled lasts = elim (Bool-cases (works zero_copy_wanted)) [
    | inl pooled ↦ elim (Bool-cases (works egress_queue_init)) [
      | inl queue ↦ elim (Bool-cases (works egress_register)) [
        | inl registered ↦ elim (Bool-cases lasts) [
          | inl stays ↦ rw (pooled, queue, registered, stays) up
          | inr goes ↦ rw (pooled, queue, registered, goes) dropped
        ]
        | inr plain ↦ rw (pooled, queue, plain) dropped
      ]
      | inr no_ring ↦ rw (pooled, no_ring) unused
    ]
    | inr sendmsg ↦ rw sendmsg unused
  ]

  check_transport-Shaken :
      (call : Bool) {e : PoolState} {l : Ledger}
      → Pooled e l
      → Shaken ((check_transport works call true e >> pure e) l)
  unfolding check_transport
  check_transport-Shaken true p = p
  check_transport-Shaken false p = Pooled-destructor p

  shake_hands-Shaken : Shaken (shake_hands works attached)
  unfolding shake_hands begin_handshake
  shake_hands-Shaken = elim (Bool-cases (works handshake_begins_packet)) [
    | inl begins ↦ rw begins (
        check_transport-Shaken (works finish_handshake)
          (begin_packets-Pooled (works handshake_keeps_egress)))
    | inr silent ↦ rw silent (check_transport-Shaken (works finish_handshake) unmade)
  ]

  Shaken-over : (r : Result PoolState × Ledger) → Shaken r → is_over_quic works r ≡ true
  Shaken-over (ok e, l) p = ground (arith, Pooled-held p, Pooled-destructor p)
  Shaken-over (err x, l) p = p

  opened :
      (call : Bool) (r : Result PoolState × Ledger)
      → Shaken r
      → Shaken (continue r (λ e. check_transport works call true e >> pure e))
  opened call (ok e, l) p = check_transport-Shaken call p
  opened call (err x, l) p = p

  client_conn-over : is_over_quic works (client_conn works with_tls_kept) ≡ true
  unfolding client_conn check_transport destructor
  client_conn-over =
      elim (Bool-cases (works (conn_client_new (params_for false) client_callbacks))) [
        | inl connected ↦ rw connected (
            Shaken-over
              (continue (shake_hands works attached)
                (λ e. check_transport works (works open_bidi_stream) true e >> pure e))
              (opened (works open_bidi_stream) (shake_hands works attached) shake_hands-Shaken))
        | inr none_new ↦ rw none_new
      ]

  server_conn-over : is_over_quic works (server_conn works with_tls_kept) ≡ true
  unfolding server_conn check_transport destructor
  server_conn-over =
      elim (Bool-cases (works (conn_server_new (params_for true) server_callbacks))) [
        | inl connected ↦ elim (Bool-cases (works feed_first_packet)) [
          | inl taken ↦
              rw (connected, taken) (Shaken-over (shake_hands works attached) shake_hands-Shaken)
          | inr refused ↦ rw (connected, refused) (Pooled-destructor unmade)
        ]
        | inr none_new ↦ ground (arith, none_new)
      ]

  then_over :
      (r : Result (Unit {0}) × Ledger) (t : Ledger) (k : Exec Ledger PoolState)
      → Reached t r
      → is_over_quic works (k t) ≡ true
      → is_over_quic works (continue r (λ u. k)) ≡ true
  unfolding Reached
  then_over (ok u, l) t k e h = subst (λ (m : Ledger). is_over_quic works (k m) ≡ true) (sym e) h
  then_over (err x, l) t k over h = over

  pub quic_connect_tidy : is_tidy_quic works (quic_connect works []) ≡ true
  unfolding quic_connect client_socket client_tls new_transport
  quic_connect_tidy =
      ground (arith, is_over_quic-tidy works (client_conn works with_tls_kept) client_conn-over)

  first_packet-Reached : Reached (acquired socket ∷ []) (first_packet works (acquired socket ∷ []))
  unfolding first_packet
  first_packet-Reached = step (works first_recvmsg) (socket ∷ []) _ _ _ refl (
      step (works whole_first_packet) (socket ∷ []) _ _ _ refl (
        step (works decode_version_cid) (socket ∷ []) _ _ _ refl (
          step (works accept_initial) (socket ∷ []) _ _ _ refl (
            step (works connect_socket) (socket ∷ []) _ _ _ refl
              (last (works fcntl) (socket ∷ []) _ refl)))))

  server_tls-Reached : Reached with_tls_kept (server_tls works (acquired socket ∷ []))
  unfolding server_tls
  server_tls-Reached = step (works context_new) (socket ∷ []) _ _ _ refl (
      step (works configure_context) (tls_context ∷ socket ∷ []) _ _ _ refl (
        step (works use_certificate) (tls_context ∷ socket ∷ []) _ _ _ refl (
          step (works use_private_key) (tls_context ∷ socket ∷ []) _ _ _ refl (
            step (works session_new) (tls_context ∷ socket ∷ []) _ _ _ refl
              (last (works use_alpn) with_tls _ refl)))))

  new_transport-Reached : Reached with_tls_kept (new_transport works with_tls_kept)
  unfolding new_transport
  new_transport-Reached =
      step (works transport_new) with_tls _ _ _ refl (last (works getsockname) with_tls _ refl)

  pub quic_accept-over : is_over_quic works (quic_accept works (acquired socket ∷ [])) ≡ true
  unfolding quic_accept
  quic_accept-over =
      then_over (first_packet works (acquired socket ∷ [])) _ _ first_packet-Reached (
        then_over (server_tls works (acquired socket ∷ [])) _ _ server_tls-Reached (
          then_over (new_transport works with_tls_kept) _ _ new_transport-Reached server_conn-over))

  pub is_over-once :
      (l : Ledger) → is_over l ≡ true → (releases socket l ≡ 1) × (standing socket l ≡ gone)
  is_over-once l h = ground (arith, h)

  -- What the socket has seen when the transport is gone.
  pub ended :
      (r : Result PoolState × Ledger)
      → is_over_quic works r ≡ true
      → is_over (elim r.0 [ ok e ↦ destructor works true e r.1 | err x ↦ r.1 ]) ≡ true
  ended (ok e, l) h = ground (arith, h)
  ended (err x, l) h = h
