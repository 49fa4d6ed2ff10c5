-- ===== src/Setup/Server.antt =====
-- quic_accept of src/transport/quic_server.cpp. The socket that it is given is its own from then
-- on: it closes it on every error.
use embr.Base.{Bool, List, [], err, false, ok, true, ◌∷◌}
use embr.Exec.{Exec, ◌>>◌}
use embr.Setup.{Ledger, acquire, check, quic_conn, released, socket, tls_context, tls_session}
use embr.Setup.Client.{check_transport, new_transport, shake_hands}
use embr.Setup.Egress.{
  ConnCallback, PoolState, QuicCall, accept_initial, acked_stream_data_offset, configure_context,
  conn_server_new, connect_socket, context_new, decode_version_cid, decrypt, delete_crypto_aead_ctx,
  delete_crypto_cipher_ctx, destructor, encrypt, fcntl, feed_first_packet, first_recvmsg,
  get_new_connection_id, get_path_challenge_data, handshake_completed, hp_mask, no_egress,
  params_for, rand, recv_client_initial, recv_crypto_data, recv_stream_data, session_new,
  stream_open, update_key, use_alpn, use_certificate, use_private_key, version_negotiation,
  whole_first_packet, with_tls,
}

abbrev pub server_callbacks : List ConnCallback
server_callbacks =
    recv_client_initial ∷ recv_crypto_data ∷ encrypt ∷ decrypt ∷ hp_mask ∷ update_key
    ∷ delete_crypto_aead_ctx ∷ delete_crypto_cipher_ctx ∷ get_path_challenge_data
    ∷ version_negotiation ∷ handshake_completed ∷ stream_open ∷ recv_stream_data ∷ rand
    ∷ get_new_connection_id ∷ acked_stream_data_offset ∷ []

module _ (works : QuicCall → Bool) where
  unfoldable pub first_packet : Exec Ledger (Unit {0})
  first_packet = do
    check (works first_recvmsg) (socket ∷ [])
    check (works whole_first_packet) (socket ∷ [])
    check (works decode_version_cid) (socket ∷ [])
    check (works accept_initial) (socket ∷ [])
    check (works connect_socket) (socket ∷ [])
    check (works fcntl) (socket ∷ [])

  unfoldable pub server_tls : Exec Ledger (Unit {0})
  server_tls = do
    check (works context_new) (socket ∷ [])
    acquire tls_context
    check (works configure_context) (tls_context ∷ socket ∷ [])
    check (works use_certificate) (tls_context ∷ socket ∷ [])
    check (works use_private_key) (tls_context ∷ socket ∷ [])
    check (works session_new) (tls_context ∷ socket ∷ [])
    acquire tls_session
    check (works use_alpn) with_tls

  unfoldable pub server_conn : Exec Ledger PoolState
  server_conn = do
    check_transport works (works (conn_server_new (params_for true) server_callbacks)) false
        no_egress
    acquire quic_conn
    check_transport works (works feed_first_packet) true no_egress
    shake_hands works

  unfoldable pub quic_accept : Exec Ledger PoolState
  quic_accept = do first_packet; server_tls; new_transport works; server_conn

  -- run_push_cli of src/cli/push_cli.cpp over QUIC: quic_accept, and the end of the transport if
  -- there is one.
  unfoldable pub accept_and_destroy : Ledger → Ledger
  accept_and_destroy l =
      let (result, l') = quic_accept l in
      elim result [ ok e ↦ destructor works true e l' | err _ ↦ l' ]

  -- A SocketFd keeps the socket of quic_listen meanwhile, and closes it at the end of its scope.
  unfoldable pub accept_with_socket_fd : Ledger → Ledger
  accept_with_socket_fd l = released socket ∷ accept_and_destroy l
