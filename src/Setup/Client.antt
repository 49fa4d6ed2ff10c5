-- ===== src/Setup/Client.antt =====
-- quic_connect of src/transport/quic_client.cpp, and the constructor of QuicTransport of
-- src/transport/quic_transport.cpp.
use embr.Base.{Bool, [], err, false, if◌then◌else◌, ok, setup_failed, true, ◌∷◌}
use embr.Exec.{Exec, pure, ◌>>=◌, ◌>>◌}
use embr.Setup.{Ledger, acquire, check, quic_conn, socket, tls_context, tls_session}
use embr.Setup.Egress.{
  PoolState, QuicCall, begin_packets, client_callbacks, conn_client_new, connect_socket,
  configure_context, context_new, destructor, fcntl, finish_handshake, getsockname,
  handshake_begins_packet, handshake_keeps_egress, inet_pton, no_egress, open_bidi_stream,
  params_for, session_new, socket_call, transport_new, use_alpn, with_tls,
}

module _ (works : QuicCall → Bool) where
  unfoldable pub client_socket : Exec Ledger (Unit {0})
  client_socket = do
    check (works socket_call) []
    acquire socket
    check (works inet_pton) (socket ∷ [])
    check (works connect_socket) (socket ∷ [])
    check (works fcntl) (socket ∷ [])

  unfoldable pub client_tls : Exec Ledger (Unit {0})
  client_tls = do
    check (works context_new) (socket ∷ [])
    acquire tls_context
    check (works configure_context) (tls_context ∷ socket ∷ [])
    check (works session_new) (tls_context ∷ socket ∷ [])
    acquire tls_session
    check (works use_alpn) with_tls

  -- new QuicTransport and its constructor: what it throws is caught, and thrown again.
  unfoldable pub new_transport : Exec Ledger (Unit {0})
  new_transport = do check (works transport_new) with_tls; check (works getsockname) with_tls

  -- A call on a transport: if it fails, the transport is deleted.
  unfoldable pub check_transport : Bool → Bool → PoolState → Exec Ledger (Unit {0})
  check_transport ok_call has_conn e l =
      if ok_call then (ok tt, l) else (err setup_failed, destructor works has_conn e l)

  unfoldable pub begin_handshake : Exec Ledger PoolState
  begin_handshake l =
      let (e, l') =
        if works handshake_begins_packet
        then begin_packets works (works handshake_keeps_egress) no_egress l
        else (no_egress, l) in
      (ok e, l')

  -- The packets of run_handshake, and whether it succeeds.
  unfoldable pub shake_hands : Exec Ledger PoolState
  shake_hands = do e ← begin_handshake; check_transport (works finish_handshake) true e; pure e

  unfoldable pub client_conn : Exec Ledger PoolState
  client_conn = do
    check_transport (works (conn_client_new (params_for false) client_callbacks)) false no_egress
    acquire quic_conn
    e ← shake_hands
    check_transport (works open_bidi_stream) true e
    pure e

  unfoldable pub quic_connect : Exec Ledger PoolState
  quic_connect = do client_socket; client_tls; new_transport; client_conn
