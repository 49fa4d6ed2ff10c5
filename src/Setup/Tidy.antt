-- ===== src/Setup/Tidy.antt =====
-- What the set-up of connections leaves held: src/transport/quic_client.cpp, quic_server.cpp and
-- the sockets of the other transports.
use embr.Base.{Bool, [], arith, err, ok, refl, true, ◌∷◌, ◌≡◌}
use embr.Setup.{acquired, gone, misused, releases, socket, standing}
use embr.Setup.Client.{quic_connect}
use embr.Setup.Egress.{QuicCall, destructor}
use embr.Setup.Over.{ended, is_over-once, quic_accept-over, quic_connect_tidy}
use embr.Setup.Rings.{IoUringCtx, RingCall, io_uring_destructor, new_io_uring_ctx}
use embr.Setup.Server.{accept_and_destroy, accept_with_socket_fd, quic_accept}
use embr.Setup.Settled.{is_over_quic-tidy, is_tidy, is_tidy_quic}
use embr.Setup.Sockets.{
  SocketCall, new_udp_transport, quic_listen, tcp_accept, tcp_connect, tcp_listen,
  udp_data_client_connect, udp_data_server_bind, udp_data_server_connect, udp_destructor,
}

-- Whatever fails: if quic_connect, tcp_connect, tcp_listen, tcp_accept, quic_listen, a UDP set-up
-- or the constructor of IoUringCtx throws, or quic_accept or udp_data_server_connect with the
-- socket that it is given, then nothing is left held and nothing is released twice; if it returns,
-- it holds the socket, for QUIC the TLS context, the session, the connection and, if the handshake
-- made it, the ring of the egress pool, for a UDP transport the ring and both mappings too, and
-- for IoUringCtx these without a socket; releasing these leaves nothing held, and so does the
-- destructor of QuicTransport, though its linger may make or drop the pool.
pub factories_tidy :
    (works : QuicCall → Bool) (socket_works : SocketCall → Bool) (ring_works : RingCall → Bool)
    (out_of_memlock : Bool) (c : IoUringCtx)
    → (is_tidy_quic works (quic_connect works []) ≡ true)
      × (is_tidy_quic works (quic_accept works (acquired socket ∷ [])) ≡ true)
      × (is_tidy (socket ∷ []) (tcp_connect socket_works []) ≡ true)
      × (is_tidy (socket ∷ []) (tcp_listen socket_works []) ≡ true)
      × (is_tidy (socket ∷ []) (tcp_accept socket_works []) ≡ true)
      × (is_tidy (socket ∷ []) (quic_listen socket_works []) ≡ true)
      × (is_tidy udp_destructor
            (udp_data_client_connect socket_works ring_works out_of_memlock c [])
          ≡ true)
      × (is_tidy (socket ∷ []) (udp_data_server_bind socket_works []) ≡ true)
      × (is_tidy udp_destructor (
            udp_data_server_connect socket_works ring_works out_of_memlock c (acquired socket ∷ []))
          ≡ true)
      × (is_tidy io_uring_destructor (new_io_uring_ctx ring_works out_of_memlock c []) ≡ true)
unfolding tcp_connect tcp_listen tcp_accept quic_listen udp_data_client_connect udp_data_server_bind
    udp_data_server_connect new_udp_transport new_io_uring_ctx
factories_tidy works socket_works ring_works out_of_memlock c = (
  quic_connect_tidy works,
  is_over_quic-tidy works (quic_accept works (acquired socket ∷ [])) (quic_accept-over works),
  ground arith,
  ground arith,
  ground arith,
  ground arith,
  ground arith,
  ground arith,
  ground arith,
  ground arith,
)

-- Whatever fails: when run_push_cli serves over QUIC, the socket that quic_accept is given has
-- been closed exactly once when quic_accept has thrown or the transport is gone, and twice, the
-- second time while it is not held, when the SocketFd that still has it is gone too.
pub accept_with_socket_fd_misused :
    (works : QuicCall → Bool)
    → (releases socket (accept_and_destroy works (acquired socket ∷ [])) ≡ 1)
      × (standing socket (accept_and_destroy works (acquired socket ∷ [])) ≡ gone)
      × (releases socket (accept_with_socket_fd works (acquired socket ∷ [])) ≡ 2)
      × (standing socket (accept_with_socket_fd works (acquired socket ∷ [])) ≡ misused)
unfolding accept_with_socket_fd accept_and_destroy
accept_with_socket_fd_misused works =
    let r = quic_accept works (acquired socket ∷ []) in
    let (once, ended_gone) =
      is_over-once works (elim r.0 [ ok e ↦ destructor works true e r.1 | err x ↦ r.1 ])
        (ended works r (quic_accept-over works)) in
    (once, ended_gone, rw once refl, rw ended_gone refl)
