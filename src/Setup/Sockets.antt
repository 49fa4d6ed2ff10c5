-- ===== src/Setup/Sockets.antt =====
-- The sockets of src/transport/tcp_client.cpp, tcp_server.cpp, udp_data_client.cpp,
-- udp_data_server.cpp, and quic_listen of quic_server.cpp. A SocketFd closes its socket when an
-- exception leaves its scope.
use embr.Base.{Bool, List, [], err, ok, ◌++◌, ◌∷◌}
use embr.Exec.{Exec, ◌>>◌}
use embr.Setup.{Ledger, Resource, acquire, check, released, socket}
use embr.Setup.Rings.{IoUringCtx, RingCall, io_uring_destructor, new_io_uring_ctx}

-- The calls that may fail.
pub data SocketCall : Type 0 where
  socket_call inet_pton bind listen accept connect probe_send probe_recv : SocketCall

module _ (works : SocketCall → Bool) where
  unfoldable pub tcp_connect : Exec Ledger (Unit {0})
  tcp_connect = do
    check (works socket_call) []
    acquire socket
    check (works inet_pton) (socket ∷ [])
    check (works connect) (socket ∷ [])

  unfoldable pub tcp_listen : Exec Ledger (Unit {0})
  tcp_listen = do
    check (works socket_call) []
    acquire socket
    check (works bind) (socket ∷ [])
    check (works listen) (socket ∷ [])

  unfoldable pub tcp_accept : Exec Ledger (Unit {0})
  tcp_accept = do check (works accept) []; acquire socket

  unfoldable pub quic_listen : Exec Ledger (Unit {0})
  quic_listen = do check (works socket_call) []; acquire socket; check (works bind) (socket ∷ [])

  unfoldable pub udp_data_server_bind : Exec Ledger (Unit {0})
  udp_data_server_bind = do
    check (works socket_call) []
    acquire socket
    check (works bind) (socket ∷ [])

-- What the destructor of UdpTransport frees: its members, the last first.
abbrev pub udp_destructor : List Resource
udp_destructor = io_uring_destructor ++ (socket ∷ [])

module _ (works : SocketCall → Bool) (ring_works : RingCall → Bool) (out_of_memlock : Bool) where
  -- new UdpTransport with the socket: what the constructor of its ring throws leaves it, and the
  -- socket is closed.
  unfoldable pub new_udp_transport : IoUringCtx → Exec Ledger IoUringCtx
  new_udp_transport c l =
      let (result, l') = new_io_uring_ctx ring_works out_of_memlock c l in
      elim result [ ok r ↦ (ok r, l') | err e ↦ (err e, released socket ∷ l') ]

  unfoldable pub udp_data_client_connect : IoUringCtx → Exec Ledger IoUringCtx
  udp_data_client_connect c = do
    check (works socket_call) []
    acquire socket
    check (works inet_pton) (socket ∷ [])
    check (works connect) (socket ∷ [])
    check (works probe_send) (socket ∷ [])
    new_udp_transport c

  -- With the socket of udp_data_server_bind.
  unfoldable pub udp_data_server_connect : IoUringCtx → Exec Ledger IoUringCtx
  udp_data_server_connect c = do
    check (works probe_recv) (socket ∷ [])
    check (works connect) (socket ∷ [])
    new_udp_transport c
