-- ===== src/Tests/Commands.antt =====
-- Examples for the set-up of connections and for the command line.
use embr.Base.{
  Bool, [], arith, err, false, get_elem?, inl, none, ok, refl, setup_failed, some, true, ℕ, ◌+◌,
  ◌<◌, ◌∷◌, ◌≡◌, ◌≢◌, ◌≤◌,
}
use embr.Cli.Config.{first_of, or_empty, resolve_tracker_url}
use embr.Cli.Trust.{resolve_tracker_url-run_trust_cli, run_trust_cli}
use embr.Setup.{acquired, gone, misused, releases, socket, standing}
use embr.Setup.Buffers.{Disjoint, buffers_lem, chunk_at, frag_at}
use embr.Setup.Client.{quic_connect}
use embr.Setup.Egress.{QuicCall, fcntl}
use embr.Setup.Rings.{
  IoUringCtx, chunk_buf, frag_buf, io_uring_destructor, iovecs, new_io_uring_ctx,
}
use embr.Setup.Server.{accept_and_destroy, accept_with_socket_fd, quic_accept}
use embr.Setup.Sockets.{
  quic_listen, tcp_accept, tcp_connect, tcp_listen, udp_data_client_connect, udp_data_server_bind,
  udp_data_server_connect, udp_destructor,
}
use embr.Setup.Settled.{is_tidy, is_tidy_quic}
use embr.Setup.Tidy.{accept_with_socket_fd_misused, factories_tidy}
use embr.Tests.{quiet_world}
use embr.Text.{codes}
use embr.World.Files.{same_bytes}

abbrev all_but_fcntl : QuicCall → Bool
all_but_fcntl fcntl = false
all_but_fcntl _ = true

abbrev a_ring : IoUringCtx
a_ring = record {
  chunk_mem = 4096;
  frag_mem = 8192;
  chunk_buf_count = 2;
  chunk_buf_size = 1024;
  frag_buf_count = 3;
  frag_buf_size = 100;
  registered_buffers = true;
}

factories_tidy_example :
    (is_tidy_quic all_but_fcntl (quic_connect all_but_fcntl []) ≡ true)
    × (is_tidy_quic all_but_fcntl (quic_accept all_but_fcntl (acquired socket ∷ [])) ≡ true)
    × (is_tidy (socket ∷ []) (tcp_connect (λ c. true) []) ≡ true)
    × (is_tidy (socket ∷ []) (tcp_listen (λ c. true) []) ≡ true)
    × (is_tidy (socket ∷ []) (tcp_accept (λ c. true) []) ≡ true)
    × (is_tidy (socket ∷ []) (quic_listen (λ c. true) []) ≡ true)
    × (is_tidy udp_destructor (udp_data_client_connect (λ c. true) (λ c. false) true a_ring [])
        ≡ true)
    × (is_tidy (socket ∷ []) (udp_data_server_bind (λ c. true) []) ≡ true)
    × (is_tidy udp_destructor
          (udp_data_server_connect (λ c. true) (λ c. false) true a_ring (acquired socket ∷ []))
        ≡ true)
    × (is_tidy io_uring_destructor (new_io_uring_ctx (λ c. false) true a_ring []) ≡ true)
factories_tidy_example = factories_tidy all_but_fcntl (λ c. true) (λ c. false) true a_ring

accept_with_socket_fd_misused_example :
    (releases socket (accept_and_destroy all_but_fcntl (acquired socket ∷ [])) ≡ 1)
    × (standing socket (accept_and_destroy all_but_fcntl (acquired socket ∷ [])) ≡ gone)
    × (releases socket (accept_with_socket_fd all_but_fcntl (acquired socket ∷ [])) ≡ 2)
    × (standing socket (accept_with_socket_fd all_but_fcntl (acquired socket ∷ [])) ≡ misused)
accept_with_socket_fd_misused_example = accept_with_socket_fd_misused all_but_fcntl

buffers_lem_example :
    (a_ring.chunk_buf_count ≤ 1 → chunk_buf a_ring 1 ≡ err setup_failed)
    × (a_ring.frag_buf_count ≤ 2 → frag_buf a_ring 2 ≡ err setup_failed)
    × (1 < a_ring.chunk_buf_count
        → (chunk_buf a_ring 1 ≡ ok (chunk_at a_ring 1))
          × (get_elem? (iovecs a_ring) 1
              ≡ some (record { iov_base = chunk_at a_ring 1; iov_len = a_ring.chunk_buf_size })))
    × (2 < a_ring.frag_buf_count
        → (frag_buf a_ring 2 ≡ ok (frag_at a_ring 2))
          × (get_elem? (iovecs a_ring) (a_ring.chunk_buf_count + 2)
              ≡ some (record { iov_base = frag_at a_ring 2; iov_len = a_ring.frag_buf_size })))
    × (1 < a_ring.chunk_buf_count
        → 2 < a_ring.frag_buf_count
        → Disjoint
            (chunk_at a_ring 1)
            a_ring.chunk_buf_size
            (frag_at a_ring 2)
            a_ring.frag_buf_size)
    × (◌≢◌ {A = ℕ} 1 0
        → Disjoint
            (chunk_at a_ring 1)
            a_ring.chunk_buf_size
            (chunk_at a_ring 0)
            a_ring.chunk_buf_size)
    × (◌≢◌ {A = ℕ} 2 0
        → Disjoint (frag_at a_ring 2) a_ring.frag_buf_size (frag_at a_ring 0) a_ring.frag_buf_size)
buffers_lem_example = buffers_lem a_ring 1 0 2 0 (record { apart = inl (omega arith) })

resolve_tracker_url-run_trust_cli_example :
    ((run_trust_cli (some (b'/' ∷ [])) (codes "host" ∷ []) quiet_world).0 ≡ ok 0)
    × (resolve_tracker_url
          (some (b'/' ∷ []))
          none
          []
          (run_trust_cli (some (b'/' ∷ [])) (codes "host" ∷ []) quiet_world).1
        ≡ first_of [] (first_of (or_empty none) (codes "host")))
    × ((run_trust_cli (some (b'/' ∷ [])) (codes "--clear" ∷ []) quiet_world).0 ≡ ok 0)
    × (resolve_tracker_url
          (some (b'/' ∷ []))
          none
          []
          (run_trust_cli (some (b'/' ∷ [])) (codes "--clear" ∷ []) quiet_world).1
        ≡ first_of [] (first_of (or_empty none) []))
unfolding same_bytes
resolve_tracker_url-run_trust_cli_example =
    resolve_tracker_url-run_trust_cli b'/' [] (codes "host") [] [] [] none quiet_world quiet_world
      (omega arith) refl refl refl refl
