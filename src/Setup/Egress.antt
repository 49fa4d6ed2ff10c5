-- ===== src/Setup/Egress.antt =====
-- QuicTransport of src/transport/quic_transport.cpp as far as it holds resources: its pool of egress
-- slots, which the first packet makes, and its destructor. With it stands what the factories of
-- src/transport/quic_client.cpp and quic_server.cpp hand to ngtcp2, and the calls that may fail.
use embr.Base.{Bool, List, [], false, if◌then◌else◌, not, true, ℕ, ◌&&◌, ◌*◌, ◌++◌, ◌∷◌}
use embr.Setup.{
  Ledger, Resource, acquired, egress_ring, quic_conn, release_all, released, socket, tls_context,
  tls_session,
}

-- What both ends hand to ngtcp2.
pub record TransportParams : Type 0 where
  pub max_idle_timeout : ℕ
  pub initial_max_stream_data_bidi_local : ℕ
  pub initial_max_stream_data_bidi_remote : ℕ
  pub initial_max_data : ℕ
  pub initial_max_streams_bidi : ℕ
  pub original_dcid_present : Bool

pub data ConnCallback : Type 0 where
  client_initial recv_client_initial recv_crypto_data encrypt decrypt hp_mask : ConnCallback
  recv_retry update_key delete_crypto_aead_ctx delete_crypto_cipher_ctx : ConnCallback
  get_path_challenge_data version_negotiation handshake_completed stream_open : ConnCallback
  recv_stream_data rand get_new_connection_id acked_stream_data_offset : ConnCallback

-- Seconds in nanoseconds.
abbrev pub ngtcp2_seconds : ℕ
ngtcp2_seconds = 1000000000

abbrev pub params_for : Bool → TransportParams
params_for server = record {
  max_idle_timeout = 30 * ngtcp2_seconds;
  initial_max_stream_data_bidi_local = 4 * 1024 * 1024;
  initial_max_stream_data_bidi_remote = 4 * 1024 * 1024;
  initial_max_data = 8 * 1024 * 1024;
  initial_max_streams_bidi = 1;
  original_dcid_present = server;
}

abbrev pub client_callbacks : List ConnCallback
client_callbacks =
    client_initial ∷ recv_crypto_data ∷ encrypt ∷ decrypt ∷ hp_mask ∷ recv_retry ∷ update_key
    ∷ delete_crypto_aead_ctx ∷ delete_crypto_cipher_ctx ∷ get_path_challenge_data
    ∷ version_negotiation ∷ handshake_completed ∷ stream_open ∷ recv_stream_data ∷ rand
    ∷ get_new_connection_id ∷ acked_stream_data_offset ∷ []

-- What the kernel, the libraries and the environment decide, for both factories: which calls work,
-- whether the handshake and the linger of the last close get as far as a packet, and whether the
-- pool of egress slots is wanted and is still in use after them.
pub data QuicCall : Type 0 where
  socket_call inet_pton connect_socket fcntl context_new configure_context session_new use_alpn :
      QuicCall
  transport_new getsockname finish_handshake open_bidi_stream : QuicCall
  first_recvmsg decode_version_cid accept_initial use_certificate use_private_key : QuicCall
  whole_first_packet feed_first_packet : QuicCall
  conn_client_new conn_server_new : TransportParams → List ConnCallback → QuicCall
  zero_copy_wanted egress_queue_init egress_register : QuicCall
  handshake_begins_packet handshake_keeps_egress : QuicCall
  linger_begins_packet linger_keeps_egress : QuicCall

abbrev pub with_tls : List Resource
with_tls = tls_session ∷ tls_context ∷ socket ∷ []

-- egress_init_, and whether zc_ holds a pool.
pub record PoolState : Type 0 where
  pub egress_init : Bool
  pub has_zc : Bool

abbrev pub no_egress : PoolState
no_egress = record { egress_init = false; has_zc = false }

-- What a transport holds, in the order in which its destructor frees it: without and with a
-- connection.
abbrev pub held_by : Bool → PoolState → List Resource
held_by has_conn e =
    (if has_conn then quic_conn ∷ [] else [])
    ++ (tls_session ∷ tls_context ∷ [])
    ++ (if e.has_zc then egress_ring ∷ [] else [])
    ++ (socket ∷ [])

module _ (works : QuicCall → Bool) where
  -- Without its registration the ring is dropped again; without a ring sendmsg is used. The memory
  -- of the slots is taken to be there.
  unfoldable pub make_pool : Ledger → PoolState × Ledger
  make_pool l =
      if works zero_copy_wanted && works egress_queue_init
      then (if works egress_register
          then (record { egress_init = true; has_zc = true }, acquired egress_ring ∷ l)
          else (
            record { egress_init = true; has_zc = false },
            released egress_ring ∷ (acquired egress_ring ∷ l),
          ))
      else (record { egress_init = true; has_zc = false }, l)

  -- Some calls of begin_packet, each with flush_packets after it: the first makes the pool, and a
  -- pool that does not last is dropped.
  unfoldable pub begin_packets : Bool → PoolState → Ledger → PoolState × Ledger
  begin_packets lasts e l =
      let (e', l') = if e.egress_init then (e, l) else make_pool l in
      if e'.has_zc && not lasts
      then (record e' { has_zc = false }, released egress_ring ∷ l')
      else (e', l')

  -- A transport with a connection is closed first: CLOSE itself takes no slot, but the linger
  -- before it may begin packets.
  unfoldable pub destructor : Bool → PoolState → Ledger → Ledger
  destructor has_conn e l =
      let (e', l') =
        if has_conn && works linger_begins_packet
        then begin_packets (works linger_keeps_egress) e l
        else (e, l) in
      release_all (held_by has_conn e') l'
