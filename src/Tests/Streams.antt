-- ===== src/Tests/Streams.antt =====
-- Runs of the byte loops and of a push session.
use embr.Base.{List, [], arith, closed, err, map, refl, replicate, take, ℕ, ◌++◌, ◌∷◌, ◌≡◌}
use embr.Protocol.{Bytes}
use embr.Protocol.Build.{make_complete}
use embr.Protocol.RoundTrip.{layout}
use embr.Protocol.Small.{handshake_message}
use embr.Push.{run_push}
use embr.Push.Serve.{Describes, answers, meta_message, requests, run_push-Talks}
use embr.Tcp.{sendfile_loop, splice_loop}
use embr.Tcp.Errnos.{
  lasting_acceptances, lasting_arrivals, seen_by_recv_file, seen_by_send_file,
  sendfile_loop-eq-send_exact, splice_loop-eq-recv_exact,
}
use embr.Tcp.Moves.{as_received}
use embr.Tests.{quiet_world, small_meta, small_meta-IsFileMeta}
use embr.Transport.{Acceptance, Arrival, accepted, arrived, recv_loop, send_loop}
use embr.Transport.Errnos.{
  CallResult, call_errno, call_result, seen_by_recv_exact, seen_by_send_exact, without_eintr,
}
use embr.Transport.Exact.{
  IsSent, Received, SentAll, recv_loop-Received, recv_loop-closed, send_loop-IsSent,
  send_loop-SentAll,
}
use embr.Wire.Frames.{frame}
use embr.World.{World}
use embr.World.Talk.{Talks}

abbrev split_arrivals : List Arrival
split_arrivals = arrived (1 ∷ 2 ∷ []) ∷ Arrival.again ∷ arrived (3 ∷ 4 ∷ 5 ∷ []) ∷ []

recv_loop-Received_example : Received [] 3 split_arrivals
recv_loop-Received_example = recv_loop-Received split_arrivals [] 3 tt (omega arith)

recv_loop-closed_example : (recv_loop [] 7 split_arrivals).0 ≡ err closed
recv_loop-closed_example = recv_loop-closed split_arrivals [] 7 tt (omega arith)

abbrev slow_acceptances : List Acceptance
slow_acceptances = accepted 2 ∷ Acceptance.again ∷ accepted 9 ∷ accepted 1 ∷ []

send_loop-IsSent_example :
    IsSent (1 ∷ 2 ∷ 3 ∷ []) (send_loop (1 ∷ 2 ∷ 3 ∷ []) (accepted 2 ∷ Acceptance.failed 32 ∷ []))
send_loop-IsSent_example =
    send_loop-IsSent (accepted 2 ∷ Acceptance.failed 32 ∷ []) (1 ∷ 2 ∷ 3 ∷ [])

send_loop-SentAll_example : SentAll (1 ∷ 2 ∷ 3 ∷ []) slow_acceptances
send_loop-SentAll_example =
    send_loop-SentAll slow_acceptances (1 ∷ 2 ∷ 3 ∷ []) (omega arith) (omega arith)

-- A signal comes between two results.
abbrev signalled_results : List (CallResult Bytes)
signalled_results =
    call_result (1 ∷ 2 ∷ []) ∷ call_errno 4 ∷ call_result (3 ∷ 4 ∷ 5 ∷ []) ∷ call_errno 104 ∷ []

splice_loop-eq-recv_exact_example :
    recv_loop [] 4 (map seen_by_recv_exact (without_eintr signalled_results)) ≡ (
      (as_received [] (splice_loop 4 (map seen_by_recv_file signalled_results))).0,
      lasting_arrivals (splice_loop 4 (map seen_by_recv_file signalled_results)).rest,
    )
splice_loop-eq-recv_exact_example =
    splice_loop-eq-recv_exact signalled_results 4
      ((λ e. absurd (omega arith)), ((λ e. absurd (omega arith)), tt))

abbrev signalled_counts : List (CallResult ℕ)
signalled_counts = call_result 2 ∷ call_errno 4 ∷ call_errno 32 ∷ []

sendfile_loop-eq-send_exact_example :
    send_loop
      (take 3 (1 ∷ 2 ∷ 3 ∷ 4 ∷ []))
      (map seen_by_send_exact (without_eintr signalled_counts))
    ≡ record (sendfile_loop (1 ∷ 2 ∷ 3 ∷ 4 ∷ []) 3 (map seen_by_send_file signalled_counts)) {
      left =
          lasting_acceptances
            (sendfile_loop (1 ∷ 2 ∷ 3 ∷ 4 ∷ []) 3 (map seen_by_send_file signalled_counts)).left;
    }
sendfile_loop-eq-send_exact_example =
    sendfile_loop-eq-send_exact signalled_counts (1 ∷ 2 ∷ 3 ∷ 4 ∷ []) 3 (omega arith)
      ((λ e. absurd (omega arith)), ((λ e. absurd (omega arith)), tt))

abbrev pub small_file : Bytes
small_file = 10 ∷ 11 ∷ 12 ∷ 13 ∷ 14 ∷ []

abbrev asked : Bytes
asked = frame (handshake_message []) ++ (requests (0 ∷ 0 ∷ []) ++ [])

pub small_meta-Describes : Describes small_meta small_file
small_meta-Describes = record { size = refl; bounded = omega arith; count = refl }

abbrev asking_world : World
asking_world = record quiet_world {
  arrivals = arrived asked ∷ [];
  acceptances = replicate 100 (accepted 3);
}

run_push-Talks_example :
    Talks
      (run_push 3 small_file small_meta)
      2
      []
      (frame (meta_message small_meta) ++ answers small_file (0 ∷ 0 ∷ []))
      1
      asking_world
unfolding frame layout make_complete
run_push-Talks_example =
    run_push-Talks small_file small_meta small_meta-Describes [] (0 ∷ 0 ∷ []) 3 [] 1
      {w = asking_world} (omega arith) small_meta-IsFileMeta refl (omega arith, (omega arith, tt))
      (omega arith)
      (record {
        incoming = record { is_open = tt; delivers = refl };
        ready = record { is_ready = omega arith; has_room = omega arith };
      })
