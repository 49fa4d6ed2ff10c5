-- ===== src/Tcp.antt =====
-- The data plane of src/transport/tcp_transport.cpp over the scripts of src/transport/transport.hpp:
-- a result of sendfile is an `Acceptance`, one of splice from the socket an `Arrival`. The `again` of
-- both is EINTR here, and EAGAIN is a failure (Tcp/Errnos.antt).
pub mod Moves
pub mod Errnos
pub mod Patch
use embr.Base.{
  List, Result, [], closed, drop, err, if◌then◌else◌, io_error, leb, length, ok, replicate, suc,
  take, zero, ℕ, ◌++◌, ◌+◌, ◌-◌, ◌∷◌,
}
use embr.Exec.{Exec}
use embr.Protocol.{Bytes}
use embr.Transport.{Acceptance, Arrival, Sending, accepted, again, arrived, failed}
use embr.World.{World}
use embr.World.Files.{content, put_file}

-- The loop of send_file: `left` is the file from the offset on, and `remain` bytes are to go. A
-- sendfile at the end of the file has the result 0.
unfoldable pub sendfile_loop : Bytes → ℕ → List Acceptance → Sending
sendfile_loop left zero es = record { result = ok tt; sent = []; left = es }
sendfile_loop left (suc n) [] = record { result = err closed; sent = []; left = [] }
sendfile_loop [] (suc n) (accepted k ∷ es) = record { result = err closed; sent = []; left = es }
sendfile_loop (b ∷ bs) (suc n) (accepted zero ∷ es) = record {
  result = err closed;
  sent = [];
  left = es;
}
sendfile_loop (b ∷ bs) (suc n) (accepted (suc k) ∷ es) =
    let moved = take k (take n bs) in
    let s = sendfile_loop (drop (length moved) bs) (n - length moved) es in
    record s { sent = b ∷ (moved ++ s.sent) }
sendfile_loop left (suc n) (Acceptance.again ∷ es) = sendfile_loop left (suc n) es
sendfile_loop left (suc n) (Acceptance.failed e ∷ es) = record {
  result = err (io_error e);
  sent = [];
  left = es;
}

unfoldable pub send_file : Bytes → ℕ → ℕ → Exec World (Unit {0})
send_file file offset len w =
    let s = sendfile_loop (drop offset file) len w.acceptances in
    (s.result, record w { acceptances = s.left; wire = w.wire ++ s.sent })

pub record Splicing : Type 0 where
  pub result : Result (Unit {0})
  pub moved : Bytes
  pub rest : List Arrival

-- The loop of recv_file: what has moved through the pipe into the file, and the script that is left.
-- The inner loop empties the pipe, and a write into a regular file does not fail.
unfoldable pub splice_loop : ℕ → List Arrival → Splicing
splice_loop zero es = record { result = ok tt; moved = []; rest = es }
splice_loop (suc n) [] = record { result = err closed; moved = []; rest = [] }
splice_loop (suc n) (arrived [] ∷ es) = record { result = err closed; moved = []; rest = es }
splice_loop (suc n) (arrived (b ∷ bs) ∷ es) =
    let s = splice_loop (n - length bs) es in
    if leb (length bs) n then record s { moved = (b ∷ bs) ++ s.moved } else record {
      result = ok tt;
      moved = take (suc n) (b ∷ bs);
      rest = arrived (drop (suc n) (b ∷ bs)) ∷ es;
    }
splice_loop (suc n) (Arrival.again ∷ es) = splice_loop (suc n) es
splice_loop (suc n) (Arrival.failed e ∷ es) = record {
  result = err (io_error e);
  moved = [];
  rest = es;
}

-- A file after `bytes` have been written at an offset; a gap reads as zeros, but a write of no bytes
-- leaves the file.
abbrev pub patch : Bytes → ℕ → Bytes → Bytes
patch file offset [] = file
patch file offset (b ∷ bs) =
    take offset (file ++ replicate offset 0) ++ (b ∷ (bs ++ drop (offset + length (b ∷ bs)) file))

unfoldable pub recv_file : Bytes → ℕ → ℕ → Exec World (Unit {0})
recv_file path offset len w =
    let s = splice_loop len w.arrivals in
    (
      s.result,
      put_file path (patch (content path w) offset s.moved) (record w { arrivals = s.rest }),
    )
