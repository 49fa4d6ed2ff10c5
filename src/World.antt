-- ===== src/World.antt =====
-- What the transfer code acts on: the two scripts of its connection, the bytes it has sent, and the
-- file system, which maps paths to contents. Which paths may be opened for writing, which sizes
-- ftruncate grants and which lengths mmap maps is the environment's choice.
pub mod Stream
pub mod Files
pub mod Talk
pub mod Runs
use embr.Base.{Bool, List, Option, [], ℕ, ◌++◌}
use embr.Exec.{Exec}
use embr.Protocol.{Bytes}
use embr.Transport.{Acceptance, Arrival, recv_loop, send_loop}

pub record World : Type 0 where
  pub arrivals : List Arrival
  pub acceptances : List Acceptance
  pub wire : Bytes
  pub disk : Bytes → Option Bytes
  pub may_write : Bytes → Bool
  pub may_resize : ℕ → Bool
  pub may_map : ℕ → Bool

-- recv_exact and send_exact of src/transport/transport.hpp, on the connection of a world.
unfoldable pub recv_exact : ℕ → Exec World Bytes
recv_exact n w = let (r, es) = recv_loop [] n w.arrivals in (r, record w { arrivals = es })

unfoldable pub send_exact : Bytes → Exec World (Unit {0})
send_exact bs w =
    let s = send_loop bs w.acceptances in
    (s.result, record w { acceptances = s.left; wire = w.wire ++ s.sent })
