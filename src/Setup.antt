-- ===== src/Setup.antt =====
-- What the set-up of connections and rings acquires and releases. Whether a call of the kernel, of
-- wolfSSL, of ngtcp2 or of liburing works is a parameter.
pub mod Egress
pub mod Client
pub mod Server
pub mod Rings
pub mod Sockets
pub mod Buffers
pub mod Settled
pub mod Over
pub mod Tidy
use embr.Base.{Bool, List, [], err, false, if◌then◌else◌, ok, setup_failed, suc, true, ℕ, ◌∷◌}
use embr.Egress.Slots.{held}
use embr.Exec.{Exec}

pub data Resource : Type 0 where
  socket tls_context tls_session quic_conn egress_ring ring chunk_memory frag_memory : Resource

pub data Act : Type 0 where
  acquired released : Resource → Act

-- What was done, the last first.
abbrev pub Ledger : Type 0
Ledger = List Act

abbrev pub acquire : Resource → Exec Ledger (Unit {0})
acquire r l = (ok tt, acquired r ∷ l)

abbrev pub release_all : List Resource → Ledger → Ledger
release_all [] l = l
release_all (r ∷ rs) l = release_all rs (released r ∷ l)

-- A call, and what is released before the throw if it fails.
abbrev pub check : Bool → List Resource → Exec Ledger (Unit {0})
check works held l = if works then (ok tt, l) else (err setup_failed, release_all held l)

-- Where a resource stands. `misused` is a release of what is not held.
pub data Standing : Type 0 where
  absent kept gone misused : Standing

abbrev pub same_resource : Resource → Resource → Bool
same_resource socket socket = true
same_resource tls_context tls_context = true
same_resource tls_session tls_session = true
same_resource quic_conn quic_conn = true
same_resource egress_ring egress_ring = true
same_resource ring ring = true
same_resource chunk_memory chunk_memory = true
same_resource frag_memory frag_memory = true
same_resource _ _ = false

abbrev pub on_acquire : Standing → Standing
on_acquire absent = kept
on_acquire gone = kept
on_acquire _ = misused

abbrev pub on_release : Standing → Standing
on_release kept = gone
on_release _ = misused

abbrev pub standing : Resource → Ledger → Standing
standing r [] = absent
standing r (acquired q ∷ l) = if same_resource q r then on_acquire (standing r l) else standing r l
standing r (released q ∷ l) = if same_resource q r then on_release (standing r l) else standing r l

-- Nothing is held, and nothing was released that was not held.
abbrev pub is_settled : Standing → Bool
is_settled absent = true
is_settled gone = true
is_settled _ = false

-- How often a resource was released.
abbrev pub releases : Resource → Ledger → ℕ
releases r [] = 0
releases r (acquired q ∷ l) = releases r l
releases r (released q ∷ l) = if same_resource q r then suc (releases r l) else releases r l
