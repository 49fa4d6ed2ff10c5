-- ===== src/Transport/Errnos.antt =====
-- What the errno loops of src/transport/transport.hpp make of the results of a system call.
use embr.Base.{List, [], if◌then◌else◌, ℕ, ◌==◌, ◌∷◌, ◌≢◌}
use embr.Errno.{errno_again, errno_intr}
use embr.Protocol.{Bytes}
use embr.Transport.{Acceptance, Arrival, accepted, arrived}

pub data CallResult (A : Type 0) : Type 0 where
  call_result : A → CallResult A
  call_errno : ℕ → CallResult A

-- EAGAIN and EWOULDBLOCK are one number.
abbrev pub seen_by_recv_exact : CallResult Bytes → Arrival
seen_by_recv_exact (call_result bs) = arrived bs
seen_by_recv_exact (call_errno e) = if e == errno_again then Arrival.again else Arrival.failed e

abbrev pub seen_by_send_exact : CallResult ℕ → Acceptance
seen_by_send_exact (call_result k) = accepted k
seen_by_send_exact (call_errno e) =
    if e == errno_again then Acceptance.again else Acceptance.failed e

-- The calls that no signal interrupted.
unfoldable pub without_eintr : {A : Type 0} → List (CallResult A) → List (CallResult A)
without_eintr [] = []
without_eintr (call_result a ∷ rs) = call_result a ∷ without_eintr rs
without_eintr (call_errno e ∷ rs) =
    let rest = without_eintr rs in if e == errno_intr then rest else call_errno e ∷ rest

abbrev pub HasNoEagain : {A : Type 0} → List (CallResult A) → Type 0
HasNoEagain [] = Unit {0}
HasNoEagain (call_result a ∷ rs) = HasNoEagain rs
HasNoEagain (call_errno e ∷ rs) = (e ≢ errno_again) × HasNoEagain rs
