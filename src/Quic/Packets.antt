-- ===== src/Quic/Packets.antt =====
-- The datagrams of src/transport/quic_transport.cpp: through the egress pool, or by sendmsg.
use embr.Base.{Bool, List, Option, Result, err, if◌then◌else◌, none, ok, some, true, ℕ}
use embr.Egress.{Flushed, ZcEgress, flush, new_egress}
use embr.Egress.Calls.{Entry, Turn, commit, reserve}
use embr.Exec.{Exec}
use embr.Quic.{QuicTransport, quic_max_pktlen, quic_zc_slots}

-- The environment of init_egress: whether EMBR_QUIC_EGRESS asks for sendmsg, and whether the ring
-- comes up, with registered buffers.
pub record Setup : Type 0 where
  pub asks_sendmsg : Bool
  pub ring_registers : Option Bool

pub data SendResult : Type 0 where
  sent_ok blocked send_failed : SendResult

-- What one packet meets: turns of reserve, an entry for commit, or the result of sendmsg.
pub record Passage : Type 0 where
  pub setup : Setup
  pub turns : List Turn
  pub entry : Entry
  pub by_sendmsg : SendResult

abbrev pub pool_if : Setup → Option ZcEgress
pool_if s =
    let made : Option ZcEgress = elim (new_egress quic_max_pktlen quic_zc_slots true) [
      | ok e ↦ some e
      | err x ↦ none
    ] in
    let registered_pool : Option ZcEgress = elim s.ring_registers [
      | none ↦ none
      | some registers ↦ if registers then made else none
    ] in
    if s.asks_sendmsg then none else registered_pool

unfoldable pub init_egress : Setup → QuicTransport → QuicTransport
init_egress s q = if q.egress_init then q else record q { egress_init = true; zc = pool_if s }

-- The pool is given up once it hands out no slot.
abbrev pub keep_slot :
    Result (Option ℕ) × ZcEgress → QuicTransport → Result (Unit {0}) × QuicTransport
keep_slot (ok (some i), e) q = (ok tt, record q { zc = some e })
keep_slot (ok none, e) q = (ok tt, record q { zc = none })
keep_slot (err x, e) q = (err x, record q { zc = some e })

abbrev pub reserve_in : Option ZcEgress → List Turn → Exec QuicTransport (Unit {0})
reserve_in none turns q = (ok tt, q)
reserve_in (some e) turns q = keep_slot (reserve turns e) q

unfoldable pub begin_packet : Passage → Exec QuicTransport (Unit {0})
begin_packet p q = let q' = init_egress p.setup q in reserve_in q'.zc p.turns q'

abbrev pub committed : Result Bool × ZcEgress → QuicTransport → Result SendResult × QuicTransport
committed (ok b, e) q = (ok (if b then sent_ok else send_failed), record q { zc = some e })
committed (err x, e) q = (err x, record q { zc = some e })

abbrev pub commit_in : Option ZcEgress → ℕ → Passage → Exec QuicTransport SendResult
commit_in none n p q = (ok p.by_sendmsg, q)
commit_in (some e) n p q = committed (commit n p.entry e) q

unfoldable pub send_packet : ℕ → Passage → Exec QuicTransport SendResult
send_packet n p q = commit_in q.zc n p q

abbrev pub flushed_pool : Option ZcEgress → Flushed → Option ZcEgress
flushed_pool none f = none
flushed_pool (some e) f = let e' = flush f e in if e'.unsupported then none else some e'

unfoldable pub flush_packets : Flushed → QuicTransport → QuicTransport
flush_packets f q = record q { zc = flushed_pool q.zc f }
