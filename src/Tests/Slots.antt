-- ===== src/Tests/Slots.antt =====
-- Examples for the egress pool of src/transport/quic_egress.cpp: a pool of two slots.
use embr.Base.{[], arith, false, none, refl, some, true, ℕ, ◌∷◌, ◌≡◌, ◌≢◌}
use embr.Egress.{
  Completion, Flushed, ZcEgress, flush, new_egress, on_completion, queued, reap, slots_from,
  submit_all,
}
use embr.Egress.Calls.{
  Turn, at_once, commit, commit_slot, drain, drain_loop, next_slot, reserve, submit_slot,
}
use embr.Egress.Pool.{Committed, Handed, commit-Committed, reserve-Handed}
use embr.Egress.Quiet.{drain-quiet}
use embr.Egress.Retention.{reserve_other}
use embr.Egress.Slots.{IsOwned, new_egress-IsOwned}

abbrev empty_pool : ZcEgress
empty_pool = record {
  slot_size = 1200;
  slots = 2;
  registered = true;
  unsupported = false;
  free = slots_from 0 2;
  inflight = λ i. none;
  reserved = none;
  err = 0;
  stats = record { sends = 0; notifs = 0; copied = 0; fallback = 0; errors = 0 };
}

empty_pool-IsOwned : IsOwned empty_pool
unfolding new_egress
empty_pool-IsOwned = new_egress-IsOwned 1200 2 true refl

abbrev holding_one : ZcEgress
holding_one = record empty_pool { free = 1 ∷ []; reserved = some 0 }

holding_one-IsOwned : IsOwned holding_one
unfolding reserve next_slot
holding_one-IsOwned = (reserve-Handed [] empty_pool empty_pool-IsOwned).1

-- Slot 0 is in flight.
abbrev one_in_flight : ZcEgress
one_in_flight = submit_slot 0 700 holding_one

one_in_flight-IsOwned : IsOwned one_in_flight
unfolding commit commit_slot
one_in_flight-IsOwned = (commit-Committed 0 700 at_once holding_one refl holding_one-IsOwned).1

abbrev acked_send : Completion
acked_send = record {
  slot = 0;
  failure = none;
  is_notif = false;
  has_more = true;
  was_copied = false;
  copy_failure = none;
}

abbrev notified : Completion
notified = record acked_send { is_notif = true; has_more = false }

abbrev quiet_turn : Turn
quiet_turn = record {
  flushed = record { submits = queued ∷ []; found = acked_send ∷ [] };
  waited = record { pending = none; woken = none };
}

reserve-Handed_example :
    Handed (reserve (quiet_turn ∷ []) one_in_flight)
    × IsOwned (reserve (quiet_turn ∷ []) one_in_flight).1
reserve-Handed_example = reserve-Handed (quiet_turn ∷ []) one_in_flight one_in_flight-IsOwned

commit-Committed_example :
    Committed 0 700 (commit 700 at_once holding_one) × IsOwned (commit 700 at_once holding_one).1
commit-Committed_example = commit-Committed 0 700 at_once holding_one refl holding_one-IsOwned

abbrev last_flush : Flushed
last_flush = record { submits = []; found = acked_send ∷ notified ∷ [] }

drain-quiet_example : (drain last_flush [] one_in_flight).1.inflight 0 ≡ none
unfolding drain drain_loop flush reap on_completion submit_slot submit_all
drain-quiet_example =
    drain-quiet last_flush [] one_in_flight 0 one_in_flight-IsOwned (omega arith) refl

abbrev reserved_next : ZcEgress
reserved_next = (reserve (quiet_turn ∷ []) one_in_flight).1

abbrev second_slot : ℕ
second_slot = 1

reserve_other_example : (reserved_next.inflight 0 ≡ some 700) × (second_slot ≢ 0)
unfolding reserve next_slot submit_slot
reserve_other_example =
    reserve_other (quiet_turn ∷ []) one_in_flight 0 700 one_in_flight-IsOwned refl
      (((refl, tt), tt, tt), tt) refl
